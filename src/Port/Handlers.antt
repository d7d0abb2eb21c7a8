-- ===== src/Port/Handlers.antt =====
-- The interrupt service routines of the port's files: port_button.c, port_rx.c and port_tx.c (and
-- port_system.c, in Port/Power), under port/nucleo_stm32f446re/src.
use transmisor_receptor_ir.Common.{
  ℕ, ◌+◌, ◌%◌, false, not, ◌&&◌, ◌||◌, [], ◌∷◌, ◌++◌, ltb, ◌==◌, if◌then◌else◌, bit_and, bit_or,
  set, replicate, u16, u32,
}
use transmisor_receptor_ir.Port.State.{Board, gpiob, gpioc}
use transmisor_receptor_ir.Port.Gpio.{bit_pos_to_mask, port_system_gpio_read}
use transmisor_receptor_ir.Port.Power.{port_system_systick_resume}

-- port_button.h, port_rx.h and fsm_rx_nec.h
abbrev pub button_0_pin : ℕ
button_0_pin = 13

abbrev pub ir_rx_0_pin : ℕ
ir_rx_0_pin = 6

abbrev pub nec_frame_edges : ℕ
nec_frame_edges = 256

-- `EXTI->PR |= mask`: the register is read, and what is read is written back with the mask.
abbrev pub write_pr : ℕ → Board → Board
write_pr mask b = record b { exti = record (b.exti) { pr_write = bit_or b.exti.pr mask } }

unfoldable pub exti15_10_irq_handler : Board → Board
unfolding port_system_systick_resume port_system_gpio_read
exti15_10_irq_handler b =
    let b' = port_system_systick_resume b in
    if bit_and b'.exti.pr (bit_pos_to_mask button_0_pin) == 0
    then b'
    else write_pr (bit_pos_to_mask button_0_pin)
        (record b' { flag_pressed = not (port_system_gpio_read gpioc button_0_pin b') })

-- `memset` of the array, and the index.
unfoldable pub reset_edge_ticks_idx : Board → Board
reset_edge_ticks_idx b = record b { edge_ticks = replicate nec_frame_edges 0; edge_idx = 0 }

-- The level is read twice; it is taken to be the same at both reads.
unfoldable pub store_edge_tick : Board → Board
unfolding port_system_gpio_read
store_edge_tick b =
    let value = b.edge_idx in
    let level = port_system_gpio_read gpiob ir_rx_0_pin b in
    if not level && value % 2 == 0 || level && not (value % 2 == 0)
    then (if ltb b.edge_idx nec_frame_edges
        then record b {
          edge_ticks = set b.edge_ticks b.edge_idx (u16 b.tim3.cnt);
          edge_idx = u16 (b.edge_idx + 1);
        }
        else b)
    else b

unfoldable pub exti9_5_irq_handler : Board → Board
unfolding port_system_systick_resume store_edge_tick
exti9_5_irq_handler b =
    let b' = port_system_systick_resume b in
    if bit_and b'.exti.pr (bit_pos_to_mask ir_rx_0_pin) == 0
    then b'
    else store_edge_tick (write_pr (bit_pos_to_mask ir_rx_0_pin) b')

unfoldable pub tim1_up_tim10_irq_handler : Board → Board
tim1_up_tim10_irq_handler b = record b {
  tim1 = record (b.tim1) { uif = false };
  symbol_tick = u32 (b.symbol_tick + 1);
  symbols = b.symbols + 1;
  on_air = b.on_air ++ (b.cc3e && b.tim2.cen) ∷ [];
}
