-- ===== src/Port/Rx.antt =====
-- port/nucleo_stm32f446re/src/port_rx.c, but for its service routine (Port/Handlers). There is one
-- receiver, with the id 0.
use transmisor_receptor_ir.Common.{ℕ, Bool, true, false, List, if◌then◌else◌}
use transmisor_receptor_ir.Port.State.{Board, gpiob}
use transmisor_receptor_ir.Port.Gpio.{
  gpio_mode_in, gpio_pupdr_nopull, trigger_both_edge, trigger_enable_interr_req,
  port_system_gpio_config, port_system_gpio_config_exti, port_system_gpio_exti_enable,
  port_system_gpio_exti_disable,
}
use transmisor_receptor_ir.Port.Handlers.{ir_rx_0_pin, reset_edge_ticks_idx}
use transmisor_receptor_ir.Port.Interrupts.{poll}

-- port_rx.h
abbrev pub ir_rx_0_id : ℕ
ir_rx_0_id = 0

unfoldable pub timer_rx_setup : Board → Board
timer_rx_setup b = record b {
  tim3 = record (b.tim3) { clock_on = true; cnt = 0; arr = 65535; psc = 159; ug = true };
}

unfoldable pub port_rx_clean_buffer : ℕ → Board → Board
port_rx_clean_buffer rx_id b = reset_edge_ticks_idx (poll b)

unfoldable pub port_rx_init : ℕ → Board → Board
unfolding timer_rx_setup port_system_gpio_config port_system_gpio_config_exti
    port_system_gpio_exti_enable
port_rx_init rx_id b =
    let b₁ =
      port_system_gpio_config gpiob ir_rx_0_pin gpio_mode_in gpio_pupdr_nopull (timer_rx_setup b) in
    let b₂ = port_system_gpio_config_exti gpiob ir_rx_0_pin trigger_both_edge b₁ in
    let b₃ = port_system_gpio_config_exti gpiob ir_rx_0_pin trigger_enable_interr_req b₂ in
    reset_edge_ticks_idx (poll (port_system_gpio_exti_enable ir_rx_0_pin 2 0 b₃))

unfoldable pub port_rx_en : ℕ → Bool → Board → Board
unfolding port_system_gpio_exti_enable port_system_gpio_exti_disable
port_rx_en rx_id interr_en b =
    let b' = reset_edge_ticks_idx (poll b) in
    if interr_en
    then port_system_gpio_exti_enable ir_rx_0_pin 2 0 b'
    else port_system_gpio_exti_disable ir_rx_0_pin b'

unfoldable pub port_rx_tmr_start : Board → Board
port_rx_tmr_start b = record b { tim3 = record (b.tim3) { cnt = 0; cen = true } }

unfoldable pub port_rx_tmr_stop : Board → Board
port_rx_tmr_stop b = record b { tim3 = record (b.tim3) { cen = false } }

unfoldable pub port_rx_get_num_edges : ℕ → Board → ℕ × Board
port_rx_get_num_edges rx_id b = let b' = poll b in (b'.edge_idx, b')

-- The array itself, as it stands when the elements are read: its elements below the number of
-- edges that was read before do not change until it is cleaned.
unfoldable pub port_rx_get_buffer_edges : ℕ → Board → List ℕ
port_rx_get_buffer_edges rx_id b = b.edge_ticks
