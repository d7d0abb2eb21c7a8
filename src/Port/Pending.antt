-- ===== src/Port/Pending.antt =====
-- What the service routines of port_button.c and port_rx.c (port/nucleo_stm32f446re/src) write to
-- EXTI's pending register, where writing a one clears the bit.
use transmisor_receptor_ir.Common.{
  ℕ, ◌<◌, ◌≡◌, ◌==◌, if◌then◌else◌, arith, bit_at, bit_at-bit_or, bit_at-lt,
}
use transmisor_receptor_ir.Port.State.{Board}
use transmisor_receptor_ir.Port.Gpio.{bit_pos_to_mask}
use transmisor_receptor_ir.Port.Masks.{bit_at-mask, bit_and-mask}
use transmisor_receptor_ir.Port.Power.{port_system_systick_resume}
use transmisor_receptor_ir.Port.Handlers.{
  button_0_pin, ir_rx_0_pin, write_pr, store_edge_tick, exti15_10_irq_handler, exti9_5_irq_handler,
}

-- Every pending bit, with the line's own, once the line's routine is run.
abbrev pub cleared : ℕ → ℕ → Board → ℕ
cleared pin i b =
    if bit_at pin b.exti.pr == 0
    then bit_at i b.exti.pr_write
    else if i == pin
    then 1
    else bit_at i b.exti.pr

written :
    (pin i : ℕ) (b : Board)
    → i < 32
    → bit_at i (write_pr (bit_pos_to_mask pin) b).exti.pr_write
      ≡ (if i == pin then 1 else bit_at i b.exti.pr)
written pin i b small = ground (
  arith,
  bit_at-bit_or i b.exti.pr (bit_pos_to_mask pin),
  bit_at-mask i pin small,
  bit_at-lt i b.exti.pr,
)

stored-exti : (b : Board) → (store_edge_tick b).exti ≡ b.exti
unfolding store_edge_tick
stored-exti b = ground arith

-- Where a routine finds its line pending, it writes back every pending bit, so that the pending
-- interrupts of all other lines are cleared with its own; else it writes nothing.
pub irq_handlers-cleared :
    (i : ℕ) (b : Board)
    → i < 32
    → (bit_at i (exti15_10_irq_handler b).exti.pr_write ≡ cleared button_0_pin i b)
      × (bit_at i (exti9_5_irq_handler b).exti.pr_write ≡ cleared ir_rx_0_pin i b)
unfolding exti15_10_irq_handler exti9_5_irq_handler port_system_systick_resume
irq_handlers-cleared i b small = (
  ground (arith, written button_0_pin i b small, bit_and-mask b.exti.pr button_0_pin (omega arith)),
  ground (
    arith,
    written ir_rx_0_pin i b small,
    bit_and-mask b.exti.pr ir_rx_0_pin (omega arith),
    stored-exti (write_pr (bit_pos_to_mask ir_rx_0_pin) (port_system_systick_resume b)),
  ),
)
