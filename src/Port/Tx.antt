-- ===== src/Port/Tx.antt =====
-- port/nucleo_stm32f446re/src/port_tx.c. There is one transmitter, with the id 0.
use transmisor_receptor_ir.Common.{ℕ, Bool, true, false, ◌==◌, if◌then◌else◌, set_bits}
use transmisor_receptor_ir.Port.State.{Board, gpiob, tim1_up_tim10_irqn}
use transmisor_receptor_ir.Port.Gpio.{
  gpio_mode_alternate, gpio_pupdr_nopull, nvic, set_priority, port_system_gpio_config,
  port_system_gpio_config_alternate,
}
use transmisor_receptor_ir.Port.Interrupts.{poll}

-- port_tx.h
abbrev pub ir_tx_0_id : ℕ
ir_tx_0_id = 0

abbrev pub ir_tx_0_pin : ℕ
ir_tx_0_pin = 10

abbrev alt_func1_tim2 : ℕ
alt_func1_tim2 = 1

unfoldable pub timer_symbol_setup : Board → Board
timer_symbol_setup b =
    let b' : Board = record b {
      tim1 = record (b.tim1) {
        clock_on = true;
        cnt = 0;
        arr = 899;
        psc = 0;
        ug = true;
        uif = false;
        uie = true;
      };
    } in
    nvic tim1_up_tim10_irqn true (set_priority tim1_up_tim10_irqn 1 0 b')

unfoldable pub timer_pwm_setup : ℕ → Board → Board
unfolding set_bits
timer_pwm_setup tx_id b =
    if tx_id == ir_tx_0_id
    then record b {
      tim2 = record (b.tim2) { clock_on = true; cnt = 0; arr = 420; psc = 0; ug = true };
      cc3e = false;
      ccmr2 = set_bits b.ccmr2 0x60;
      oc3pe = true;
      ccr3 = 147;
    }
    else b

unfoldable pub port_tx_pwm_timer_set : ℕ → Bool → Board → Board
port_tx_pwm_timer_set tx_id status b =
    if tx_id == ir_tx_0_id
    then (if status
        then record b { cc3e = true; tim2 = record (b.tim2) { cen = true } }
        else record b { cc3e = false; tim2 = record (b.tim2) { cen = false } })
    else b

unfoldable pub port_tx_init : ℕ → Bool → Board → Board
unfolding port_system_gpio_config port_system_gpio_config_alternate timer_symbol_setup
    timer_pwm_setup port_tx_pwm_timer_set
port_tx_init tx_id status b =
    let b₁ = port_system_gpio_config gpiob ir_tx_0_pin gpio_mode_alternate gpio_pupdr_nopull b in
    let b₂ = port_system_gpio_config_alternate gpiob ir_tx_0_pin alt_func1_tim2 b₁ in
    port_tx_pwm_timer_set tx_id status (timer_pwm_setup tx_id (timer_symbol_setup b₂))

-- The timer is started first; an interrupt may still come before the count is reset.
unfoldable pub port_tx_symbol_tmr_start : Board → Board
port_tx_symbol_tmr_start b =
    let b' = poll (record b { tim1 = record (b.tim1) { cnt = 0; cen = true } }) in
    record b' { symbol_tick = 0; symbols = 0 }

unfoldable pub port_tx_symbol_tmr_stop : Board → Board
port_tx_symbol_tmr_stop b = record b { tim1 = record (b.tim1) { cen = false } }

unfoldable pub port_tx_tmr_get_tick : Board → ℕ × Board
port_tx_tmr_get_tick b = let b' = poll b in (b'.symbol_tick, b')
