-- ===== src/Port/Timers.antt =====
-- What the timers that port_tx.c and port_rx.c set up count (port/nucleo_stm32f446re/src), against
-- the times that common/include/fsm_tx.h and common/include/fsm_rx_nec.h name, on the core's clock
-- of 16 MHz.
use transmisor_receptor_ir.Common.{ℕ, ◌+◌, ◌*◌, ◌≤◌, ◌<◌, ◌≡◌, Bool, true, false, ◌&&◌, arith}
use transmisor_receptor_ir.Port.State.{Board, Timer, gpiob, tim1_up_tim10_irqn}
use transmisor_receptor_ir.Port.Gpio.{
  gpio_mode_alternate, gpio_pupdr_nopull, port_system_gpio_config,
  port_system_gpio_config_alternate,
}
use transmisor_receptor_ir.Port.Pins.{
  mode_of, alternate_of, gpio_config-fields, gpio_config_alternate-fields,
}
use transmisor_receptor_ir.Port.Tx.{
  port_tx_init, ir_tx_0_pin, timer_symbol_setup, timer_pwm_setup, port_tx_pwm_timer_set,
}
use transmisor_receptor_ir.Port.System.{hsi_value}

-- The cycles of the core's clock between two updates of a timer.
abbrev pub cycles : Timer → ℕ
cycles t = (t.arr + 1) * (t.psc + 1)

-- The transmitter that is set up: its pin is an output of TIM2, the symbol timer makes a tick of
-- 56.25 us and its interrupt is on, the carrier is the multiple of a cycle that is nearest to
-- 38 kHz, is high for the last count below 35 %, and is on or off as the caller asks.
pub record IsSetUp (status : Bool) (b : Board) : Type 0 where
  pub alternate : mode_of ir_tx_0_pin (b.gpio gpiob) ≡ gpio_mode_alternate
  pub function : alternate_of ir_tx_0_pin (b.gpio gpiob) ≡ 1
  pub tick : cycles b.tim1 * 100000000 ≡ hsi_value * 5625
  pub ticking : b.tim1.uie ≡ true
  pub irq : b.irq_on tim1_up_tim10_irqn ≡ true
  pub no_slower : 2 * (cycles b.tim2 * 38000) ≤ 2 * hsi_value + 38000
  pub no_faster : 2 * hsi_value ≤ 2 * (cycles b.tim2 * 38000) + 38000
  pub duty : 100 * b.ccr3 ≤ 35 * cycles b.tim2
  pub duty_next : 35 * cycles b.tim2 < 100 * (b.ccr3 + 1)
  pub carrier : (b.cc3e && b.tim2.cen) ≡ status

alternate-mode :
    (pin alternate : ℕ) (b : Board)
    → ((port_system_gpio_config_alternate gpiob pin alternate b).gpio gpiob).moder
      ≡ (b.gpio gpiob).moder
unfolding port_system_gpio_config_alternate
alternate-mode pin alternate b = ground arith

-- The two calls on the transmitter's pin.
pin_set_up :
    (b : Board)
    → let c =
        port_system_gpio_config_alternate gpiob ir_tx_0_pin 1
          (port_system_gpio_config gpiob ir_tx_0_pin gpio_mode_alternate gpio_pupdr_nopull b) in
      (mode_of ir_tx_0_pin (c.gpio gpiob) ≡ gpio_mode_alternate)
      × (alternate_of ir_tx_0_pin (c.gpio gpiob) ≡ 1)
pin_set_up b =
    let c = port_system_gpio_config gpiob ir_tx_0_pin gpio_mode_alternate gpio_pupdr_nopull b in
    ground (
      arith,
      alternate-mode ir_tx_0_pin 1 c,
      gpio_config-fields gpiob ir_tx_0_pin gpio_mode_alternate gpio_pupdr_nopull gpiob ir_tx_0_pin b
          (omega arith) (omega arith) (omega arith) (omega arith),
      gpio_config_alternate-fields gpiob ir_tx_0_pin 1 gpiob ir_tx_0_pin c (omega arith)
          (omega arith) (omega arith),
    )

-- The set-up of the transmitter comes to this, whatever the registers held.
pub port_tx_init-IsSetUp : (status : Bool) (b : Board) → IsSetUp status (port_tx_init 0 status b)
unfolding port_tx_init timer_symbol_setup timer_pwm_setup port_tx_pwm_timer_set
port_tx_init-IsSetUp true b = ground (arith, pin_set_up b)
port_tx_init-IsSetUp false b = ground (arith, pin_set_up b)
