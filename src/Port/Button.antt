-- ===== src/Port/Button.antt =====
-- port/nucleo_stm32f446re/src/port_button.c. There is one button, with the id 0: another id reads
-- outside `buttons_arr`, and the ids of the program are all 0.
use transmisor_receptor_ir.Common.{ℕ, Bool}
use transmisor_receptor_ir.Port.State.{Board, gpioc}
use transmisor_receptor_ir.Port.Gpio.{
  gpio_mode_in, gpio_pupdr_nopull, trigger_both_edge, trigger_enable_interr_req,
  port_system_gpio_config, port_system_gpio_config_exti, port_system_gpio_exti_enable,
}
use transmisor_receptor_ir.Port.Handlers.{button_0_pin}
use transmisor_receptor_ir.Port.Interrupts.{poll}

abbrev pub button_0_id : ℕ
button_0_id = 0

abbrev pub button_0_debounce_time_ms : ℕ
button_0_debounce_time_ms = 150

unfoldable pub port_button_init : ℕ → Board → Board
unfolding port_system_gpio_config port_system_gpio_config_exti port_system_gpio_exti_enable
port_button_init button_id b =
    let b₁ = port_system_gpio_config gpioc button_0_pin gpio_mode_in gpio_pupdr_nopull b in
    let b₂ = port_system_gpio_config_exti gpioc button_0_pin trigger_both_edge b₁ in
    let b₃ = port_system_gpio_config_exti gpioc button_0_pin trigger_enable_interr_req b₂ in
    port_system_gpio_exti_enable button_0_pin 1 0 b₃

unfoldable pub port_button_is_pressed : ℕ → Board → Bool × Board
port_button_is_pressed button_id b = let b' = poll b in (b'.flag_pressed, b')

-- `port_system_get_millis` (port_system.c)
unfoldable pub port_system_get_millis : Board → ℕ × Board
port_system_get_millis b = let b' = poll b in (b'.ms_ticks, b')

unfoldable pub port_button_get_tick : Board → ℕ × Board
unfolding port_system_get_millis
port_button_get_tick b = port_system_get_millis b
