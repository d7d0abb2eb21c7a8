-- ===== src/Port/Rgb.antt =====
-- port/nucleo_stm32f446re/src/port_rgb.c. There is one LED, with the id 0.
use transmisor_receptor_ir.Common.{ℕ, Bool, false}
use transmisor_receptor_ir.Port.State.{Board, gpiob, gpioc}
use transmisor_receptor_ir.Port.Gpio.{
  gpio_mode_out, gpio_pupdr_nopull, port_system_gpio_config, port_system_gpio_write,
}

-- port_rgb.h
abbrev pub rgb_0_id : ℕ
rgb_0_id = 0

abbrev pub rgb_r_0_pin : ℕ
rgb_r_0_pin = 4

abbrev pub rgb_g_0_pin : ℕ
rgb_g_0_pin = 7

abbrev pub rgb_b_0_pin : ℕ
rgb_b_0_pin = 5

-- The levels are given as what `(bool)` makes of the `uint8_t` arguments.
unfoldable pub port_rgb_set_color : ℕ → Bool → Bool → Bool → Board → Board
unfolding port_system_gpio_write
port_rgb_set_color rgb_id r g b d =
    port_system_gpio_write gpiob rgb_b_0_pin b
      (port_system_gpio_write gpioc rgb_g_0_pin g (port_system_gpio_write gpiob rgb_r_0_pin r d))

unfoldable pub port_rgb_init : ℕ → Board → Board
unfolding port_system_gpio_config port_rgb_set_color
port_rgb_init rgb_id d =
    let d₁ = port_system_gpio_config gpiob rgb_r_0_pin gpio_mode_out gpio_pupdr_nopull d in
    let d₂ = port_system_gpio_config gpioc rgb_g_0_pin gpio_mode_out gpio_pupdr_nopull d₁ in
    let d₃ = port_system_gpio_config gpiob rgb_b_0_pin gpio_mode_out gpio_pupdr_nopull d₂ in
    port_rgb_set_color rgb_id false false false d₃
