-- ===== src/Port/Led.antt =====
-- What the writes to the ports' BSRR registers make of the pins, and so of the LED (port_rgb.c, and
-- `port_system_gpio_write` of port_system.c, under port/nucleo_stm32f446re/src).
use transmisor_receptor_ir.Common.{
  ℕ, ◌+◌, ◌-◌, ◌<◌, ◌≡◌, ◌∙◌, ap, Bool, true, false, ◌&&◌, ◌==◌, if◌then◌else◌, Option, none, some,
  List, [], ◌∷◌, arith, bit_at, bit_at-shl32_low, bit_at-shl32_high, shl32,
}
use transmisor_receptor_ir.Port.State.{Board, gpiob, gpioc}
use transmisor_receptor_ir.Port.Gpio.{port_system_gpio_write, bit_pos_to_mask}
use transmisor_receptor_ir.Port.Masks.{bit_at-mask}
use transmisor_receptor_ir.Port.Rgb.{port_rgb_set_color, rgb_r_0_pin, rgb_g_0_pin, rgb_b_0_pin}

-- What a reference manual says of BSRR: a one in bit `pin` sets the pin, and otherwise a one in bit
-- `pin + 16` resets it. The newest write that is about the pin counts.
abbrev pub driven : ℕ → ℕ → List (ℕ × ℕ) → Option Bool
driven p pin [] = none
driven p pin ((q, value) ∷ ws) =
    if q == p && bit_at pin value == 1
    then some true
    else if q == p && bit_at (pin + 16) value == 1
    then some false
    else driven p pin ws

-- The upper half of a mask that is moved there.
bit_at-upper :
    (i pin : ℕ)
    → i < 16
    → bit_at (i + 16) (shl32 (bit_pos_to_mask pin) 16) ≡ (if i == pin then 1 else 0)
bit_at-upper i pin small =
    let back : i + 16 - 16 ≡ i = omega arith in
    bit_at-shl32_high (i + 16) 16 (bit_pos_to_mask pin) (omega arith) (omega arith)
    ∙ ap (λ (t : ℕ). bit_at t (bit_pos_to_mask pin)) back
    ∙ bit_at-mask i pin (omega arith)

-- A write drives the pin that is meant, and no other.
gpio_write-driven :
    (p_port pin p q : ℕ) (value : Bool) (b : Board)
    → pin < 16
    → q < 16
    → driven p q (port_system_gpio_write p_port pin value b).bsrr
      ≡ (if p == p_port && q == pin then some value else driven p q b.bsrr)
unfolding port_system_gpio_write
gpio_write-driven p_port pin p q true b h k =
    ground (arith, bit_at-mask q pin (omega arith), bit_at-mask (q + 16) pin (omega arith))
gpio_write-driven p_port pin p q false b h k =
    ground
      (arith, bit_at-shl32_low q 16 (bit_pos_to_mask pin) (omega arith) k, bit_at-upper q pin k)

-- Setting a colour drives the three pins of the LED, and no other pin of any port.
pub rgb_set_color-driven :
    (id p q : ℕ) (r g b : Bool) (d : Board)
    → q < 16
    → driven p q (port_rgb_set_color id r g b d).bsrr ≡ (
        if p == gpiob && q == rgb_r_0_pin
        then some r
        else if p == gpioc && q == rgb_g_0_pin
        then some g
        else if p == gpiob && q == rgb_b_0_pin
        then some b
        else driven p q d.bsrr)
unfolding port_rgb_set_color
rgb_set_color-driven id p q r g b d h =
    let d₁ = port_system_gpio_write gpiob rgb_r_0_pin r d in
    let d₂ = port_system_gpio_write gpioc rgb_g_0_pin g d₁ in
    ground (
      arith,
      gpio_write-driven gpiob rgb_r_0_pin p q r d (omega arith) h,
      gpio_write-driven gpioc rgb_g_0_pin p q g d₁ (omega arith) h,
      gpio_write-driven gpiob rgb_b_0_pin p q b d₂ (omega arith) h,
    )
