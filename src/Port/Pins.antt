-- ===== src/Port/Pins.antt =====
-- What port_system.c (port/nucleo_stm32f446re/src) writes to the registers of the pins and of their
-- interrupt lines: the fields that are meant, and no others.
use native.Mathlib.Nat.{mul-le-mul_left}
use transmisor_receptor_ir.Common.{
  ℕ, ◌+◌, ◌-◌, ◌*◌, ◌/◌, ◌%◌, ◌^◌, ◌≤◌, ◌<◌, ◌≡◌, ◌⊎◌, inl, inr, Bool, not, ◌&&◌, ◌||◌, leb, ◌==◌,
  if◌then◌else◌, arith, Bool-cases, field, write_field, field-write_field, field-write_field_other,
}
use transmisor_receptor_ir.Port.State.{Board, Gpio, Exti}
use transmisor_receptor_ir.Port.Gpio.{
  port_system_gpio_config, port_system_gpio_config_alternate, exti_route, exti_mode, exticr_write,
}

-- The fields of two pins do not meet.
apart :
    (width pin q : ℕ)
    → (q < pin) ⊎ (pin < q)
    → (width * q + width ≤ width * pin) ⊎ (width * pin + width ≤ width * q)
apart width pin q (inl h) = inl (omega (arith, mul-le-mul_left width h))
apart width pin q (inr h) = inr (omega (arith, mul-le-mul_left width h))

-- The field of pin `q` after the field of pin `pin` is written.
written_pin :
    (width pin q value reg : ℕ)
    → width * pin + width ≤ 32
    → width * q + width ≤ 32
    → value < 2 ^ width
    → field width (width * q) (write_field (2 ^ width - 1) (width * pin) value reg)
      ≡ (if q == pin then value else field width (width * q) reg)
written_pin width pin q value reg inside inside' fits = elim (Bool-cases (q == pin)) [
  | inl same ↦ ground (arith, field-write_field width (width * pin) value reg inside fits)
  | inr other ↦
      let out = apart width pin q (ground arith) in
      ground (
        arith,
        field-write_field_other width (width * pin) value reg inside width (width * q) fits inside'
            out,
      )
]

-- The fields of a pin.
abbrev pub mode_of : ℕ → Gpio → ℕ
mode_of pin g = field 2 (2 * pin) g.moder

abbrev pub pull_of : ℕ → Gpio → ℕ
pull_of pin g = field 2 (2 * pin) g.pupdr

abbrev pub alternate_of : ℕ → Gpio → ℕ
alternate_of pin g =
    if leb pin 7 then field 4 (4 * (pin % 8)) g.afr0 else field 4 (4 * (pin % 8)) g.afr1

-- Every pin of every port keeps its mode and its pull, but for the one that is configured.
pub gpio_config-fields :
    (p_port pin mode pupd p q : ℕ) (b : Board)
    → pin < 16
    → q < 16
    → mode < 4
    → pupd < 4
    → let c = port_system_gpio_config p_port pin mode pupd b in
      (mode_of q (c.gpio p) ≡ (if p == p_port && q == pin then mode else mode_of q (b.gpio p)))
      × (pull_of q (c.gpio p) ≡ (if p == p_port && q == pin then pupd else pull_of q (b.gpio p)))
unfolding port_system_gpio_config
gpio_config-fields p_port pin mode pupd p q b h k fits fits' = ground (
  arith,
  written_pin 2 pin q mode (b.gpio p_port).moder (omega arith) (omega arith) fits,
  written_pin 2 pin q pupd (b.gpio p_port).pupdr (omega arith) (omega arith) fits',
)

-- Every pin of every port keeps its alternate function, but for the one that is configured.
pub gpio_config_alternate-fields :
    (p_port pin alternate p q : ℕ) (b : Board)
    → pin < 16
    → q < 16
    → alternate < 16
    → let c = port_system_gpio_config_alternate p_port pin alternate b in
      alternate_of q (c.gpio p)
      ≡ (if p == p_port && q == pin then alternate else alternate_of q (b.gpio p))
unfolding port_system_gpio_config_alternate
gpio_config_alternate-fields p_port pin alternate p q b h k fits = ground (
  arith,
  written_pin 4 (pin % 8) (q % 8) alternate (b.gpio p_port).afr0 (omega arith) (omega arith) fits,
  written_pin 4 (pin % 8) (q % 8) alternate (b.gpio p_port).afr1 (omega arith) (omega arith) fits,
)

-- The port that an interrupt line listens to, in SYSCFG's numbers.
abbrev pub port_of_line : ℕ → Board → ℕ
port_of_line q b = field 4 (4 * (q % 4)) (b.exticr (q / 4))

-- Every line keeps its port, but for the line of the pin, which takes GPIOA, GPIOB or GPIOC.
pub exti_route-port :
    (p_port pin q : ℕ) (b : Board)
    → pin < 16
    → q < 16
    → p_port < 3
    → port_of_line q (exti_route p_port pin b) ≡ (if q == pin then p_port else port_of_line q b)
unfolding exti_route exticr_write
exti_route-port p_port pin q b h k known = ground (
  arith,
  written_pin 4 (pin % 4) (q % 4) p_port (b.exticr 0) (omega arith) (omega arith) (omega arith),
  written_pin 4 (pin % 4) (q % 4) p_port (b.exticr 1) (omega arith) (omega arith) (omega arith),
  written_pin 4 (pin % 4) (q % 4) p_port (b.exticr 2) (omega arith) (omega arith) (omega arith),
  written_pin 4 (pin % 4) (q % 4) p_port (b.exticr 3) (omega arith) (omega arith) (omega arith),
)

-- Which of the four registers of the lines a mode writes.
abbrev pub rises : ℕ → Bool
rises mode = mode == 1 || mode == 3

abbrev pub falls : ℕ → Bool
falls mode = mode == 2 || mode == 3

abbrev pub interrupts : ℕ → Bool
interrupts mode = mode == 8 || (mode == 0 || leb 5 mode)

abbrev pub makes_events : ℕ → Bool
makes_events mode = mode == 4 || (mode == 0 || leb 5 mode) && not (mode == 8)

abbrev pub line_of : ℕ → ℕ → ℕ
line_of q reg = field 1 (1 * q) reg

-- Every line keeps its triggers and its masks, but for the line of the pin: a mode of 1, 2 or 3
-- turns on its edges, 8 its interrupt, 4 its event, and any other mode both interrupt and event.
pub exti_mode-lines :
    (pin mode q : ℕ) (e : Exti)
    → pin < 16
    → q < 16
    → let f = exti_mode pin mode e in
      (line_of q f.rtsr ≡ (if q == pin && rises mode then 1 else line_of q e.rtsr))
      × (line_of q f.ftsr ≡ (if q == pin && falls mode then 1 else line_of q e.ftsr))
      × (line_of q f.imr ≡ (if q == pin && interrupts mode then 1 else line_of q e.imr))
      × (line_of q f.emr ≡ (if q == pin && makes_events mode then 1 else line_of q e.emr))
unfolding exti_mode
exti_mode-lines pin mode q e h k =
    let same : 1 * pin ≡ pin = omega arith in
    let one = λ (reg : ℕ). written_pin 1 pin q 1 reg (omega arith) (omega arith) (omega arith) in
    ground (arith, same, one e.rtsr, one e.ftsr, one e.imr, one e.emr)
