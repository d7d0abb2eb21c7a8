-- ===== src/Port/Gpio.antt =====
-- port/nucleo_stm32f446re/src/port_system.c: the functions on GPIOs and their interrupt lines.
use transmisor_receptor_ir.Common.{
  ℕ, ◌*◌, ◌%◌, Bool, true, false, not, ◌||◌, ◌∷◌, leb, ◌==◌, if◌then◌else◌, shl32, clear_bits,
  set_bits, bit_and,
}
use transmisor_receptor_ir.Port.State.{
  Irqn, exti_line, exti9_5_irqn, exti15_10_irqn, tim1_up_tim10_irqn, systick_irqn, Priority,
  encoded, Gpio, Exti, Board, gpioa, gpiob, gpioc,
}

-- Access to the registers of one port.
abbrev pub put_gpio : ℕ → Gpio → Board → Board
put_gpio p_port g b = record b { gpio = λ q. if q == p_port then g else b.gpio q }

abbrev pub bit_pos_to_mask : ℕ → ℕ
bit_pos_to_mask x = shl32 1 x

abbrev pub high : Bool
high = true

abbrev pub low : Bool
low = false

abbrev pub gpio_mode_in : ℕ
gpio_mode_in = 0

abbrev pub gpio_mode_out : ℕ
gpio_mode_out = 1

abbrev pub gpio_mode_alternate : ℕ
gpio_mode_alternate = 2

abbrev pub gpio_pupdr_nopull : ℕ
gpio_pupdr_nopull = 0

abbrev pub trigger_both_edge : ℕ
trigger_both_edge = 3

abbrev pub trigger_enable_interr_req : ℕ
trigger_enable_interr_req = 8

-- `GET_PIN_IRQN`
unfoldable pub get_pin_irqn : ℕ → Irqn
get_pin_irqn pin =
    if leb 10 pin then exti15_10_irqn else if leb 5 pin then exti9_5_irqn else exti_line pin

abbrev pub irqn_eq : Irqn → Irqn → Bool
irqn_eq (exti_line a) (exti_line b) = a == b
irqn_eq exti9_5_irqn exti9_5_irqn = true
irqn_eq exti15_10_irqn exti15_10_irqn = true
irqn_eq tim1_up_tim10_irqn tim1_up_tim10_irqn = true
irqn_eq systick_irqn systick_irqn = true
irqn_eq _ _ = false

-- `NVIC_EnableIRQ` and `NVIC_DisableIRQ`.
abbrev pub nvic : Irqn → Bool → Board → Board
nvic n on b = record b { irq_on = λ m. if irqn_eq m n then on else b.irq_on m }

-- `NVIC_SetPriority` of `NVIC_EncodePriority`, with `NVIC_GetPriorityGrouping`.
abbrev pub put_priority : Irqn → Priority → Board → Board
put_priority n p b = record b { priority = λ m. if irqn_eq m n then p else b.priority m }

abbrev pub set_priority : Irqn → ℕ → ℕ → Board → Board
set_priority n preempt sub b = put_priority n (encoded b.priority_grouping preempt sub) b

unfoldable pub port_system_gpio_exti_enable : ℕ → ℕ → ℕ → Board → Board
unfolding get_pin_irqn
port_system_gpio_exti_enable pin priority subpriority b =
    nvic (get_pin_irqn pin) true (set_priority (get_pin_irqn pin) priority subpriority b)

unfoldable pub port_system_gpio_exti_disable : ℕ → Board → Board
unfolding get_pin_irqn
port_system_gpio_exti_disable pin b = nvic (get_pin_irqn pin) false b

-- The clock of every port but GPIOA and GPIOB is taken for that of GPIOC.
unfoldable pub port_system_gpio_config : ℕ → ℕ → ℕ → ℕ → Board → Board
unfolding clear_bits set_bits
port_system_gpio_config p_port pin mode pupd b =
    let b' : Board =
      if p_port == gpioa
      then record b { gpioaen = true }
      else if p_port == gpiob
      then record b { gpioben = true }
      else record b { gpiocen = true } in
    let g = b'.gpio p_port in
    put_gpio p_port
      (record g {
        moder = set_bits (clear_bits g.moder (shl32 3 (2 * pin))) (shl32 mode (2 * pin));
        pupdr = set_bits (clear_bits g.pupdr (shl32 3 (2 * pin))) (shl32 pupd (2 * pin));
      })
      b'

unfoldable pub port_system_gpio_config_alternate : ℕ → ℕ → ℕ → Board → Board
unfolding clear_bits set_bits
port_system_gpio_config_alternate p_port pin alternate b =
    let g = b.gpio p_port in
    let field = λ (r : ℕ).
      set_bits (clear_bits r (shl32 15 (4 * (pin % 8)))) (shl32 alternate (4 * (pin % 8))) in
    put_gpio p_port
      (if leb pin 7 then record g { afr0 = field g.afr0 } else record g { afr1 = field g.afr1 }) b

-- One of the four registers `SYSCFG->EXTICR`: the field of the pin is cleared, and set to the number
-- of the port, if it is GPIOA, GPIOB or GPIOC.
unfoldable pub exticr_write : ℕ → ℕ → ℕ → ℕ
unfolding clear_bits set_bits
exticr_write p_port pin r =
    let r' = clear_bits r (shl32 15 (4 * (pin % 4))) in
    if p_port == gpioa
    then set_bits r' (shl32 0 (4 * (pin % 4)))
    else if p_port == gpiob
    then set_bits r' (shl32 1 (4 * (pin % 4)))
    else if p_port == gpioc
    then set_bits r' (shl32 2 (4 * (pin % 4)))
    else r'

abbrev put_exticr : ℕ → ℕ → ℕ → Board → Board
put_exticr n p_port pin b = record b {
  exticr = λ m. if m == n then exticr_write p_port pin (b.exticr m) else b.exticr m;
}

unfoldable pub exti_route : ℕ → ℕ → Board → Board
unfolding exticr_write
exti_route p_port pin b =
    if pin == 0 || pin == 1 || pin == 2 || pin == 3
    then put_exticr 0 p_port pin b
    else if pin == 4 || pin == 5 || pin == 6 || pin == 7
    then put_exticr 1 p_port pin b
    else if pin == 8 || pin == 9 || pin == 10 || pin == 11
    then put_exticr 2 p_port pin b
    else if pin == 12 || pin == 13 || pin == 14 || pin == 15
    then put_exticr 3 p_port pin b
    else b

-- `reg &= ~mask; reg |= mask;`
abbrev pub rewrite_bits : ℕ → ℕ → ℕ
rewrite_bits reg mask = set_bits (clear_bits reg mask) mask

unfoldable pub exti_mode : ℕ → ℕ → Exti → Exti
exti_mode pin mode e =
    let mask = bit_pos_to_mask pin in
    if mode == 1
    then record e { rtsr = rewrite_bits e.rtsr mask }
    else if mode == 2
    then record e { ftsr = rewrite_bits e.ftsr mask }
    else if mode == 3
    then record e { rtsr = rewrite_bits e.rtsr mask; ftsr = rewrite_bits e.ftsr mask }
    else if mode == 8
    then record e { imr = rewrite_bits e.imr mask }
    else if mode == 4
    then record e { emr = rewrite_bits e.emr mask }
    else record e { imr = rewrite_bits e.imr mask; emr = rewrite_bits e.emr mask }

unfoldable pub port_system_gpio_config_exti : ℕ → ℕ → ℕ → Board → Board
unfolding exti_route exti_mode
port_system_gpio_config_exti p_port pin mode b =
    let b' = exti_route p_port pin (record b { syscfgen = true }) in
    record b' { exti = exti_mode pin mode b'.exti }

unfoldable pub port_system_gpio_read : ℕ → ℕ → Board → Bool
port_system_gpio_read p_port pin b = not (bit_and (b.gpio p_port).idr (bit_pos_to_mask pin) == 0)

unfoldable pub port_system_gpio_write : ℕ → ℕ → Bool → Board → Board
port_system_gpio_write p_port pin value b =
    let bits = if value then bit_pos_to_mask pin else shl32 (bit_pos_to_mask pin) 16 in
    record b { bsrr = (p_port, bits) ∷ b.bsrr }

unfoldable pub port_system_gpio_toggle : ℕ → ℕ → Board → Board
unfolding port_system_gpio_read port_system_gpio_write
port_system_gpio_toggle p_port pin b =
    port_system_gpio_write p_port pin (not (port_system_gpio_read p_port pin b)) b
