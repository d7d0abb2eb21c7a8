-- ===== src/Port/Inputs.antt =====
-- The pins that are read, once they are initialised: that of the button (port_button.c) and that of
-- the receiver (port_rx.c), under port/nucleo_stm32f446re/src.
use transmisor_receptor_ir.Common.{ℕ, ◌+◌, ◌<◌, ◌≡◌, true, List, [], ◌∷◌, arith}
use transmisor_receptor_ir.Port.State.{
  Irq, systick, tim1_up, exti15_10, exti9_5, Board, gpiob, gpioc,
}
use transmisor_receptor_ir.Port.Gpio.{
  gpio_mode_in, gpio_pupdr_nopull, trigger_both_edge, trigger_enable_interr_req, get_pin_irqn,
  port_system_gpio_config, port_system_gpio_config_exti, port_system_gpio_exti_enable, exti_route,
  exti_mode, irqn_eq,
}
use transmisor_receptor_ir.Port.Handlers.{
  button_0_pin, ir_rx_0_pin, store_edge_tick, reset_edge_ticks_idx,
}
use transmisor_receptor_ir.Port.Interrupts.{serve, serve_all, poll}
use transmisor_receptor_ir.Port.Button.{port_button_init}
use transmisor_receptor_ir.Port.Rx.{port_rx_init, timer_rx_setup}
use transmisor_receptor_ir.Port.Pins.{
  mode_of, pull_of, port_of_line, line_of, gpio_config-fields, exti_route-port, exti_mode-lines,
}

-- A pin is an input without pull, both its edges are triggers, its line listens to its port, and
-- the line's interrupt is let through by EXTI and by the NVIC.
pub record IsArmed (p_port pin : ℕ) (b : Board) : Type 0 where
  pub input : mode_of pin (b.gpio p_port) ≡ gpio_mode_in
  pub no_pull : pull_of pin (b.gpio p_port) ≡ gpio_pupdr_nopull
  pub listens : port_of_line pin b ≡ p_port
  pub rising : line_of pin b.exti.rtsr ≡ 1
  pub falling : line_of pin b.exti.ftsr ≡ 1
  pub unmasked : line_of pin b.exti.imr ≡ 1
  pub irq : b.irq_on (get_pin_irqn pin) ≡ true

-- The routing of a line writes nothing but the routes.
record IsRouted (b c : Board) : Type 0 where
  gpio : c.gpio ≡ b.gpio
  exti : c.exti ≡ b.exti

exti_route-IsRouted : (p_port pin : ℕ) (b : Board) → IsRouted b (exti_route p_port pin b)
unfolding exti_route
exti_route-IsRouted p_port pin b = ground arith

irqn_eq_refl : (pin : ℕ) → irqn_eq (get_pin_irqn pin) (get_pin_irqn pin) ≡ true
unfolding get_pin_irqn
irqn_eq_refl pin = ground arith

module _ (p_port pin : ℕ) (b : Board) (h : pin < 16) (known : p_port < 3) where
  abbrev configured : Board
  configured = port_system_gpio_config p_port pin gpio_mode_in gpio_pupdr_nopull b

  abbrev triggered : Board
  triggered = port_system_gpio_config_exti p_port pin trigger_both_edge configured

  abbrev let_through : Board
  let_through = port_system_gpio_config_exti p_port pin trigger_enable_interr_req triggered

  configured_input :
      (mode_of pin (configured.gpio p_port) ≡ gpio_mode_in)
      × (pull_of pin (configured.gpio p_port) ≡ gpio_pupdr_nopull)
  configured_input = ground (
    arith,
    gpio_config-fields p_port pin gpio_mode_in gpio_pupdr_nopull p_port pin b h h (omega arith)
        (omega arith),
  )

  config_exti-IsRouted :
      (mode : ℕ) (c : Board)
      → ((port_system_gpio_config_exti p_port pin mode c).gpio ≡ c.gpio)
        × ((port_system_gpio_config_exti p_port pin mode c).exti ≡ exti_mode pin mode c.exti)
        × (port_of_line pin (port_system_gpio_config_exti p_port pin mode c) ≡ p_port)
  unfolding port_system_gpio_config_exti
  config_exti-IsRouted mode c =
      let c' : Board = record c { syscfgen = true } in
      ground (arith, exti_route-IsRouted p_port pin c', exti_route-port p_port pin pin c' h h known)

  -- The calls that both initialisations make arm the pin.
  input-IsArmed :
      (priority sub : ℕ)
      → IsArmed p_port pin (port_system_gpio_exti_enable pin priority sub let_through)
  unfolding port_system_gpio_exti_enable
  input-IsArmed priority sub =
      let first = config_exti-IsRouted trigger_both_edge configured in
      let second = config_exti-IsRouted trigger_enable_interr_req triggered in
      ground (
        arith,
        configured_input,
        first,
        second,
        exti_mode-lines pin trigger_both_edge pin configured.exti h h,
        exti_mode-lines pin trigger_enable_interr_req pin triggered.exti h h,
        irqn_eq_refl pin,
      )

-- What a service routine leaves of the pins.
record IsPinned (p : ℕ) (b c : Board) : Type 0 where
  moder : (c.gpio p).moder ≡ (b.gpio p).moder
  pupdr : (c.gpio p).pupdr ≡ (b.gpio p).pupdr
  exticr : c.exticr ≡ b.exticr
  rtsr : c.exti.rtsr ≡ b.exti.rtsr
  ftsr : c.exti.ftsr ≡ b.exti.ftsr
  imr : c.exti.imr ≡ b.exti.imr
  irq_on : c.irq_on ≡ b.irq_on

serve-IsPinned : (i : Irq) (p : ℕ) (b : Board) → IsPinned p b (serve i b)
unfolding serve store_edge_tick
serve-IsPinned systick p b = ground arith
serve-IsPinned tim1_up p b = ground arith
serve-IsPinned (exti15_10 pr idr) p b = ground arith
serve-IsPinned (exti9_5 pr idr cnt) p b = ground arith

serve_all-IsPinned : (is : List Irq) (p : ℕ) (b : Board) → IsPinned p b (serve_all is b)
unfolding serve_all
serve_all-IsPinned [] p b = ground arith
serve_all-IsPinned (i ∷ is) p b =
    ground (arith, serve-IsPinned i p b, serve_all-IsPinned is p (serve i b))

poll-IsPinned : (p : ℕ) (b : Board) → IsPinned p b (poll b)
unfolding poll
poll-IsPinned p b =
    let c : Board = record b { accesses = b.accesses + 1 } in
    ground (arith, serve_all-IsPinned (b.arrivals b.accesses) p c)

IsPinned-IsArmed :
    {p_port pin : ℕ} {b c : Board}
    → IsPinned p_port b c
    → IsArmed p_port pin b
    → IsArmed p_port pin c
IsPinned-IsArmed k a = ground arith

-- After its initialisation the button's pin, 13 of GPIOC, raises an interrupt on each edge, and so
-- does the receiver's, 6 of GPIOB, whatever the registers held and whatever interrupts come.
pub inputs-IsArmed :
    (id : ℕ) (b : Board)
    → IsArmed gpioc button_0_pin (port_button_init id b)
      × IsArmed gpiob ir_rx_0_pin (port_rx_init id b)
unfolding port_button_init port_rx_init reset_edge_ticks_idx
inputs-IsArmed id b =
    let c = timer_rx_setup b in
    let a = input-IsArmed gpiob ir_rx_0_pin c (omega arith) (omega arith) 2 0 in
    (
      input-IsArmed gpioc button_0_pin b (omega arith) (omega arith) 1 0,
      ground (arith, IsPinned-IsArmed (poll-IsPinned gpiob _) a),
    )
