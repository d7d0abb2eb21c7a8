-- ===== src/Main/Priorities.antt =====
-- The priorities of the interrupts once the program has started: common/src/retina.c on the board of
-- port/nucleo_stm32f446re/src.
use mathlib.Core.Path.{ap₂}
use transmisor_receptor_ir.Common.{
  if◌then◌else◌, ℕ, ◌+◌, ◌≡◌, refl, sym, ap, ◌∙◌, Option, some, List, [], ◌∷◌, false, arith,
}
use transmisor_receptor_ir.Nec.{FsmRxNec}
use transmisor_receptor_ir.Retina.{System}
use transmisor_receptor_ir.Main.{Memory}
use transmisor_receptor_ir.Main.Runs.{main_init-parts}
use transmisor_receptor_ir.Main.Board.{main_start}
use transmisor_receptor_ir.Port.State.{
  Irq, systick, tim1_up, exti15_10, exti9_5, Irqn, systick_irqn, tim1_up_tim10_irqn, exti15_10_irqn,
  exti9_5_irqn, Priority, encoded, plain, Board, gpiob, gpioc,
}
use transmisor_receptor_ir.Port.Interrupts.{serve, serve_all, poll}
use transmisor_receptor_ir.Port.Handlers.{
  button_0_pin, ir_rx_0_pin, store_edge_tick, reset_edge_ticks_idx,
}
use transmisor_receptor_ir.Port.Gpio.{
  port_system_gpio_config, port_system_gpio_config_alternate, port_system_gpio_config_exti,
  port_system_gpio_exti_enable, exti_route, port_system_gpio_write, get_pin_irqn, irqn_eq,
  set_priority, gpio_mode_in, gpio_mode_alternate, gpio_pupdr_nopull, trigger_both_edge,
  trigger_enable_interr_req,
}
use transmisor_receptor_ir.Port.Button.{port_button_init}
use transmisor_receptor_ir.Port.Rx.{port_rx_init, timer_rx_setup}
use transmisor_receptor_ir.Port.Tx.{
  ir_tx_0_pin, port_tx_init, timer_symbol_setup, timer_pwm_setup, port_tx_pwm_timer_set,
}
use transmisor_receptor_ir.Port.Rgb.{port_rgb_init, port_rgb_set_color}
use transmisor_receptor_ir.Port.System.{Cmsis, IsDocumented, nvic_priority_group_4}
use transmisor_receptor_ir.Port.System.Startup.{started, init_started}
use transmisor_receptor_ir.Port.ForTx.{board_tx}
use transmisor_receptor_ir.Port.ForRetina.{board_retina}
use transmisor_receptor_ir.Port.ForMain.{paced_button, paced_rx}

-- The priorities are as they were.
record IsRanked (b c : Board) : Type 0 where
  grouping : c.priority_grouping ≡ b.priority_grouping
  priority : c.priority ≡ b.priority

IsRanked-trans : {b c d : Board} → IsRanked b c → IsRanked c d → IsRanked b d
IsRanked-trans p q = record {
  grouping = q.grouping ∙ p.grouping;
  priority = q.priority ∙ p.priority;
}

serve-IsRanked : (i : Irq) (b : Board) → IsRanked b (serve i b)
unfolding serve store_edge_tick
serve-IsRanked systick b = ground arith
serve-IsRanked tim1_up b = ground arith
serve-IsRanked (exti15_10 pr idr) b = ground arith
serve-IsRanked (exti9_5 pr idr cnt) b = ground arith

serve_all-IsRanked : (is : List Irq) (b : Board) → IsRanked b (serve_all is b)
unfolding serve_all
serve_all-IsRanked [] b = record { grouping = refl; priority = refl }
serve_all-IsRanked (i ∷ is) b =
    IsRanked-trans (serve-IsRanked i b) (serve_all-IsRanked is (serve i b))

poll-IsRanked : (b : Board) → IsRanked b (poll b)
unfolding poll
poll-IsRanked b =
    let r = serve_all-IsRanked (b.arrivals b.accesses) (record b { accesses = b.accesses + 1 }) in
    record { grouping = r.grouping; priority = r.priority }

-- The functions on pins leave them.
gpio_config-IsRanked :
    (p_port pin mode pupd : ℕ) (b : Board)
    → IsRanked b (port_system_gpio_config p_port pin mode pupd b)
unfolding port_system_gpio_config
gpio_config-IsRanked p_port pin mode pupd b = ground arith

gpio_config_alternate-IsRanked :
    (p_port pin alternate : ℕ) (b : Board)
    → IsRanked b (port_system_gpio_config_alternate p_port pin alternate b)
unfolding port_system_gpio_config_alternate
gpio_config_alternate-IsRanked p_port pin alternate b = ground arith

gpio_config_exti-IsRanked :
    (p_port pin mode : ℕ) (b : Board) → IsRanked b (port_system_gpio_config_exti p_port pin mode b)
unfolding port_system_gpio_config_exti exti_route
gpio_config_exti-IsRanked p_port pin mode b = ground arith

rgb_init-IsRanked : (id : ℕ) (b : Board) → IsRanked b (port_rgb_init id b)
unfolding port_rgb_init port_rgb_set_color port_system_gpio_write
rgb_init-IsRanked id b = ground (arith)

-- The initialisations set one priority each.
record Ranks (n : Irqn) (preempt : ℕ) (b c : Board) : Type 0 where
  grouping : c.priority_grouping ≡ b.priority_grouping
  priority : c.priority ≡ (set_priority n preempt 0 b).priority

IsRanked-Ranks :
    {n : Irqn} {preempt : ℕ} {b c d : Board}
    → IsRanked b c
    → d.priority_grouping ≡ c.priority_grouping
    → d.priority ≡ (set_priority n preempt 0 c).priority
    → Ranks n preempt b d
IsRanked-Ranks {n} {preempt} r g p = record {
  grouping = g ∙ r.grouping;
  priority =
      p
      ∙ ap₂ {C = Irqn → Priority}
          (λ (k : ℕ) (f : Irqn → Priority) (m : Irqn).
            if irqn_eq m n then encoded k preempt 0 else f m)
          r.grouping r.priority;
}

port_button_init-Ranks : (id : ℕ) (b : Board) → Ranks exti15_10_irqn 1 b (port_button_init id b)
unfolding port_button_init port_system_gpio_exti_enable get_pin_irqn
port_button_init-Ranks id b =
    let c = port_system_gpio_config gpioc button_0_pin gpio_mode_in gpio_pupdr_nopull b in
    let d = port_system_gpio_config_exti gpioc button_0_pin trigger_both_edge c in
    IsRanked-Ranks
      (IsRanked-trans (gpio_config-IsRanked gpioc button_0_pin gpio_mode_in gpio_pupdr_nopull b) (
        IsRanked-trans (gpio_config_exti-IsRanked gpioc button_0_pin trigger_both_edge c)
          (gpio_config_exti-IsRanked gpioc button_0_pin trigger_enable_interr_req d)))
      refl refl

port_tx_init-Ranks : (b : Board) → Ranks tim1_up_tim10_irqn 1 b (port_tx_init 0 false b)
unfolding port_tx_init timer_symbol_setup timer_pwm_setup port_tx_pwm_timer_set
port_tx_init-Ranks b =
    let c = port_system_gpio_config gpiob ir_tx_0_pin gpio_mode_alternate gpio_pupdr_nopull b in
    IsRanked-Ranks
      (IsRanked-trans
        (gpio_config-IsRanked gpiob ir_tx_0_pin gpio_mode_alternate gpio_pupdr_nopull b)
        (gpio_config_alternate-IsRanked gpiob ir_tx_0_pin 1 c))
      refl refl

port_rx_init-Ranks : (id : ℕ) (b : Board) → Ranks exti9_5_irqn 2 b (port_rx_init id b)
unfolding port_rx_init timer_rx_setup port_system_gpio_exti_enable get_pin_irqn reset_edge_ticks_idx
port_rx_init-Ranks id b =
    let b' = timer_rx_setup b in
    let c = port_system_gpio_config gpiob ir_rx_0_pin gpio_mode_in gpio_pupdr_nopull b' in
    let d = port_system_gpio_config_exti gpiob ir_rx_0_pin trigger_both_edge c in
    let e = port_system_gpio_config_exti gpiob ir_rx_0_pin trigger_enable_interr_req d in
    let r = poll-IsRanked (port_system_gpio_exti_enable ir_rx_0_pin 2 0 e) in
    let p = gpio_config-IsRanked gpiob ir_rx_0_pin gpio_mode_in gpio_pupdr_nopull b' in
    IsRanked-Ranks
      (IsRanked-trans (record { grouping = p.grouping; priority = p.priority })
        (IsRanked-trans (gpio_config_exti-IsRanked gpiob ir_rx_0_pin trigger_both_edge c)
          (gpio_config_exti-IsRanked gpiob ir_rx_0_pin trigger_enable_interr_req d)))
      r.grouping r.priority

-- One initialisation after another.
ranked_all :
    {b₀ b₁ b₂ b₃ b₄ : Board}
    → Ranks exti15_10_irqn 1 b₀ b₁
    → Ranks tim1_up_tim10_irqn 1 b₁ b₂
    → Ranks exti9_5_irqn 2 b₂ b₃
    → IsRanked b₃ b₄
    → (b₄.priority exti15_10_irqn ≡ encoded b₀.priority_grouping 1 0)
      × (b₄.priority tim1_up_tim10_irqn ≡ encoded b₁.priority_grouping 1 0)
      × (b₄.priority exti9_5_irqn ≡ encoded b₂.priority_grouping 2 0)
      × (b₄.priority systick_irqn ≡ b₀.priority systick_irqn)
ranked_all r₁ r₂ r₃ r₄ =
    let at = λ (m : Irqn) (f : Irqn → Priority). f m in
    (
      ap (at exti15_10_irqn) r₄.priority
          ∙ ap (at exti15_10_irqn) r₃.priority
          ∙ ap (at exti15_10_irqn) r₂.priority
          ∙ ap (at exti15_10_irqn) r₁.priority,
      ap (at tim1_up_tim10_irqn) r₄.priority
          ∙ ap (at tim1_up_tim10_irqn) r₃.priority
          ∙ ap (at tim1_up_tim10_irqn) r₂.priority,
      ap (at exti9_5_irqn) r₄.priority ∙ ap (at exti9_5_irqn) r₃.priority,
      ap (at systick_irqn) r₄.priority
          ∙ ap (at systick_irqn) r₃.priority
          ∙ ap (at systick_irqn) r₂.priority
          ∙ ap (at systick_irqn) r₁.priority,
    )

module _ (until : ℕ → ℕ) (period : ℕ) (cmsis : Cmsis) (fuel : ℕ)
    (malloc : ℕ → Option FsmRxNec) where
  started_board :
      (memory : Memory) (b : Board) (s : System Board)
      → IsDocumented cmsis
      → main_start until period cmsis fuel malloc memory b ≡ some s
      → (doc : IsDocumented cmsis) × (s.board
          ≡ port_rgb_init 0
              (port_rx_init 0 (port_tx_init 0 false (port_button_init 0 (started cmsis doc b)))))
  unfolding main_start
  started_board memory b s doc e = (
    doc,
    (main_init-parts ⦃button_port = paced_button until period⦄ ⦃tx_port = board_tx until period⦄
        ⦃rx_port = paced_rx until period⦄ ⦃retina_port = board_retina⦄ fuel malloc memory
        (started cmsis doc b) s (sym (rw (init_started cmsis doc b) refl) ∙ e)).0,
  )

  -- Where CMSIS is as documented, the start gives the interrupts of the button and of the symbol
  -- timer the priority 1, that of the receiver 2, each with all four bits for the pre-emption, and
  -- leaves SysTick the lowest one, 15: the set-up of its counter takes back the 0 that it had.
  pub start_priorities :
      (memory : Memory) (b : Board) (s : System Board)
      → IsDocumented cmsis
      → main_start until period cmsis fuel malloc memory b ≡ some s
      → (s.board.priority exti15_10_irqn ≡ encoded nvic_priority_group_4 1 0)
        × (s.board.priority tim1_up_tim10_irqn ≡ encoded nvic_priority_group_4 1 0)
        × (s.board.priority exti9_5_irqn ≡ encoded nvic_priority_group_4 2 0)
        × (s.board.priority systick_irqn ≡ plain 15)
  unfolding started
  start_priorities memory b s doc e =
      let (doc', same) = started_board memory b s doc e in
      let b₀ = started cmsis doc' b in
      let b₁ = port_button_init 0 b₀ in
      let b₂ = port_tx_init 0 false b₁ in
      let b₃ = port_rx_init 0 b₂ in
      let r₁ = port_button_init-Ranks 0 b₀ in
      let r₂ = port_tx_init-Ranks b₁ in
      let r₃ = port_rx_init-Ranks 0 b₂ in
      let (button, symbol, receiver, clock) = ranked_all r₁ r₂ r₃ (rgb_init-IsRanked 0 b₃) in
      let at = λ (m : Irqn). ap (λ (c : Board). c.priority m) same in
      let level = λ (preempt grouping : ℕ). encoded grouping preempt 0 in
      (
        at exti15_10_irqn ∙ button,
        at tim1_up_tim10_irqn ∙ symbol ∙ ap (level 1) r₁.grouping,
        at exti9_5_irqn ∙ receiver ∙ ap (level 2) (r₂.grouping ∙ r₁.grouping),
        at systick_irqn ∙ clock,
      )
