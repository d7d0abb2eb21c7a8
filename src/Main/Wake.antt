-- ===== src/Main/Wake.antt =====
-- From an interrupt of the button's pin to a machine that is awake, in one round of the endless
-- loop: common/src on the board of port/nucleo_stm32f446re/src.
use transmisor_receptor_ir.Common.{
  ℕ, ◌+◌, ◌≤◌, ◌≡◌, ◌≢◌, ◌⊎◌, ◌∙◌, ap, true, Option, some, none, [], ◌∷◌, arith, bit_at,
}
use transmisor_receptor_ir.Nec.{FsmRxNec}
use transmisor_receptor_ir.Button.Port.{ButtonPort}
use transmisor_receptor_ir.Button.{
  ButtonOn, button_fire, button_released, button_released_wait, fsm_button_check_activity,
}
use transmisor_receptor_ir.Ticker.{reads_for}
use transmisor_receptor_ir.Retina.{System, wait_tx, wait_rx, sleep_tx, sleep_rx, is_active}
use transmisor_receptor_ir.Retina.Modes.{IsAsleep, active_wakes}
use transmisor_receptor_ir.Main.Board.{IsGoingOn, board_round, board_stages, board_round_total}
use transmisor_receptor_ir.Port.State.{Board, exti15_10, exti15_10_irqn}
use transmisor_receptor_ir.Port.Gpio.{port_system_gpio_read}
use transmisor_receptor_ir.Port.Masks.{bit_and-mask}
use transmisor_receptor_ir.Port.Handlers.{button_0_pin}
use transmisor_receptor_ir.Port.Interrupts.{poll, serve, serve_all}
use transmisor_receptor_ir.Port.Power.{port_system_systick_resume}
use transmisor_receptor_ir.Port.Button.{port_button_is_pressed}
use transmisor_receptor_ir.Port.ForRetina.{board_retina}
use transmisor_receptor_ir.Port.ForMain.{paced_button}

-- The next interrupt that is served is one of the button's pin, whose line is on and whose level is
-- low.
pub record IsPressedNext (b : Board) : Type 0 where
  pub pr : ℕ
  pub idr : ℕ
  pub arrives : b.arrivals b.accesses ≡ exti15_10 pr idr ∷ []
  pub on : b.irq_on exti15_10_irqn ≡ true
  pub pending : bit_at button_0_pin pr ≡ 1
  pub low : bit_at button_0_pin idr ≡ 0

press_served :
    (pr idr : ℕ) (b : Board)
    → b.irq_on exti15_10_irqn ≡ true
    → bit_at button_0_pin pr ≡ 1
    → bit_at button_0_pin idr ≡ 0
    → (serve_all (exti15_10 pr idr ∷ []) b).flag_pressed ≡ true
unfolding serve_all serve port_system_gpio_read port_system_systick_resume
press_served pr idr b on pending low =
    ground (
      arith,
      bit_and-mask pr button_0_pin (omega arith),
      bit_and-mask idr button_0_pin (omega arith),
    )

press_seen : (id : ℕ) (b : Board) → IsPressedNext b → (port_button_is_pressed id b).0 ≡ true
unfolding port_button_is_pressed poll
press_seen id b n =
    ap (λ is. (serve_all is (record b { accesses = b.accesses + 1 })).flag_pressed) n.arrives
    ∙ press_served n.pr n.idr (record b { accesses = b.accesses + 1 }) n.on n.pending n.low

module _ {B : Type 0} ⦃port : ButtonPort B⦄ where
  -- A press takes the button's machine out of its resting state.
  pressed_fire :
      (s t : ButtonOn B)
      → s.fsm.current_state ≡ button_released
      → (port.is_pressed s.fsm.button_id s.board).0 ≡ true
      → button_fire s ≡ some t
      → t.fsm.current_state ≡ button_released_wait
  unfolding button_fire
  pressed_fire s t q p e = ground arith

waiting-is_active :
    {B : Type 0} (s : System B) → s.button.current_state ≡ button_released_wait → is_active s ≡ true
unfolding is_active fsm_button_check_activity
waiting-is_active s q = ground arith

module _ (until : ℕ → ℕ) (period : ℕ) (fuel : ℕ) (malloc : ℕ → Option FsmRxNec) where
  -- While the program runs as it should, asleep and with the button's machine at rest, the waits may
  -- read the tick often enough and `malloc` never gives NULL: where an interrupt of the button's
  -- pin, with its line on, its bit pending and its level low, is the next to be served, the round of
  -- the loop returns, the button's machine has seen the press, and the governing machine is awake in
  -- the mode in which it fell asleep.
  pub press_wakes :
      (s : System Board)
      → reads_for period 3570 ≤ fuel
      → ((k : ℕ) → malloc k ≢ none)
      → IsGoingOn until period s
      → IsAsleep s
      → s.button.current_state ≡ button_released
      → IsPressedNext s.board
      → (t : System Board) × (board_round until period fuel malloc s ≡ some t)
        × (t.button.current_state ≡ button_released_wait)
        × ((s.retina.current_state ≡ sleep_tx) × (t.retina.current_state ≡ wait_tx)
            ⊎ (s.retina.current_state ≡ sleep_rx) × (t.retina.current_state ≡ wait_rx))
  press_wakes s enough never_null i asleep q n =
      let (t, e, _) = board_round_total until period fuel malloc enough never_null s i in
      let g = board_stages until period fuel malloc s t e in
      let w =
        pressed_fire ⦃port = paced_button until period⦄ _ g.button q
          (press_seen s.button.button_id s.board n) g.button_fires in
      let (_, button, _, _, woken) =
        active_wakes ⦃port = board_retina⦄ _ t asleep (waiting-is_active _ w) g.retina_fires in
      (t, e, ap (λ f. f.current_state) button ∙ w, woken)
