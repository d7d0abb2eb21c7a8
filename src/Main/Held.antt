-- ===== src/Main/Held.antt =====
-- The program while the button is held: rounds of the endless loop of common/src/retina.c on the board
-- of port/nucleo_stm32f446re/src, from one that sees a press to the call that sees its end.
use mathlib.Core.Option.{some-injective}
use transmisor_receptor_ir.Common.{
  ℕ, ◌+◌, ◌≤◌, ◌<◌, ◌^◌, ◌≡◌, ◌≢◌, ◌⊎◌, inl, inr, refl, sym, ap, ◌∙◌, subst, true, Option, some,
  none, arith,
}
use transmisor_receptor_ir.Nec.{FsmRxNec}
use transmisor_receptor_ir.Button.Port.{ButtonPort}
use transmisor_receptor_ir.Button.{
  ButtonOn, FsmButton, button_fire, button_released, button_released_wait, button_pressed,
  button_pressed_wait, fsm_button_get_duration, fsm_button_check_activity,
}
use transmisor_receptor_ir.Button.Measured.{Presses, seen, fire, others, press_measured}
use transmisor_receptor_ir.Ticker.{reads_for}
use transmisor_receptor_ir.Retina.Port.{RetinaPort}
use transmisor_receptor_ir.Retina.{System, retina_fire, is_active, wait_tx, sleep_tx}
use transmisor_receptor_ir.Main.Board.{IsGoingOn, board_round, board_stages, board_round_total}
use transmisor_receptor_ir.Main.Hearing.{IsTuned, main_round-IsTuned}
use transmisor_receptor_ir.Main.Later.{rest-IsLater}
use transmisor_receptor_ir.Port.State.{Board}
use transmisor_receptor_ir.Port.ForRetina.{board_retina}
use transmisor_receptor_ir.Port.ForMain.{paced_button}

-- The button's machine with the board that it runs on.
abbrev pub button_of : {B : Type 0} → System B → ButtonOn B
button_of s = record { fsm = s.button; board = s.board }

-- A machine that has seen a press and not its end.
abbrev pub IsHeld : FsmButton → Type 0
IsHeld f = (f.current_state ≡ button_released_wait) ⊎ (f.current_state ≡ button_pressed)

IsHeld-is_active : {B : Type 0} (s : System B) → IsHeld s.button → is_active s ≡ true
unfolding is_active fsm_button_check_activity
IsHeld-is_active s h = ground arith

-- What a round leaves while the button is held.
record IsKept {B : Type 0} (s t : System B) : Type 0 where
  mode : t.retina.current_state ≡ wait_tx
  button : t.button ≡ s.button
  board : t.board ≡ s.board
  index : t.retina.tx_codes_index ≡ s.retina.tx_codes_index
  long : t.retina.long_button_press_ms ≡ s.retina.long_button_press_ms

module _ {B : Type 0} ⦃port : RetinaPort B⦄ where
  held_rests :
      (s t : System B)
      → (s.retina.current_state ≡ wait_tx) ⊎ (s.retina.current_state ≡ sleep_tx)
      → s.button.duration ≡ 0
      → IsHeld s.button
      → retina_fire s ≡ some t
      → IsKept s t
  unfolding retina_fire is_active fsm_button_get_duration
  held_rests s t q z h e =
      let busy = IsHeld-is_active s h in elim q [ inl q ↦ ground arith | inr q ↦ ground arith ]

module _ {B : Type 0} ⦃port : ButtonPort B⦄ where
  -- Until the press ends, the duration stays as it is.
  held_fire :
      (s t : ButtonOn B) → button_fire s ≡ some t → IsHeld t.fsm → t.fsm.duration ≡ s.fsm.duration
  unfolding button_fire
  held_fire s t e h = ground arith

  -- The first look at a press, and the last one before its end.
  first_look :
      (s t : ButtonOn B)
      → s.fsm.current_state ≡ button_released
      → button_fire s ≡ some t
      → IsHeld t.fsm
      → t.fsm.current_state ≡ button_released_wait
  unfolding button_fire
  first_look s t q e h = ground arith

  last_look :
      (s t : ButtonOn B)
      → IsHeld s.fsm
      → button_fire s ≡ some t
      → t.fsm.current_state ≡ button_pressed_wait
      → s.fsm.current_state ≡ button_pressed
  unfolding button_fire
  last_look s t h e w = ground arith

module _ {B : Type 0} ⦃port : RetinaPort B⦄ where
  retina_fire-button :
      (s t : System B) → retina_fire s ≡ some t → t.button.current_state ≡ s.button.current_state
  unfolding retina_fire
  retina_fire-button s t e = ground arith

module _ (until : ℕ → ℕ) (period : ℕ) (fuel : ℕ) (malloc : ℕ → Option FsmRxNec) where
  -- Rounds of the loop while the button's machine has seen a press and not its end.
  pub data Holds (s : System Board) : System Board → Type 0 where
    held : IsHeld s.button → Holds s s
    round :
        {t u : System Board}
        → Holds s t
        → board_round until period fuel malloc t ≡ some u
        → IsHeld u.button
        → Holds s u

  Holds-IsHeld : {s t : System Board} → Holds s t → IsHeld s.button × IsHeld t.button
  Holds-IsHeld (held h) = (h, h)
  Holds-IsHeld (round r e h) = ((Holds-IsHeld r).0, h)

  pub Holds-IsTuned : (s t : System Board) → Holds s t → IsTuned s → IsTuned t
  Holds-IsTuned s t (held h) i = i
  Holds-IsTuned s t (round {t = v} r e h) i =
      main_round-IsTuned until period fuel malloc v t (Holds-IsTuned s v r i) e

  -- How the program stands in such a round, in the sending mode since `s`.
  pub record IsHolding (s u : System Board) : Type 0 where
    pub mode : (u.retina.current_state ≡ wait_tx) ⊎ (u.retina.current_state ≡ sleep_tx)
    pub quiet : u.button.duration ≡ 0
    pub going : IsGoingOn until period u
    pub index : u.retina.tx_codes_index ≡ s.retina.tx_codes_index
    pub long : u.retina.long_button_press_ms ≡ s.retina.long_button_press_ms

  -- What such a round comes to.
  record IsHeldRound (s t u : System Board) : Type 0 where
    button : ButtonOn Board
    fires : button_fire ⦃port = paced_button until period⦄ (button_of t) ≡ some button
    same : u.button ≡ button.fsm
    later : button.board.systicks ≤ u.board.systicks
    awake : u.retina.current_state ≡ wait_tx
    holding : IsHolding s u

  module _ (enough : reads_for period 3570 ≤ fuel) (never_null : (k : ℕ) → malloc k ≢ none) where
    round-IsGoingOn :
        (s t : System Board)
        → IsGoingOn until period s
        → board_round until period fuel malloc s ≡ some t
        → IsGoingOn until period t
    round-IsGoingOn s t i e =
        let (t', e', j) = board_round_total until period fuel malloc enough never_null s i in
        subst (IsGoingOn until period) (some-injective _ _ (sym e' ∙ e)) j

    held_round :
        (s t u : System Board)
        → IsHolding s t
        → board_round until period fuel malloc t ≡ some u
        → IsHeld u.button
        → IsHeldRound s t u
    held_round s t u i e h =
        let g = board_stages until period fuel malloc t u e in
        let state = retina_fire-button ⦃port = board_retina⦄ _ u g.retina_fires in
        let pressed : IsHeld g.button.fsm = elim h [
          | inl q ↦ inl (sym state ∙ q)
          | inr q ↦ inr (sym state ∙ q)
        ] in
        let quiet =
          held_fire ⦃port = paced_button until period⦄ _ g.button g.button_fires pressed
          ∙ i.quiet in
        let k = held_rests ⦃port = board_retina⦄ _ u i.mode quiet pressed g.retina_fires in
        let late = rest-IsLater until period fuel malloc t u g in
        record {
          button = g.button;
          fires = g.button_fires;
          same = k.button;
          later = omega (arith, late.time, ap (λ (c : Board). c.systicks) k.board);
          awake = k.mode;
          holding = record {
            mode = inl k.mode;
            quiet = ap (λ (f : FsmButton). f.duration) k.button ∙ quiet;
            going = round-IsGoingOn t u i.going e;
            index = k.index ∙ i.index;
            long = k.long ∙ i.long;
          };
        }

    -- The rest of a round, as the button's machine sees it.
    rest_of_press :
        (s t u : System Board) (b : ButtonOn Board) (r : IsHeldRound s t u)
        → Presses ⦃port = paced_button until period⦄ b r.button
        → Presses ⦃port = paced_button until period⦄ b (button_of u)
    rest_of_press s t u b r p =
        subst
          (λ (f : FsmButton).
            Presses ⦃port = paced_button until period⦄ b (record { fsm = f; board = u.board }))
          (sym r.same) (others u.board p r.holding.going.on_board r.later)

    -- The rounds, as it sees them.
    Holds-Presses :
        (s t u : System Board) (r : IsHeldRound s s t)
        → Holds t u
        → Presses ⦃port = paced_button until period⦄ r.button (button_of u)
          × (u.retina.current_state ≡ wait_tx)
          × IsHolding s u
    Holds-Presses s t u r (held h) =
        (rest_of_press s s t r.button r (seen (subst IsHeld r.same h)), r.awake, r.holding)
    Holds-Presses s t u r (round {t = v} p e h) =
        let (q, _, i) = Holds-Presses s t v r p in
        let l = held_round s v u i e h in
        (
          rest_of_press s v u r.button l (fire q l.fires (subst IsHeld l.same h)),
          l.awake,
          l.holding,
        )

    -- A press, from the round that sees it to the call that sees its end: how the program stands
    -- before that call, and what is measured.
    pub press_timed :
        (s t u : System Board) (b : ButtonOn Board)
        → IsGoingOn until period s
        → (s.retina.current_state ≡ wait_tx) ⊎ (s.retina.current_state ≡ sleep_tx)
        → s.button.current_state ≡ button_released
        → s.button.duration ≡ 0
        → board_round until period fuel malloc s ≡ some t
        → Holds t u
        → button_fire ⦃port = paced_button until period⦄ (button_of u) ≡ some b
        → b.fsm.current_state ≡ button_pressed_wait
        → b.board.systicks < s.board.systicks + 2 ^ 32
        → (u.retina.current_state ≡ wait_tx)
          × IsHolding s u
          × (u.board.systicks ≤ t.board.systicks + fsm_button_get_duration b.fsm)
          × (s.board.systicks + fsm_button_get_duration b.fsm ≤ b.board.systicks)
    press_timed s t u b i mode up quiet e r f down soon =
        let (first, last) = Holds-IsHeld r in
        let start : IsHolding s s = record {
          mode = mode;
          quiet = quiet;
          going = i;
          index = refl;
          long = refl;
        } in
        let h = held_round s s t start e first in
        let (p, awake, j) = Holds-Presses s t u h r in
        let look =
          first_look ⦃port = paced_button until period⦄ _ h.button up h.fires
            (subst IsHeld h.same first) in
        let looked = last_look ⦃port = paced_button until period⦄ _ b last f down in
        let (lower, upper) =
          press_measured ⦃port = paced_button until period⦄ (button_of s) h.button (button_of u) b
            i.on_board up h.fires look p looked f down soon in
        (awake, j, omega (arith, lower, h.later), upper)
