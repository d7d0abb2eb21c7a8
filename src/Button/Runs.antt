-- ===== src/Button/Runs.antt =====
-- The button's machine among the program's other parts (common/src/fsm_button.c, and the calls of
-- it in common/src/retina.c and common/src/fsm_retina.c).
use transmisor_receptor_ir.Common.{
  ℕ, ◌+◌, ◌≤◌, ◌<◌, ◌^◌, ◌≡◌, ◌⊎◌, some, none, some_of_ne_none, arith, refl,
}
use transmisor_receptor_ir.Button.Port.{ButtonPort}
use transmisor_receptor_ir.Button.{
  ButtonOn, button_fire, fsm_button_init, fsm_button_reset_duration, fsm_button_get_duration,
}
use transmisor_receptor_ir.Button.Debounce.{IsTimed, button_fire-IsTimed}

module _ {B : Type 0} ⦃port : ButtonPort B⦄ where
  button_fire-ne-none : (s : ButtonOn B) → button_fire s ≡ none → ⊥
  unfolding button_fire
  button_fire-ne-none s e = ground arith

  -- `fsm_fire` never goes wrong on the button's table.
  pub button_fire_total : (s : ButtonOn B) → (t : ButtonOn B) × (button_fire s ≡ some t)
  button_fire_total s = some_of_ne_none (button_fire s) (button_fire-ne-none s)

  -- What can happen to the machine and its board.
  pub data Runs (s : ButtonOn B) : ButtonOn B → Type 0 where
    start : Runs s s
    fire : {t u : ButtonOn B} → Runs s t → button_fire t ≡ some u → Runs s u
    reset :
        {t : ButtonOn B} → Runs s t → Runs s (record t { fsm = fsm_button_reset_duration t.fsm })
    -- Other parts of the program use the board, and interrupts are taken.
    others :
        {t : ButtonOn B} (b : B)
        → Runs s t
        → port.IsBoard b
        → port.elapsed t.board ≤ port.elapsed b
        → Runs s (record t { board = b })

  -- A call leaves a board that can occur.
  pub button_fire-IsBoard :
      (s t : ButtonOn B) → port.IsBoard s.board → button_fire s ≡ some t → port.IsBoard t.board
  unfolding button_fire
  button_fire-IsBoard s t v e = grind (arith, port.is_pressed-IsBoard, port.get_tick-IsBoard)

  button_fire-debounce_time :
      (s t : ButtonOn B) → button_fire s ≡ some t → t.fsm.debounce_time ≡ s.fsm.debounce_time
  unfolding button_fire
  button_fire-debounce_time s t e = ground arith

  pub button_fire-elapsed :
      (s t : ButtonOn B) → button_fire s ≡ some t → port.elapsed s.board ≤ port.elapsed t.board
  unfolding button_fire
  button_fire-elapsed s t e = grind (arith, port.elapsed-le-get_tick, port.elapsed-le-is_pressed)

  Runs-IsTimed :
      {s t : ButtonOn B}
      → IsTimed s
      → Runs s t
      → port.elapsed t.board + s.fsm.debounce_time < 2 ^ 32
      → IsTimed t × (t.fsm.debounce_time ≡ s.fsm.debounce_time)
  unfolding fsm_button_reset_duration
  Runs-IsTimed i start early = (i, refl)
  Runs-IsTimed i (fire {t} {u} r e) early =
      let (j, same) = Runs-IsTimed i r (omega (arith, button_fire-elapsed t u e)) in
      (button_fire-IsTimed t u j e (rw same early), ground (arith, button_fire-debounce_time t u e))
  Runs-IsTimed i (reset {t} r) early =
      let (j, same) = Runs-IsTimed i r early in
      (
        record {
          on_board = j.on_board;
          waiting = j.waiting;
          pressed = j.pressed;
          reported = ground arith;
        },
        same,
      )
  Runs-IsTimed i (others {t} b r v later) early =
      let (j, same) = Runs-IsTimed i r (omega arith) in (ground arith, same)

  fsm_button_init-IsTimed :
      (debounce_time button_id : ℕ) (s t : ButtonOn B)
      → port.IsBoard s.board
      → fsm_button_init debounce_time button_id s ≡ some t
      → IsTimed t × (t.fsm.debounce_time ≡ debounce_time)
  unfolding fsm_button_init
  fsm_button_init-IsTimed debounce_time button_id s t v e =
      ground (arith, port.init-IsBoard button_id s.board)

  -- From the initialisation on, whatever happens on the board and however often the machine is fired
  -- and its duration is reset, a duration is 0 or longer than the debounce time, as long as the clock
  -- and the debounce time together stay within 32 bits.
  pub duration-gt-debounce_time :
      (debounce_time button_id : ℕ) (s t u : ButtonOn B)
      → port.IsBoard s.board
      → fsm_button_init debounce_time button_id s ≡ some t
      → Runs t u
      → port.elapsed u.board + debounce_time < 2 ^ 32
      → let d = fsm_button_get_duration u.fsm in (d ≡ 0) ⊎ (debounce_time < d)
  unfolding fsm_button_get_duration
  duration-gt-debounce_time debounce_time button_id s t u v e r early =
      let (i, same) = fsm_button_init-IsTimed debounce_time button_id s t v e in
      let (j, same') = Runs-IsTimed i r (rw same early) in ground (arith, j.reported)
