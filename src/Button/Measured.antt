-- ===== src/Button/Measured.antt =====
-- How long a whole press is reported to be (common/src/fsm_button.c), whenever the machine is fired
-- during it, and wherever the 32-bit clock wraps.
use transmisor_receptor_ir.Common.{
  ℕ, ◌+◌, ◌-◌, ◌≤◌, ◌<◌, ◌^◌, ◌≡◌, ◌⊎◌, refl, ◌∙◌, some, arith, u32, sub32,
}
use transmisor_receptor_ir.Button.Port.{ButtonPort}
use transmisor_receptor_ir.Button.{
  ButtonOn, button_fire, button_released, button_released_wait, button_pressed, button_pressed_wait,
  fsm_button_reset_duration, fsm_button_get_duration,
}
use transmisor_receptor_ir.Button.Runs.{button_fire-IsBoard, button_fire-elapsed}

-- A tick is the clock at some time between two.
record IsStamped (from to tick : ℕ) : Type 0 where
  time : ℕ
  after : from ≤ time
  before : time ≤ to
  stamp : tick ≡ u32 time

module _ {B : Type 0} ⦃port : ButtonPort B⦄ where
  abbrev pub IsDown : ButtonOn B → Type 0
  IsDown s = (s.fsm.current_state ≡ button_released_wait) ⊎ (s.fsm.current_state ≡ button_pressed)

  -- What can happen while a press goes on: calls that leave the machine in the press, resets of the
  -- duration, and the rest of the program.
  pub data Presses (s : ButtonOn B) : ButtonOn B → Type 0 where
    seen : IsDown s → Presses s s
    fire : {t u : ButtonOn B} → Presses s t → button_fire t ≡ some u → IsDown u → Presses s u
    reset :
        {t : ButtonOn B}
        → Presses s t
        → Presses s (record t { fsm = fsm_button_reset_duration t.fsm })
    others :
        {t : ButtonOn B} (b : B)
        → Presses s t
        → port.IsBoard b
        → port.elapsed t.board ≤ port.elapsed b
        → Presses s (record t { board = b })

  press-IsStamped :
      (s t : ButtonOn B)
      → port.IsBoard s.board
      → s.fsm.current_state ≡ button_released
      → button_fire s ≡ some t
      → t.fsm.current_state ≡ button_released_wait
      → IsStamped (port.elapsed s.board) (port.elapsed t.board) t.fsm.tick_pressed
  unfolding button_fire
  press-IsStamped s t v q e w =
      let id = s.fsm.button_id in
      let b = (port.is_pressed id s.board).1 in
      let c = (port.get_tick b).1 in
      let vb = port.is_pressed-IsBoard id s.board v in
      record {
        time = port.elapsed c;
        after = omega (arith, port.elapsed-le-is_pressed id s.board, port.elapsed-le-get_tick b);
        before = ground (arith, port.elapsed-le-get_tick c);
        stamp = ground (arith, port.get_tick-eq-elapsed b vb);
      }

  release-IsStamped :
      (s t : ButtonOn B)
      → port.IsBoard s.board
      → s.fsm.current_state ≡ button_pressed
      → button_fire s ≡ some t
      → t.fsm.current_state ≡ button_pressed_wait
      → (tick : ℕ) × IsStamped (port.elapsed s.board) (port.elapsed t.board) tick
        × (t.fsm.duration ≡ sub32 tick s.fsm.tick_pressed)
  unfolding button_fire
  release-IsStamped s t v q e w =
      let id = s.fsm.button_id in
      let b = (port.is_pressed id s.board).1 in
      let c = (port.get_tick b).1 in
      let vb = port.is_pressed-IsBoard id s.board v in
      (
        (port.get_tick b).0,
        record {
          time = port.elapsed c;
          after = omega (arith, port.elapsed-le-is_pressed id s.board, port.elapsed-le-get_tick b);
          before = ground (arith, port.elapsed-le-get_tick c);
          stamp = port.get_tick-eq-elapsed b vb;
        },
        ground arith,
      )

  down_fire :
      (s t : ButtonOn B)
      → IsDown s
      → button_fire s ≡ some t
      → IsDown t
      → t.fsm.tick_pressed ≡ s.fsm.tick_pressed
  unfolding button_fire
  down_fire s t d e d' = ground arith

  Presses-IsDown : {s t : ButtonOn B} → Presses s t → IsDown t
  unfolding fsm_button_reset_duration
  Presses-IsDown (seen d) = d
  Presses-IsDown (fire p e d) = d
  Presses-IsDown (reset p) = Presses-IsDown p
  Presses-IsDown (others b p v later) = Presses-IsDown p

  -- While the press goes on, its tick is kept, and time does not run back.
  Presses-kept :
      {s t : ButtonOn B}
      → port.IsBoard s.board
      → Presses s t
      → (t.fsm.tick_pressed ≡ s.fsm.tick_pressed)
        × port.IsBoard t.board
        × (port.elapsed s.board ≤ port.elapsed t.board)
  unfolding fsm_button_reset_duration
  Presses-kept v (seen d) = (refl, v, omega arith)
  Presses-kept v (fire {t} {u} p e d) =
      let (same, w, later) = Presses-kept v p in
      (
        down_fire t u (Presses-IsDown p) e d ∙ same,
        button_fire-IsBoard t u w e,
        omega (arith, button_fire-elapsed t u e),
      )
  Presses-kept v (reset p) = Presses-kept v p
  Presses-kept v (others b p w later) =
      let (same, _, later') = Presses-kept v p in (same, w, omega arith)

  -- A press that is seen by the call from `s` to `t`, and whose end is seen by the call from `u` to
  -- `v`, is reported to last as long as the time between these calls, with at most the time that
  -- they take themselves: however often the machine is fired in between, wherever the clock wraps,
  -- and as long as the press is shorter than 2^32 ms.
  pub press_measured :
      (s t u v : ButtonOn B)
      → port.IsBoard s.board
      → s.fsm.current_state ≡ button_released
      → button_fire s ≡ some t
      → t.fsm.current_state ≡ button_released_wait
      → Presses t u
      → u.fsm.current_state ≡ button_pressed
      → button_fire u ≡ some v
      → v.fsm.current_state ≡ button_pressed_wait
      → port.elapsed v.board < port.elapsed s.board + 2 ^ 32
      → let d = fsm_button_get_duration v.fsm in
        (port.elapsed u.board ≤ port.elapsed t.board + d)
        × (port.elapsed s.board + d ≤ port.elapsed v.board)
  unfolding fsm_button_get_duration
  press_measured s t u v b q e w p q' e' w' short =
      let down = press-IsStamped s t b q e w in
      let bt = button_fire-IsBoard s t b e in
      let (same, bu, later) = Presses-kept bt p in
      let (tick, up, d) = release-IsStamped u v bu q' e' w' in
      let from = button_fire-elapsed s t e in
      let to = button_fire-elapsed u v e' in
      let down_tick : u.fsm.tick_pressed ≡ u32 down.time = same ∙ down.stamp in
      let lasted : v.fsm.duration ≡ up.time - down.time = omega (arith, up.stamp) in
      (
        omega (arith, up.after, up.before, down.after, down.before),
        omega (arith, up.after, up.before, down.after, down.before),
      )
