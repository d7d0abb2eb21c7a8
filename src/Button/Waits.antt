-- ===== src/Button/Waits.antt =====
-- What the button's machine does while it waits out the bouncing (common/src/fsm_button.c).
use transmisor_receptor_ir.Common.{
  ℕ, zero, suc, ◌+◌, ◌-◌, ◌<◌, ◌^◌, ◌≡◌, true, false, Option, some, arith, refl, u32, sub32, ◌>>=◌,
}
use transmisor_receptor_ir.Button.Port.{ButtonPort}
use transmisor_receptor_ir.Button.Debounce.{IsTimed}
use transmisor_receptor_ir.Button.{
  ButtonOn, button_fire, button_released, button_released_wait, button_pressed, button_pressed_wait,
}

module _ {B : Type 0} ⦃port : ButtonPort B⦄ where
  abbrev pub fires : ℕ → ButtonOn B → Option (ButtonOn B)
  fires zero s = some s
  fires (suc n) s = button_fire s >>= λ t. fires n t

  -- When the time of the bouncing is over, `button_released_wait` is followed by `button_pressed`,
  -- whether the button is still down or not: the machine does not look at it.
  wait_ignores_button :
      (s : ButtonOn B)
      → s.fsm.current_state ≡ button_released_wait
      → s.fsm.next_timeout < (port.get_tick s.board).0
      → button_fire s
        ≡ some (record {
          fsm = record (s.fsm) { current_state = button_pressed };
          board = (port.get_tick s.board).1;
        })
  unfolding button_fire
  wait_ignores_button s q late = ground arith

  stuck_fire :
      (s : ButtonOn B)
      → port.IsBoard s.board
      → s.fsm.current_state ≡ button_released_wait
      → s.fsm.next_timeout ≡ 2 ^ 32 - 1
      → button_fire s ≡ some (record s { board = (port.get_tick s.board).1 })
  unfolding button_fire
  stuck_fire s v q last = ground (arith, port.get_tick-eq-elapsed s.board v)

  stuck_fires :
      (n : ℕ) (s : ButtonOn B)
      → port.IsBoard s.board
      → s.fsm.current_state ≡ button_released_wait
      → s.fsm.next_timeout ≡ 2 ^ 32 - 1
      → (t : ButtonOn B) × (fires n s ≡ some t) × (t.fsm.current_state ≡ button_released_wait)
  stuck_fires zero s v q last = (s, refl, q)
  stuck_fires (suc n) s v q last = rw (stuck_fire s v q last) (
      stuck_fires n (record s { board = (port.get_tick s.board).1 })
        (port.get_tick-IsBoard s.board v) q last)

  -- The board after the look at the button that finds it pressed, and the two reads of the clock.
  abbrev first_read : ButtonOn B → B
  first_read s = (port.get_tick (port.is_pressed s.fsm.button_id s.board).1).1

  press_fire :
      (s : ButtonOn B)
      → s.fsm.current_state ≡ button_released
      → (port.is_pressed s.fsm.button_id s.board).0 ≡ true
      → button_fire s
        ≡ some (record {
          fsm = record (s.fsm) {
            current_state = button_released_wait;
            tick_pressed = (port.get_tick (port.is_pressed s.fsm.button_id s.board).1).0;
            next_timeout = u32 ((port.get_tick (first_read s)).0 + s.fsm.debounce_time);
          };
          board = (port.get_tick (first_read s)).1;
        })
  unfolding button_fire
  press_fire s q p = ground arith

  -- A press that is found when the clock, with the debounce time added, stands at its largest
  -- value leaves the machine in `button_released_wait` for ever, however often it is fired.
  pub press_at_wrap_sticks :
      (n : ℕ) (s : ButtonOn B)
      → port.IsBoard s.board
      → s.fsm.current_state ≡ button_released
      → (port.is_pressed s.fsm.button_id s.board).0 ≡ true
      → u32 ((port.get_tick (first_read s)).0 + s.fsm.debounce_time) ≡ 2 ^ 32 - 1
      → (t : ButtonOn B) × (fires (suc n) s ≡ some t) × (t.fsm.current_state ≡ button_released_wait)
  press_at_wrap_sticks n s v q p wrap = rw (press_fire s q p) (
      stuck_fires n _
        (port.get_tick-IsBoard (first_read s)
          (port.get_tick-IsBoard _ (port.is_pressed-IsBoard s.fsm.button_id s.board v)))
        refl wrap)

  released_fire :
      (s : ButtonOn B)
      → s.fsm.current_state ≡ button_pressed
      → (port.is_pressed s.fsm.button_id s.board).0 ≡ false
      → (t : ButtonOn B) × (button_fire s ≡ some t)
        × (t.fsm.duration
            ≡ sub32
                (port.get_tick (port.is_pressed s.fsm.button_id s.board).1).0
                s.fsm.tick_pressed)
  unfolding button_fire
  released_fire s q up = (
    let b = (port.is_pressed s.fsm.button_id s.board).1 in
        let (tick, b') = port.get_tick b in
        let (tick', b'') = port.get_tick b' in
        record {
          fsm = record (s.fsm) {
            current_state = button_pressed_wait;
            duration = sub32 tick s.fsm.tick_pressed;
            next_timeout = u32 (tick' + s.fsm.debounce_time);
          };
          board = b'';
        },
    ground arith,
    ground arith,
  )

  -- A button that is found up as soon as the bouncing is waited out, so that it may have been down
  -- at one look only, is reported like a press: for longer than the debounce time, if the clock
  -- has not wrapped.
  pub short_press_reported :
      (s : ButtonOn B)
      → IsTimed s
      → s.fsm.current_state ≡ button_released_wait
      → s.fsm.next_timeout < (port.get_tick s.board).0
      → let (up, b) = port.is_pressed s.fsm.button_id (port.get_tick s.board).1 in
        up ≡ false
        → port.elapsed (port.get_tick b).1 < 2 ^ 32
        → (t : ButtonOn B) × (fires 2 s ≡ some t) × (s.fsm.debounce_time < t.fsm.duration)
  short_press_reported s i q late up early =
      let b = (port.get_tick s.board).1 in
      let b' = (port.is_pressed s.fsm.button_id b).1 in
      let v = port.get_tick-IsBoard s.board i.on_board in
      let v' = port.is_pressed-IsBoard s.fsm.button_id b v in
      let w : ButtonOn B = record {
        fsm = record (s.fsm) { current_state = button_pressed };
        board = b;
      } in
      let (t, e, d) = released_fire w refl up in
      (
        t,
        rw (wait_ignores_button s q late, e) refl,
        ground (
          arith,
          d,
          port.get_tick-eq-elapsed s.board i.on_board,
          port.get_tick-eq-elapsed b' v',
          port.elapsed-le-is_pressed s.fsm.button_id b,
          port.elapsed-le-get_tick b',
        ),
      )
