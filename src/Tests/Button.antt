-- ===== src/Tests/Button.antt =====
-- The button of common/src/fsm_button.c on the board.
use transmisor_receptor_ir.Common.{
  ℕ, ◌+◌, ◌-◌, ◌≤◌, ◌<◌, ◌^◌, ◌≡◌, ◌⊎◌, inl, inr, refl, Bool, true, false, u32, some, arith, ℤ, [],
}
use transmisor_receptor_ir.Button.{
  ButtonOn, button_fire, fsm_button_init, fsm_button_get_duration, button_released,
  button_released_wait,
}
use transmisor_receptor_ir.Button.Debounce.{IsTimed}
use transmisor_receptor_ir.Button.Runs.{start, duration-gt-debounce_time}
use transmisor_receptor_ir.Button.Waits.{fires, press_at_wrap_sticks, short_press_reported}
use transmisor_receptor_ir.Button.Measured.{Presses, seen, fire, others, press_measured}
use transmisor_receptor_ir.Port.State.{Board}
use transmisor_receptor_ir.Port.Valid.{IsValid}
use transmisor_receptor_ir.Port.Interrupts.{poll}
use transmisor_receptor_ir.Port.Button.{
  port_button_init, port_button_is_pressed, port_button_get_tick,
}
use transmisor_receptor_ir.Port.ForButton.{board_button}
use transmisor_receptor_ir.Tests.Boards.{rest_at}

abbrev button_in : ℤ → Board → ButtonOn Board
button_in q b = record {
  fsm = record {
    current_state = q;
    debounce_time = 150;
    next_timeout = 1150;
    tick_pressed = 1000;
    duration = 0;
    button_id = 0;
  };
  board = b;
}

-- A button whose bounces are waited out, when the time is over.
abbrev waited : ButtonOn Board
waited = button_in button_released_wait (rest_at 1200 [])

rest-IsValid : (ms : ℕ) → ms < 2 ^ 32 → IsValid (rest_at ms [])
rest-IsValid ms h = record {
  clock = omega arith;
  symbol_clock = refl;
  buffer = refl;
  index = omega arith;
}

waited-IsTimed : IsTimed waited
waited-IsTimed = record {
  on_board = rest-IsValid 1200 (omega arith);
  waiting = λ q. omega arith;
  pressed = λ q. absurd (ground arith);
  reported = inl refl;
}

-- A new machine, whose first look finds the button up.
abbrev made : ButtonOn Board
made = record {
  fsm = record {
    current_state = button_released;
    debounce_time = 150;
    next_timeout = 77;
    tick_pressed = 0;
    duration = 0;
    button_id = 0;
  };
  board = port_button_init 0 (rest_at 0 []);
}

made-init : fsm_button_init 150 0 (record made { board = rest_at 0 [] }) ≡ some made
unfolding fsm_button_init
made-init = refl

duration-gt-debounce_time_example : let d = fsm_button_get_duration made.fsm in (d ≡ 0) ⊎ (150 < d)
unfolding port_button_init
duration-gt-debounce_time_example =
    duration-gt-debounce_time 150 0 (record made { board = rest_at 0 [] }) made made
      (rest-IsValid 0 (omega arith)) made-init start (omega arith)

-- A press is found 150 ms before the clock's last value.
abbrev late_press : ButtonOn Board
late_press = button_in button_released (record (rest_at (2 ^ 32 - 151) []) { flag_pressed = true })

press_at_wrap_sticks_example :
    (t : ButtonOn Board) × (fires 1001 late_press ≡ some t)
    × (t.fsm.current_state ≡ button_released_wait)
unfolding port_button_is_pressed port_button_get_tick poll
press_at_wrap_sticks_example =
    press_at_wrap_sticks 1000 late_press
      (record { clock = refl; symbol_clock = refl; buffer = refl; index = omega arith }) refl refl
      refl

short_press_reported_example :
    (t : ButtonOn Board) × (fires 2 waited ≡ some t) × (150 < t.fsm.duration)
unfolding port_button_is_pressed port_button_get_tick poll
short_press_reported_example =
    short_press_reported waited waited-IsTimed refl (omega arith) refl (omega arith)

-- A press over the clock's wrap: it is seen 50 ms before, and is over 300 ms after.
abbrev clock_at : ℕ → Bool → Board
clock_at ms down = record (rest_at (u32 ms) []) { flag_pressed = down; systicks = ms }

clock_at-IsValid : (ms : ℕ) (down : Bool) → IsValid (clock_at ms down)
clock_at-IsValid ms down = record {
  clock = refl;
  symbol_clock = refl;
  buffer = refl;
  index = omega arith;
}

abbrev before_wrap : ButtonOn Board
before_wrap = button_in button_released (clock_at (2 ^ 32 - 50) true)

press_call : (t : ButtonOn Board) × (button_fire before_wrap ≡ some t)
unfolding button_fire port_button_is_pressed port_button_get_tick poll
press_call = (_, refl)

abbrev still_down : ButtonOn Board
still_down = record press_call.0 { board = clock_at (2 ^ 32 + 200) true }

wait_call : (t : ButtonOn Board) × (button_fire still_down ≡ some t)
unfolding press_call button_fire port_button_is_pressed port_button_get_tick poll
wait_call = (_, refl)

abbrev up_again : ButtonOn Board
up_again = record wait_call.0 { board = clock_at (2 ^ 32 + 300) false }

release_call : (t : ButtonOn Board) × (button_fire up_again ≡ some t)
unfolding wait_call press_call button_fire port_button_is_pressed port_button_get_tick poll
release_call = (_, refl)

whole_press : Presses press_call.0 up_again
unfolding wait_call press_call button_fire port_button_is_pressed port_button_get_tick poll
whole_press =
    others (clock_at (2 ^ 32 + 300) false)
      (fire
        (others (clock_at (2 ^ 32 + 200) true) (seen (inl refl))
          (clock_at-IsValid (2 ^ 32 + 200) true) (omega arith))
        wait_call.1 (inr refl))
      (clock_at-IsValid (2 ^ 32 + 300) false) (omega arith)

press_measured_example :
    let d = fsm_button_get_duration release_call.0.fsm in
    (up_again.board.systicks ≤ press_call.0.board.systicks + d)
    × (before_wrap.board.systicks + d ≤ release_call.0.board.systicks)
unfolding release_call wait_call press_call
press_measured_example =
    press_measured before_wrap press_call.0 up_again release_call.0
      (clock_at-IsValid (2 ^ 32 - 50) true) refl press_call.1 refl whole_press refl release_call.1
      refl (omega arith)
