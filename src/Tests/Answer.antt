-- ===== src/Tests/Answer.antt =====
-- A press, its end, and the answer.
use transmisor_receptor_ir.Common.{
  ℕ, zero, suc, ◌==◌, ◌≡◌, ◌≢◌, refl, inl, inr, some, none, List, [], ◌∷◌, true, if◌then◌else◌,
  arith, replicate, shl32,
}
use transmisor_receptor_ir.Button.{
  ButtonOn, button_fire, button_pressed_wait, button_released_wait, button_pressed,
}
use transmisor_receptor_ir.Rx.{off_rx}
use transmisor_receptor_ir.Retina.{System, wait_rx, is_active}
use transmisor_receptor_ir.Main.{main_round}
use transmisor_receptor_ir.Main.Board.{IsGoingOn, board_round, SendsOn}
use transmisor_receptor_ir.Main.Held.{button_of, Holds, held, round}
use transmisor_receptor_ir.Main.Answer.{press_answered, hold_answered}
use transmisor_receptor_ir.Port.State.{Irq, Board, systick, tim1_up, exti15_10}
use transmisor_receptor_ir.Port.Button.{port_button_is_pressed, port_button_get_tick}
use transmisor_receptor_ir.Port.Rx.{port_rx_get_num_edges}
use transmisor_receptor_ir.Port.Interrupts.{poll, serve}
use transmisor_receptor_ir.Port.Hearing.{IsHearing}
use transmisor_receptor_ir.Port.ForTx.{IsPaced, tim1_count}
use transmisor_receptor_ir.Port.ForMain.{paced_button}
use transmisor_receptor_ir.Tests.Boards.{busy, off_timer}
use transmisor_receptor_ir.Tests.System.{cmsis}
use transmisor_receptor_ir.Tests.Main.{parsers, pressed, pressed-IsGoing}

-- The press before the first access, a time of `ms` before the fifth, and the release before the
-- seventh.
abbrev held_for : ℕ → ℕ → List Irq
held_for ms n =
    tim1_up
    ∷ (if n == 0
        then exti15_10 0x2000 0 ∷ []
        else if n == 4
        then replicate ms systick
        else if n == 6
        then exti15_10 0x2000 0x2000 ∷ []
        else [])

tim1_count-replicate : (n : ℕ) → tim1_count (replicate n systick) ≡ 0
tim1_count-replicate zero = refl
tim1_count-replicate (suc n) = tim1_count-replicate n

held_for-IsPaced : (ms : ℕ) → IsPaced (λ n. 0) 1 (held_for ms)
held_for-IsPaced ms = record {
  bounded = λ n. omega arith;
  next = λ n. inl (ground (arith, tim1_count-replicate ms));
}

abbrev resting : ℕ → System Board
resting ms = record pressed {
  button = record (pressed.button) { duration = 0 };
  board = record busy { tim3 = record off_timer { cen = true }; arrivals = held_for ms };
}

resting-IsGoing : (ms : ℕ) → IsGoingOn (λ n. 0) 1 (resting ms)
resting-IsGoing ms = record {
  sound = record {
    ready = record { known = inl refl; codes = refl; index = omega arith; receiving = λ z. refl };
    owned = record {
      known = pressed-IsGoing.sound.owned.known;
      off = pressed-IsGoing.sound.owned.off;
      idle = pressed-IsGoing.sound.owned.idle;
      wait = pressed-IsGoing.sound.owned.wait;
      balance = refl;
    };
  };
  on_board = record {
    valid = record { clock = refl; symbol_clock = refl; buffer = refl; index = omega arith };
    uie = refl;
    irq = refl;
    paced = held_for-IsPaced ms;
  };
  waiting = pressed-IsGoing.waiting;
}

resting-IsHearing : IsHearing (resting 3200).board
resting-IsHearing = record { on = refl; timed = refl }

-- The round that sees the press, one that waits out the bouncing, and the call that sees the end.
record Pressed (ms : ℕ) : Type 0 where
  t : System Board
  u : System Board
  b : ButtonOn Board
  first : board_round (λ n. 0) 1 3571 parsers (resting ms) ≡ some t
  next : board_round (λ n. 0) 1 3571 parsers t ≡ some u
  fires : button_fire ⦃port = paced_button (λ n. 0) 1⦄ (button_of u) ≡ some b
  seen : t.button.current_state ≡ button_released_wait
  waited : u.button.current_state ≡ button_pressed
  ended : b.fsm.current_state ≡ button_pressed_wait
  start : t.board.systicks ≡ 0
  end : u.board.systicks ≡ ms
  last : b.board.systicks ≡ ms

Pressed-holds : {ms : ℕ} (p : Pressed ms) → Holds (λ n. 0) 1 3571 parsers p.t p.u
Pressed-holds p = round (held (inl p.seen)) p.next (inr p.waited)

pressed_shortly : Pressed 200
unfolding main_round port_button_is_pressed port_button_get_tick port_rx_get_num_edges poll serve
    is_active shl32
pressed_shortly = record {
  t = _;
  u = _;
  b = _;
  first = refl;
  next = refl;
  fires = refl;
  seen = refl;
  waited = refl;
  ended = refl;
  start = refl;
  end = refl;
  last = refl;
}

pressed_long : Pressed 3200
unfolding main_round port_button_is_pressed port_button_get_tick port_rx_get_num_edges poll serve
    is_active shl32
pressed_long = record {
  t = _;
  u = _;
  b = _;
  first = refl;
  next = refl;
  fires = refl;
  seen = refl;
  waited = refl;
  ended = refl;
  start = refl;
  end = refl;
  last = refl;
}

press_answered_example :
    (v : System Board) × (w : System Board) × SendsOn
      (λ n. 0)
      1
      cmsis
      3571
      parsers
      pressed_shortly.u
      v
      w
    × (pressed_shortly.u.retina.tx_codes_index ≡ 1)
press_answered_example =
    let p = pressed_shortly in
    press_answered (λ n. 0) 1 cmsis 3571 parsers (resting 200) p.t p.u p.b (omega arith)
      (λ k e. absurd (ground arith)) (resting-IsGoing 200) (inl refl) refl refl (omega arith)
      p.first (Pressed-holds p) p.fires p.ended (omega (arith, p.start, p.end))
      (omega (arith, p.last))

hold_answered_example :
    (v : System Board) × (w : System Board) × (board_round (λ n. 0) 1 3571 parsers pressed_long.u
      ≡ some v)
    × (board_round (λ n. 0) 1 3571 parsers v ≡ some w)
    × (v.retina.current_state ≡ wait_rx)
    × (w.rx.current_state ≢ off_rx)
    × (w.rx.p_fsm_rx_nec ≢ none)
    × IsHearing w.board
hold_answered_example =
    let p = pressed_long in
    hold_answered (λ n. 0) 1 3571 parsers (resting 3200) p.t p.u p.b (omega arith)
      (λ k e. absurd (ground arith)) (resting-IsGoing 3200) (inr resting-IsHearing) (inl refl) refl
      refl p.first (Pressed-holds p) p.fires p.ended (omega (arith, p.start, p.end))
      (omega (arith, p.start, p.end)) (omega (arith, p.last))
