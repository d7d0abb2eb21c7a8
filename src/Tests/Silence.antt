-- ===== src/Tests/Silence.antt =====
-- A program that stops listening after a long press.
use transmisor_receptor_ir.Common.{◌≡◌, refl, inl, inr, some, arith, shl32}
use transmisor_receptor_ir.Button.{ButtonOn, button_fire, fsm_button_get_duration}
use transmisor_receptor_ir.Rx.{off_rx, idle_rx}
use transmisor_receptor_ir.Retina.{System, wait_tx, wait_rx, is_active}
use transmisor_receptor_ir.Retina.Life.{off}
use transmisor_receptor_ir.Main.{main_round}
use transmisor_receptor_ir.Main.Board.{IsGoingOn, board_round}
use transmisor_receptor_ir.Main.Lit.{IsLit}
use transmisor_receptor_ir.Main.Silence.{long_press_silences}
use transmisor_receptor_ir.Port.State.{Board}
use transmisor_receptor_ir.Port.Deaf.{IsDeaf}
use transmisor_receptor_ir.Port.Button.{port_button_is_pressed, port_button_get_tick}
use transmisor_receptor_ir.Port.Rx.{port_rx_get_num_edges}
use transmisor_receptor_ir.Port.Interrupts.{poll, serve}
use transmisor_receptor_ir.Port.ForMain.{paced_button}
use transmisor_receptor_ir.Tests.Main.{parsers, pressed, pressed-IsGoing}

-- The loop as the button reports a press of 4 s, in the receiving mode.
abbrev held : System Board
held = record pressed {
  button = record (pressed.button) { duration = 4000 };
  retina = record (pressed.retina) { current_state = wait_rx };
}

held-IsGoing : IsGoingOn (λ n. 0) 1 held
held-IsGoing = record {
  sound = record {
    ready = record {
      known = inr (inl refl);
      codes = refl;
      index = omega arith;
      receiving = λ z. refl;
    };
    owned = record {
      known = pressed-IsGoing.sound.owned.known;
      off = pressed-IsGoing.sound.owned.off;
      idle = pressed-IsGoing.sound.owned.idle;
      wait = pressed-IsGoing.sound.owned.wait;
      balance = refl;
    };
  };
  on_board = pressed-IsGoing.on_board;
  waiting = pressed-IsGoing.waiting;
}

reported :
    (b : ButtonOn Board) × (button_fire ⦃port = paced_button (λ n. 0) 1⦄
        (record { fsm = held.button; board = held.board })
      ≡ some b)
    × (fsm_button_get_duration b.fsm ≡ 4000)
unfolding button_fire port_button_is_pressed poll serve fsm_button_get_duration
reported = (_, refl, refl)

turned :
    (t : System Board) × (board_round (λ n. 0) 1 3571 parsers held ≡ some t)
    × (t.rx.current_state ≡ idle_rx)
unfolding main_round port_button_is_pressed port_button_get_tick port_rx_get_num_edges poll serve
    is_active fsm_button_get_duration shl32
turned = (_, refl, refl)

long_press_silences_example :
    (u : System Board) × (turned.0.retina.current_state ≡ wait_tx)
    × IsLit off turned.0.board
    × (board_round (λ n. 0) 1 3571 parsers turned.0 ≡ some u)
    × (u.rx.current_state ≡ off_rx)
    × (u.mallocs ≡ u.frees)
    × IsDeaf u.board
long_press_silences_example =
    long_press_silences (λ n. 0) 1 3571 parsers held turned.0 reported.0 (omega arith)
      (λ k e. absurd (ground arith)) held-IsGoing refl refl refl refl refl reported.1
      (λ e. omega (arith, reported.2)) (omega (arith, reported.2)) turned.1 turned.2
