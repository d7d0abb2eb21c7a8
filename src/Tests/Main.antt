-- ===== src/Tests/Main.antt =====
-- The program of common/src/retina.c on a board with an interrupt at each access.
use transmisor_receptor_ir.Common.{
  ℕ, ◌≡◌, refl, Option, some, none, [], pos, true, false, inl, inr, arith,
}
use transmisor_receptor_ir.Nec.{FsmRxNec}
use transmisor_receptor_ir.Button.{ButtonOn, button_fire, button_released, fsm_button_get_duration}
use transmisor_receptor_ir.Retina.{System, wait_tx}
use transmisor_receptor_ir.Retina.Modes.{messages}
use transmisor_receptor_ir.Rx.{FsmRx, idle_rx}
use transmisor_receptor_ir.Main.{Memory}
use transmisor_receptor_ir.Main.Runs.{IsAllocated}
use transmisor_receptor_ir.Main.Board.{
  IsStart, IsGoingOn, main_start, main_loop, main_runs, SendsOn, press_sent,
}
use transmisor_receptor_ir.Port.State.{Board}
use transmisor_receptor_ir.Port.Button.{port_button_is_pressed}
use transmisor_receptor_ir.Port.Interrupts.{poll, serve}
use transmisor_receptor_ir.Port.ForMain.{paced_button}
use transmisor_receptor_ir.Tests.Boards.{busy, busy-CanSend}
use transmisor_receptor_ir.Tests.Nec.{some_parser}
use transmisor_receptor_ir.Tests.System.{cmsis, cmsis-IsDocumented}

abbrev pub parsers : ℕ → Option FsmRxNec
parsers n = some some_parser

abbrev pub receiver : FsmRx
receiver = record {
  current_state = pos 9;
  p_fsm_rx_nec = none;
  message_timeout_ms = 1;
  last_tick = 2;
  num_edges_detected = 3;
  code = 4;
  is_repetition = true;
  is_error = true;
  status = false;
  rx_id = 5;
}

abbrev pub memory : Memory
memory = record {
  button = some (record {
    current_state = pos 9;
    debounce_time = 1;
    next_timeout = 2;
    tick_pressed = 3;
    duration = 4;
    button_id = 5;
  });
  tx = some (record { current_state = pos 9; code = 1; tx_id = 2 });
  rx = some receiver;
  retina = some (record {
    current_state = pos 9;
    long_button_press_ms = 1;
    tx_codes_arr = [];
    tx_codes_index = 2;
    rx_code = 3;
    rgb_id = 4;
  });
}

pub memory-IsAllocated : IsAllocated memory
memory-IsAllocated = record {
  button_block = _;
  tx_block = _;
  rx_block = _;
  retina_block = _;
  button = refl;
  tx = refl;
  rx = refl;
  retina = refl;
  unset = refl;
}

pub busy-IsStart : IsStart (λ n. 0) 1 busy
busy-IsStart = record { valid = busy-CanSend.valid; paced = busy-CanSend.paced }

main_runs_example :
    (s : System Board) × (t : System Board) × (main_start (λ n. 0) 1 cmsis 3571 parsers memory busy
      ≡ some s)
    × (main_loop (λ n. 0) 1 cmsis 3571 parsers 1000 s ≡ some t)
    × IsGoingOn (λ n. 0) 1 t
main_runs_example =
    main_runs (λ n. 0) 1 cmsis 3571 parsers memory busy 1000 cmsis-IsDocumented (omega arith)
      (λ k e. absurd (ground arith)) memory-IsAllocated busy-IsStart

-- The loop as the button reports a press of 300 ms.
abbrev pub pressed : System Board
pressed = record {
  button = record {
    current_state = button_released;
    debounce_time = 150;
    next_timeout = 0;
    tick_pressed = 0;
    duration = 300;
    button_id = 0;
  };
  tx = record { current_state = pos 0; code = 0; tx_id = 0 };
  rx = record {
    current_state = idle_rx;
    p_fsm_rx_nec = some some_parser;
    message_timeout_ms = 10;
    last_tick = 0;
    num_edges_detected = 0;
    code = 0;
    is_repetition = false;
    is_error = false;
    status = true;
    rx_id = 0;
  };
  retina = record {
    current_state = wait_tx;
    long_button_press_ms = 3000;
    tx_codes_arr = messages;
    tx_codes_index = 1;
    rx_code = 0;
    rgb_id = 0;
  };
  board = busy;
  mallocs = 1;
  frees = 0;
  printed = [];
}

pub pressed-IsGoing : IsGoingOn (λ n. 0) 1 pressed
pressed-IsGoing = record {
  sound = record {
    ready = record { known = inl refl; codes = refl; index = omega arith; receiving = λ z. refl };
    owned = record {
      known = inr (inl refl);
      off = λ q. absurd (ground arith);
      idle = λ q e. absurd (ground arith);
      wait = λ q. absurd (ground arith);
      balance = refl;
    };
  };
  on_board = busy-CanSend;
  waiting = record { state = refl; transmitter = refl };
}

pub reported :
    (b : ButtonOn Board) × (button_fire ⦃port = paced_button (λ n. 0) 1⦄
        (record { fsm = pressed.button; board = pressed.board })
      ≡ some b)
    × (fsm_button_get_duration b.fsm ≡ 300)
unfolding button_fire port_button_is_pressed poll serve fsm_button_get_duration
reported = (_, refl, refl)

press_sent_example :
    (t : System Board) × (u : System Board) × SendsOn (λ n. 0) 1 cmsis 3571 parsers pressed t u
press_sent_example =
    press_sent (λ n. 0) 1 cmsis 3571 parsers pressed reported.0 (omega arith)
      (λ k e. absurd (ground arith)) pressed-IsGoing refl reported.1
      (λ e. omega (arith, reported.2)) (omega (arith, reported.2))

-- The two rounds of the loop that follow.
pub pressed_sends :
    (t : System Board) × (u : System Board) × SendsOn (λ n. 0) 1 cmsis 3571 parsers pressed t u
pressed_sends =
    press_sent (λ n. 0) 1 cmsis 3571 parsers pressed reported.0 (omega arith)
      (λ k e. absurd (ground arith)) pressed-IsGoing refl reported.1
      (λ e. omega (arith, reported.2)) (omega (arith, reported.2))
