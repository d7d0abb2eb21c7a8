-- ===== src/Tests/Heard.antt =====
-- A round of the program that finds the edges of a frame.
use transmisor_receptor_ir.Common.{
  ℕ, ◌≡◌, refl, inl, inr, Option, some, false, true, [], ◌∷◌, ◌++◌, pos, arith,
}
use transmisor_receptor_ir.Nec.{FsmRxNec}
use transmisor_receptor_ir.Nec.Reference.{widths}
use transmisor_receptor_ir.Button.{ButtonOn, button_fire, button_released}
use transmisor_receptor_ir.Tx.{TxOn, tx_fire}
use transmisor_receptor_ir.Tx.Wave.{nominal_wave}
use transmisor_receptor_ir.Rx.{wait_rx}
use transmisor_receptor_ir.Rx.Results.{IsTimeout}
use transmisor_receptor_ir.Retina.{System, lil_red_button}
use transmisor_receptor_ir.Retina.Modes.{messages}
use transmisor_receptor_ir.Retina.Codes.{rgb}
use transmisor_receptor_ir.Main.{main_round}
use transmisor_receptor_ir.Main.Runs.{IsGoing}
use transmisor_receptor_ir.Main.Heard.{receiver_of, wave_shown}
use transmisor_receptor_ir.Port.State.{Board, tim1_up, gpiob, gpioc}
use transmisor_receptor_ir.Port.Button.{port_button_is_pressed, port_system_get_millis}
use transmisor_receptor_ir.Port.Interrupts.{poll, serve}
use transmisor_receptor_ir.Port.Rgb.{rgb_r_0_pin, rgb_g_0_pin, rgb_b_0_pin}
use transmisor_receptor_ir.Port.Led.{driven}
use transmisor_receptor_ir.Port.ForTx.{board_tx}
use transmisor_receptor_ir.Port.ForRx.{board_rx}
use transmisor_receptor_ir.Port.ForRetina.{board_retina}
use transmisor_receptor_ir.Port.ForMain.{paced_button, paced_rx}
use transmisor_receptor_ir.Tests.Boards.{rest_at, off_timer}
use transmisor_receptor_ir.Tests.Nec.{some_parser, symbols_of, red_bits, red_edges}
use transmisor_receptor_ir.Tests.Tx.{red_wave-AreNear, red_wave-IsHeard}

abbrev parsers : ℕ → Option FsmRxNec
parsers n = some some_parser

-- The edges of a frame have come, the last one 100 ms ago.
abbrev pub hearing : System Board
hearing = record {
  button = record {
    current_state = button_released;
    debounce_time = 150;
    next_timeout = 0;
    tick_pressed = 0;
    duration = 0;
    button_id = 0;
  };
  tx = record { current_state = pos 0; code = 0; tx_id = 0 };
  rx = record {
    current_state = wait_rx;
    p_fsm_rx_nec = some some_parser;
    message_timeout_ms = 10;
    last_tick = 400;
    num_edges_detected = 68;
    code = 0;
    is_repetition = false;
    is_error = false;
    status = true;
    rx_id = 0;
  };
  retina = record {
    current_state = transmisor_receptor_ir.Retina.wait_rx;
    long_button_press_ms = 3000;
    tx_codes_arr = messages;
    tx_codes_index = 1;
    rx_code = 0;
    rgb_id = 0;
  };
  board = record (rest_at 500 red_edges) {
    tim1 = record off_timer { uie = true };
    arrivals = λ n. tim1_up ∷ [];
  };
  mallocs = 1;
  frees = 0;
  printed = [];
}

pub hearing-IsGoing : IsGoing ⦃tx_port = board_tx (λ n. 0) 1⦄ hearing
hearing-IsGoing = record {
  sound = record {
    ready = record {
      known = inr (inl refl);
      codes = refl;
      index = omega arith;
      receiving = λ z. refl;
    };
    owned = record {
      known = inr (inr refl);
      off = λ q. absurd (ground arith);
      idle = λ q. absurd (ground arith);
      wait = λ q e. absurd (ground arith);
      balance = refl;
    };
  };
  on_board = record {
    valid = record { clock = refl; symbol_clock = refl; buffer = refl; index = omega arith };
    uie = refl;
    irq = refl;
    paced = record { bounded = λ n. omega arith; next = λ n. inl refl };
  };
  waiting = record { state = refl; transmitter = refl };
}

button_stage :
    (b : ButtonOn Board) × (button_fire ⦃port = paced_button (λ n. 0) 1⦄
        (record { fsm = hearing.button; board = hearing.board })
      ≡ some b)
unfolding button_fire port_button_is_pressed poll serve
button_stage = (_, refl)

tx_stage :
    (x : TxOn Board) × (tx_fire ⦃port = board_tx (λ n. 0) 1⦄ 3571
        (record { fsm = hearing.tx; board = button_stage.0.board })
      ≡ some x)
unfolding button_stage tx_fire poll serve
tx_stage = (_, refl)

hearing-IsTimeout :
    IsTimeout ⦃port = board_rx⦄ parsers (receiver_of (λ n. 0) 1 3571 parsers hearing tx_stage.0)
unfolding tx_stage button_stage port_system_get_millis poll serve
hearing-IsTimeout = (refl, omega arith)

wave_shown_example :
    (t : System Board) × (main_round ⦃button_port = paced_button (λ n. 0) 1⦄
        ⦃tx_port = board_tx (λ n. 0) 1⦄ ⦃rx_port = paced_rx (λ n. 0) 1⦄ ⦃retina_port = board_retina⦄
        3571 parsers hearing
      ≡ some t)
    × (driven gpiob rgb_r_0_pin t.board.bsrr ≡ some true)
    × (driven gpioc rgb_g_0_pin t.board.bsrr ≡ some false)
    × (driven gpiob rgb_b_0_pin t.board.bsrr ≡ some false)
unfolding tx_stage button_stage widths poll serve
wave_shown_example =
    wave_shown (λ n. 0) 1 3571 parsers hearing button_stage.0 tx_stage.0 lil_red_button
      (rgb true false false) (nominal_wave lil_red_button)
      (900 ∷ 450 ∷ (symbols_of red_bits ++ 56 ∷ [])) (omega arith) (λ k e. absurd (ground arith))
      hearing-IsGoing refl button_stage.1 tx_stage.1 refl hearing-IsTimeout (omega arith)
      red_wave-AreNear red_wave-IsHeard refl refl
