-- ===== src/Tests/Timeout.antt =====
-- A receiver whose clock wraps while it waits for the edges to stop.
use transmisor_receptor_ir.Common.{
  ℕ, ◌+◌, ◌-◌, ◌≤◌, ◌<◌, ◌^◌, ◌≡◌, ◌⊎◌, refl, inl, inr, true, false, Option, some, arith,
}
use transmisor_receptor_ir.Nec.{
  FsmRxNec, fsm_rx_nec_parse_code, fsm_trans_rx_nec, get_diff_ticks, is_init_silence,
  is_prologue_pulse, is_repetition_pulse, is_symbol_silence, is_symbol_0_pulse, is_symbol_1_pulse,
}
use transmisor_receptor_ir.Rx.{RxOn, idle_rx, wait_rx, rx_fire}
use transmisor_receptor_ir.Rx.Memory.{IsOwned}
use transmisor_receptor_ir.Port.State.{Board}
use transmisor_receptor_ir.Port.Interrupts.{poll}
use transmisor_receptor_ir.Port.Button.{port_system_get_millis}
use transmisor_receptor_ir.Port.Rx.{
  port_rx_get_num_edges, port_rx_get_buffer_edges, port_rx_clean_buffer,
}
use transmisor_receptor_ir.Port.Handlers.{reset_edge_ticks_idx}
use transmisor_receptor_ir.Port.ForRx.{board_rx}
use transmisor_receptor_ir.Port.Timeout.{timeout_measured}
use transmisor_receptor_ir.Tests.Boards.{rest_at}
use transmisor_receptor_ir.Tests.Nec.{some_parser, red_edges}

abbrev memory : ℕ → Option FsmRxNec
memory n = some some_parser

-- The edges of a frame have come, 5 ms before the clock wraps.
abbrev idle : RxOn Board
idle = record {
  fsm = record {
    current_state = idle_rx;
    p_fsm_rx_nec = some some_parser;
    message_timeout_ms = 10;
    last_tick = 0;
    num_edges_detected = 0;
    code = 0;
    is_repetition = false;
    is_error = false;
    status = true;
    rx_id = 0;
  };
  board = rest_at (2 ^ 32 - 5) red_edges;
  mallocs = 1;
  frees = 0;
}

abbrev waiting : RxOn Board
waiting = record idle {
  fsm = record (idle.fsm) {
    current_state = wait_rx;
    last_tick = 2 ^ 32 - 5;
    num_edges_detected = 68;
  };
  board = record (idle.board) { accesses = 3 };
}

-- The same 25 ms later.
abbrev late : RxOn Board
late = record waiting { board = record (waiting.board) { ms_ticks = 20; systicks = 2 ^ 32 + 20 } }

idle-IsOwned : IsOwned idle
idle-IsOwned = record {
  known = inr (inl refl);
  off = λ q. absurd (ground arith);
  idle = λ q e. absurd (ground arith);
  wait = λ q. absurd (ground arith);
  balance = refl;
}

edges_found : rx_fire ⦃port = board_rx⦄ memory idle ≡ some waiting
unfolding rx_fire poll port_rx_get_num_edges port_system_get_millis
edges_found = refl

parsed : (t : RxOn Board) × (rx_fire ⦃port = board_rx⦄ memory late ≡ some t)
unfolding rx_fire poll port_system_get_millis fsm_rx_nec_parse_code port_rx_get_num_edges
    fsm_trans_rx_nec get_diff_ticks port_rx_get_buffer_edges is_init_silence is_prologue_pulse
    is_repetition_pulse is_symbol_silence is_symbol_0_pulse is_symbol_1_pulse
parsed = (_, refl)

parsed-early : parsed.0.board.systicks < idle.board.systicks + 2 ^ 32
unfolding parsed poll port_rx_clean_buffer reset_edge_ticks_idx
parsed-early = omega arith

timeout_measured_example :
    ((parsed.0.fsm.current_state ≡ idle_rx) × (idle.board.systicks + 10 < parsed.0.board.systicks))
    ⊎ ((parsed.0.fsm.current_state ≡ wait_rx) × (late.board.systicks ≤ waiting.board.systicks + 10))
timeout_measured_example =
    timeout_measured memory idle waiting late parsed.0 idle-IsOwned
      (record { clock = refl; symbol_clock = refl; buffer = refl; index = omega arith }) edges_found
      refl (omega arith) refl refl
      (record { clock = refl; symbol_clock = refl; buffer = refl; index = omega arith })
      (omega arith) parsed.1 parsed-early
