-- ===== src/Tests/Rx.antt =====
-- The receiver of common/src/fsm_rx.c on a board that holds the edges of a frame.
use transmisor_receptor_ir.Common.{ℕ, ◌<◌, ◌^◌, ◌≡◌, refl, inr, true, false, Option, some, arith}
use transmisor_receptor_ir.Nec.{FsmRxNec, fsm_rx_nec_new}
use transmisor_receptor_ir.Rx.{
  RxOn, off_rx, idle_rx, wait_rx, rx_fire, fsm_rx_init, fsm_rx_get_code,
}
use transmisor_receptor_ir.Rx.Memory.{IsOwned, rx_fire_total, rx_fire-IsOwned}
use transmisor_receptor_ir.Rx.Results.{IsOneResult, IsTimeout, timeout-IsOneResult}
use transmisor_receptor_ir.Port.State.{Board}
use transmisor_receptor_ir.Port.Valid.{IsValid}
use transmisor_receptor_ir.Port.Interrupts.{poll}
use transmisor_receptor_ir.Port.Button.{port_system_get_millis}
use transmisor_receptor_ir.Port.Rx.{port_rx_init}
use transmisor_receptor_ir.Port.ForRx.{board_rx}
use transmisor_receptor_ir.Tests.Boards.{rest_at}
use transmisor_receptor_ir.Tests.Nec.{some_parser, red_edges}

abbrev memory : ℕ → Option FsmRxNec
memory n = some some_parser

-- The edges of a frame have come, the last one 100 ms ago.
abbrev full : RxOn Board
full = record {
  fsm = record {
    current_state = wait_rx;
    p_fsm_rx_nec = some some_parser;
    message_timeout_ms = 10;
    last_tick = 400;
    num_edges_detected = 68;
    code = 0;
    is_repetition = false;
    is_error = false;
    status = true;
    rx_id = 0;
  };
  board = rest_at 500 red_edges;
  mallocs = 1;
  frees = 0;
}

full-IsValid : IsValid full.board
full-IsValid = record { clock = refl; symbol_clock = refl; buffer = refl; index = omega arith }

full-IsOwned : IsOwned full
full-IsOwned = record {
  known = inr (inr refl);
  off = λ q. absurd (ground arith);
  idle = λ q. absurd (ground arith);
  wait = λ q e. absurd (ground arith);
  balance = refl;
}

full-IsTimeout : IsTimeout memory full
unfolding port_system_get_millis poll
full-IsTimeout = (refl, omega arith)

-- The receiver once the timeout is noticed.
parsed : (t : RxOn Board) × (rx_fire memory full ≡ some t)
parsed = rx_fire_total memory full full-IsOwned full-IsValid (λ e. absurd (ground arith))

rx_fire-IsOwned_example : IsOwned parsed.0
rx_fire-IsOwned_example = rx_fire-IsOwned memory full parsed.0 full-IsOwned parsed.1

timeout-IsOneResult_example :
    (parsed.0.fsm.current_state ≡ idle_rx)
    × (parsed.0.fsm.num_edges_detected ≡ 0)
    × (fsm_rx_get_code parsed.0.fsm < 2 ^ 32)
    × IsOneResult parsed.0.fsm
timeout-IsOneResult_example =
    timeout-IsOneResult memory full parsed.0 full-IsOwned full-IsValid full-IsTimeout parsed.1

-- The interrupt of the receiver's pin is on.
-- A receiver that was just initialised.
abbrev made : RxOn Board
made = record full {
  fsm = record (full.fsm) { current_state = off_rx; last_tick = 0; num_edges_detected = 0 };
  board = port_rx_init 0 full.board;
}

made-init : fsm_rx_init memory 0 full ≡ some made
unfolding fsm_rx_init
made-init = refl

made-fires : (u : RxOn Board) × (rx_fire memory made ≡ some u)
unfolding rx_fire fsm_rx_nec_new
made-fires = (_, refl)
