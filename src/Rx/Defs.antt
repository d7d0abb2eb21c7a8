-- ===== src/Rx/Defs.antt =====
-- The state, the functions and the table of the receiver's machine (common/src/fsm_rx.c).
use transmisor_receptor_ir.Common.{
  ℕ, ◌+◌, ◌/◌, refl, Bool, true, false, not, ◌&&◌, Option, some, List, [], ◌∷◌, ℤ, pos, ltb, ◌==◌,
  int_eq, if◌then◌else◌, ◌>>=◌, sub32,
}
use transmisor_receptor_ir.Fsm.{
  FsmTrans, Machine, reads, null_trans, fsm_fire, fsm_init, fsm_destroy,
}
use transmisor_receptor_ir.Nec.{FsmRxNec, fsm_rx_nec_new, fsm_rx_nec_parse_code}
use transmisor_receptor_ir.Rx.Port.{RxPort}

-- `fsm_rx_t`; the first member is the `fsm_t`. The pointer `p_fsm_rx_nec` is the parser that it
-- points at, or `none` where nothing may be done with it: before it is set, and once it is freed.
pub record FsmRx : Type 0 where
  pub current_state : ℤ
  pub p_fsm_rx_nec : Option FsmRxNec
  pub message_timeout_ms : ℕ  -- uint32_t
  pub last_tick : ℕ  -- uint32_t
  pub num_edges_detected : ℕ  -- uint32_t
  pub code : ℕ  -- uint32_t
  pub is_repetition : Bool
  pub is_error : Bool
  pub status : Bool
  pub rx_id : ℕ  -- uint8_t

-- The machine with the board that it runs on, and how many parsers were allocated and freed.
pub record RxOn (B : Type 0) : Type 0 where
  pub fsm : FsmRx
  pub board : B
  pub mallocs : ℕ
  pub frees : ℕ

instance abbrev pub rx_machine : {B : Type 0} → Machine (RxOn B)
rx_machine = record {
  current_state = λ s. s.fsm.current_state;
  set_state = λ q s. record s { fsm = record (s.fsm) { current_state = q } };
  current-set = λ q s. refl;
}

-- `enum FSM_RX`
abbrev pub off_rx : ℤ
off_rx = pos 0

abbrev pub idle_rx : ℤ
idle_rx = pos 1

abbrev pub wait_rx : ℤ
wait_rx = pos 2

abbrev pub nec_message_timeout_us : ℕ
nec_message_timeout_us = 10000

unfoldable pub check_on_rx : {B : Type 0} → RxOn B → Option Bool
check_on_rx s = some s.fsm.status

unfoldable pub check_off_rx : {B : Type 0} → RxOn B → Option Bool
check_off_rx s = some (not s.fsm.status)

unfoldable pub fsm_rx_set_rx_status : FsmRx → Bool → FsmRx
fsm_rx_set_rx_status p_fsm status = record p_fsm { status = status }

unfoldable pub fsm_rx_get_code : FsmRx → ℕ
fsm_rx_get_code p_fsm = p_fsm.code

unfoldable pub fsm_rx_get_repetition : FsmRx → Bool
fsm_rx_get_repetition p_fsm = p_fsm.is_repetition

unfoldable pub fsm_rx_get_error_code : FsmRx → Bool
fsm_rx_get_error_code p_fsm = p_fsm.is_error

unfoldable pub fsm_rx_reset_code : FsmRx → FsmRx
fsm_rx_reset_code p_fsm = record p_fsm { code = 0; is_error = false; is_repetition = false }

unfoldable pub fsm_rx_check_activity : FsmRx → Bool
fsm_rx_check_activity p_fsm = if int_eq p_fsm.current_state wait_rx then true else false

-- `malloc n` is what the call of `malloc` gives that has `n` calls before it: NULL, or a block with
-- any content.
module _ {B : Type 0} ⦃port : RxPort B⦄ (malloc : ℕ → Option FsmRxNec) where
  unfoldable pub check_edge_detection : RxOn B → Option (Bool × RxOn B)
  check_edge_detection s =
      let (value, b) = port.get_num_edges s.fsm.rx_id s.board in
      some (not (value == s.fsm.num_edges_detected), record s { board = b })

  unfoldable pub check_timeout : RxOn B → Option (Bool × RxOn B)
  check_timeout s =
      let (value, b) = port.get_millis s.board in
      some (ltb s.fsm.message_timeout_ms (sub32 value s.fsm.last_tick), record s { board = b })

  unfoldable pub do_rx_start : RxOn B → Option (RxOn B)
  do_rx_start s = do
    nec ← fsm_rx_nec_new (malloc s.mallocs)
    some (record s {
      fsm = record (s.fsm) { p_fsm_rx_nec = some nec; num_edges_detected = 0 };
      board = port.en s.fsm.rx_id true (port.clean_buffer s.fsm.rx_id (port.tmr_start s.board));
      mallocs = s.mallocs + 1;
    })

  unfoldable pub do_rx_stop : RxOn B → Option (RxOn B)
  do_rx_stop s = do
    freed ← fsm_destroy s.fsm.p_fsm_rx_nec s.frees
    some (record s {
      fsm = record (s.fsm) { p_fsm_rx_nec = freed.0 };
      board = port.en s.fsm.rx_id false (port.tmr_stop s.board);
      frees = freed.1;
    })

  unfoldable pub do_store_data : RxOn B → Option (RxOn B)
  do_store_data s = do
    nec ← s.fsm.p_fsm_rx_nec
    let (num_edges, b) = port.get_num_edges s.fsm.rx_id s.board
    p ← fsm_rx_nec_parse_code nec (some (port.get_buffer_edges s.fsm.rx_id b)) num_edges
    some (record s {
      fsm = record (s.fsm) {
        p_fsm_rx_nec = some p.machine;
        is_repetition = p.is_repetition;
        code = p.code;
        is_error = if p.code == 0 && not p.is_repetition then true else s.fsm.is_error;
        num_edges_detected = 0;
      };
      board = port.clean_buffer s.fsm.rx_id b;
    })

  unfoldable pub do_update_len_and_timeout : RxOn B → Option (RxOn B)
  do_update_len_and_timeout s =
      let (tick, b) = port.get_millis s.board in
      let (num_edges, b') = port.get_num_edges s.fsm.rx_id b in
      some (record s {
        fsm = record (s.fsm) { last_tick = tick; num_edges_detected = num_edges };
        board = b';
      })

  unfoldable pub fsm_trans_rx : List (FsmTrans (RxOn B))
  unfolding check_on_rx check_off_rx check_edge_detection check_timeout do_rx_start do_rx_stop
      do_store_data do_update_len_and_timeout
  fsm_trans_rx =
      record {
        orig_state = off_rx;
        input = reads check_on_rx;
        dest_state = idle_rx;
        out = some do_rx_start;
      }
      ∷ record {
        orig_state = idle_rx;
        input = reads check_off_rx;
        dest_state = off_rx;
        out = some do_rx_stop;
      }
      ∷ record {
        orig_state = idle_rx;
        input = some check_edge_detection;
        dest_state = wait_rx;
        out = some do_update_len_and_timeout;
      }
      ∷ record {
        orig_state = wait_rx;
        input = some check_timeout;
        dest_state = idle_rx;
        out = some do_store_data;
      }
      ∷ record {
        orig_state = wait_rx;
        input = some check_edge_detection;
        dest_state = wait_rx;
        out = some do_update_len_and_timeout;
      }
      ∷ null_trans
      ∷ []

  -- `fsm_fire` on the receiver's machine.
  unfoldable pub rx_fire : RxOn B → Option (RxOn B)
  unfolding fsm_fire fsm_trans_rx
  rx_fire = fsm_fire fsm_trans_rx

  -- The member `p_fsm_rx_nec` keeps what the memory held, which may not be used.
  unfoldable pub fsm_rx_init : ℕ → RxOn B → Option (RxOn B)
  unfolding fsm_init fsm_trans_rx
  fsm_rx_init rx_id p_this = do
    s ← fsm_init (some fsm_trans_rx) p_this
    some (record s {
      fsm = record (s.fsm) {
        rx_id = rx_id;
        code = 0;
        num_edges_detected = 0;
        last_tick = 0;
        is_error = false;
        is_repetition = false;
        status = true;
        message_timeout_ms = nec_message_timeout_us / 1000;
      };
      board = port.init rx_id s.board;
    })

  -- `memory` is what `malloc` gives; NULL is written through without a test.
  unfoldable pub fsm_rx_new : Option FsmRx → ℕ → B → Option (RxOn B)
  unfolding fsm_rx_init
  fsm_rx_new memory rx_id b = memory >>= λ p_fsm.
      fsm_rx_init rx_id (record { fsm = p_fsm; board = b; mallocs = 0; frees = 0 })
