-- ===== src/Rx/Keeps.antt =====
-- What the receiver's machine leaves of the board (common/src/fsm_rx.c): what every call keeps.
use transmisor_receptor_ir.Common.{ℕ, ◌≡◌, Bool, true, false, Option, some, arith}
use transmisor_receptor_ir.Nec.{FsmRxNec}
use transmisor_receptor_ir.Rx.Port.{RxPort}
use transmisor_receptor_ir.Rx.{RxOn, rx_fire}

module _ {B : Type 0} ⦃port : RxPort B⦄ (IsBoard : B → Type 0)
    (en : (id : ℕ) (on : Bool) (b : B) → IsBoard b → IsBoard (port.en id on b))
    (tmr_start : (b : B) → IsBoard b → IsBoard (port.tmr_start b))
    (tmr_stop : (b : B) → IsBoard b → IsBoard (port.tmr_stop b))
    (clean_buffer : (id : ℕ) (b : B) → IsBoard b → IsBoard (port.clean_buffer id b))
    (get_num_edges : (id : ℕ) (b : B) → IsBoard b → IsBoard (port.get_num_edges id b).1)
    (get_millis : (b : B) → IsBoard b → IsBoard (port.get_millis b).1)
    (malloc : ℕ → Option FsmRxNec) where
  pub rx_fire_keeps : (s t : RxOn B) → IsBoard s.board → rx_fire malloc s ≡ some t → IsBoard t.board
  unfolding rx_fire
  rx_fire_keeps s t v e =
      let id = s.fsm.rx_id in
      let started = port.tmr_start s.board in
      let cleaned = port.clean_buffer id started in
      let stopped = port.tmr_stop s.board in
      let (m, edges) = port.get_num_edges id s.board in
      let (m', timed) = port.get_millis s.board in
      let (n, stored) = port.get_num_edges id timed in
      let (k, edges_timed) = port.get_millis edges in
      let (k', stored_timed) = port.get_millis stored in
      ground (
        arith,
        tmr_start s.board v,
        clean_buffer id started,
        en id true cleaned,
        tmr_stop s.board v,
        en id false stopped,
        get_num_edges id s.board v,
        get_millis edges,
        get_num_edges id edges_timed,
        get_millis s.board v,
        get_num_edges id timed,
        clean_buffer id stored,
        get_millis stored,
        get_num_edges id stored_timed,
      )
