-- ===== src/Rx/Stamps.antt =====
-- When the receiver's machine takes the edges to have stopped (common/src/fsm_rx.c).
use transmisor_receptor_ir.Common.{ℕ, ◌≡◌, ◌≢◌, ◌⊎◌, inl, inr, Option, some, arith, ◌≤◌, ◌<◌, sub32}
use transmisor_receptor_ir.Nec.{FsmRxNec}
use transmisor_receptor_ir.Rx.Port.{RxPort}
use transmisor_receptor_ir.Rx.{RxOn, idle_rx, wait_rx, rx_fire}
use transmisor_receptor_ir.Rx.Memory.{IsOwned}

module _ {B : Type 0} ⦃port : RxPort B⦄ (malloc : ℕ → Option FsmRxNec) where
  -- The call that counts another number of edges than before, and waits: on which board it looks at
  -- the clock, and what it keeps of it.
  pub new_edges :
      (s t : RxOn B)
      → IsOwned s
      → rx_fire malloc s ≡ some t
      → t.fsm.current_state ≡ wait_rx
      → t.fsm.num_edges_detected ≢ s.fsm.num_edges_detected
      → let b = (port.get_num_edges s.fsm.rx_id s.board).1 in
        let c = (port.get_num_edges s.fsm.rx_id (port.get_millis s.board).1).1 in
        ((t.fsm.last_tick ≡ (port.get_millis b).0)
          × (t.board ≡ (port.get_num_edges s.fsm.rx_id (port.get_millis b).1).1))
        ⊎ ((t.fsm.last_tick ≡ (port.get_millis c).0)
            × (t.board ≡ (port.get_num_edges s.fsm.rx_id (port.get_millis c).1).1))
  unfolding rx_fire
  new_edges s t o e q new = elim o.known [
    | inl p ↦ ground arith
    | inr (inl p) ↦ inl (ground arith)
    | inr (inr p) ↦ inr (ground arith)
  ]

  -- The call that finds the machine waiting decides by the clock, which it reads first.
  pub waited :
      (s t : RxOn B)
      → s.fsm.current_state ≡ wait_rx
      → rx_fire malloc s ≡ some t
      → let id = s.fsm.rx_id in
        let (tick, b) = port.get_millis s.board in
        let c = (port.get_num_edges id b).1 in
        ((t.fsm.current_state ≡ idle_rx)
          × (s.fsm.message_timeout_ms < sub32 tick s.fsm.last_tick)
          × (t.board ≡ port.clean_buffer id c))
        ⊎ ((t.fsm.current_state ≡ wait_rx)
            × (sub32 tick s.fsm.last_tick ≤ s.fsm.message_timeout_ms)
            × ((t.board ≡ c) ⊎ (t.board ≡ (port.get_num_edges id (port.get_millis c).1).1)))
  unfolding rx_fire
  waited s t q e = ground arith
