-- ===== src/Rx/Boards.antt =====
-- What the receiver's machine leaves of the board (common/src/fsm_rx.c): it hears what it starts.
use transmisor_receptor_ir.Common.{
  ℕ, ◌≡◌, ◌≢◌, ◌⊎◌, inl, inr, true, false, Option, none, some, arith,
}
use transmisor_receptor_ir.Nec.{FsmRxNec}
use transmisor_receptor_ir.Rx.Port.{RxPort}
use transmisor_receptor_ir.Rx.{RxOn, rx_fire, off_rx, idle_rx}
use transmisor_receptor_ir.Rx.Memory.{IsOwned}

-- The boards that hear, and what keeps them so: every call but those that stop the reception.
module _ {B : Type 0} ⦃port : RxPort B⦄ (IsHearing : B → Type 0)
    (started : (id : ℕ) (b : B)
      → IsHearing (port.en id true (port.clean_buffer id (port.tmr_start b))))
    (clean_buffer : (id : ℕ) (b : B) → IsHearing b → IsHearing (port.clean_buffer id b))
    (get_num_edges : (id : ℕ) (b : B) → IsHearing b → IsHearing (port.get_num_edges id b).1)
    (get_millis : (b : B) → IsHearing b → IsHearing (port.get_millis b).1)
    (malloc : ℕ → Option FsmRxNec) where
  pub rx_fire-IsHearing :
      (s t : RxOn B)
      → (s.fsm.current_state ≡ off_rx) ⊎ IsHearing s.board
      → rx_fire malloc s ≡ some t
      → (t.fsm.current_state ≡ off_rx) ⊎ IsHearing t.board
  unfolding rx_fire
  rx_fire-IsHearing s t v e = grind (arith, started, clean_buffer, get_num_edges, get_millis)

module _ {B : Type 0} ⦃port : RxPort B⦄ (malloc : ℕ → Option FsmRxNec) where
  -- A receiver that is switched on is not off after it is fired.
  pub on_fire :
      (s t : RxOn B)
      → IsOwned s
      → s.fsm.status ≡ true
      → rx_fire malloc s ≡ some t
      → t.fsm.current_state ≢ off_rx
  unfolding rx_fire
  on_fire s t o on e off = elim o.known [
    | inl q ↦ ground arith
    | inr (inl q) ↦ ground arith
    | inr (inr q) ↦ ground arith
  ]

  -- An idle receiver keeps its result.
  pub idle_keeps :
      (s t : RxOn B)
      → s.fsm.current_state ≡ idle_rx
      → rx_fire malloc s ≡ some t
      → (t.fsm.code ≡ s.fsm.code)
        × (t.fsm.is_repetition ≡ s.fsm.is_repetition)
        × (t.fsm.is_error ≡ s.fsm.is_error)
  unfolding rx_fire
  idle_keeps s t q e = ground arith

  -- One that is switched off stops: its parser is freed, and its line and its timer are turned off.
  pub idle_stops :
      (s t : RxOn B)
      → s.fsm.current_state ≡ idle_rx
      → s.fsm.status ≡ false
      → rx_fire malloc s ≡ some t
      → (t.fsm.current_state ≡ off_rx)
        × (t.fsm.p_fsm_rx_nec ≡ none)
        × (t.board ≡ port.en s.fsm.rx_id false (port.tmr_stop s.board))
  unfolding rx_fire
  idle_stops s t q on e = ground arith
