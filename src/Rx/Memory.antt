-- ===== src/Rx/Memory.antt =====
-- The receiver's parser is allocated and freed in step with the machine's states
-- (common/src/fsm_rx.c).
use transmisor_receptor_ir.Common.{
  List, length, ◌^◌, refl, sym, ◌∙◌, inl, inr, Option-cases, ℕ, ◌+◌, ◌≡◌, ◌≢◌, ◌⊎◌, ◌≤◌, ◌<◌,
  Option, none, some, arith, some_of_ne_none,
}
use transmisor_receptor_ir.Nec.{FsmRxNec, fsm_rx_nec_new, fsm_rx_nec_parse_code}
use transmisor_receptor_ir.Nec.Correct.{parse_code-decode}
use transmisor_receptor_ir.Rx.Port.{RxPort}
use transmisor_receptor_ir.Rx.Keeps.{rx_fire_keeps}
use transmisor_receptor_ir.Rx.{RxOn, off_rx, idle_rx, wait_rx, rx_fire}

abbrev pub live : Option FsmRxNec → ℕ
live none = 0
live (some nec) = 1

-- While the machine is off it has no parser, and otherwise it has one; every parser that was
-- allocated is that one or is freed.
pub record IsOwned {B : Type 0} (s : RxOn B) : Type 0 where
  pub known :
      (s.fsm.current_state ≡ off_rx)
      ⊎ ((s.fsm.current_state ≡ idle_rx) ⊎ (s.fsm.current_state ≡ wait_rx))
  pub off : s.fsm.current_state ≡ off_rx → s.fsm.p_fsm_rx_nec ≡ none
  pub idle : s.fsm.current_state ≡ idle_rx → s.fsm.p_fsm_rx_nec ≢ none
  pub wait : s.fsm.current_state ≡ wait_rx → s.fsm.p_fsm_rx_nec ≢ none
  pub balance : s.mallocs ≡ s.frees + live s.fsm.p_fsm_rx_nec

fsm_rx_nec_new-ne-none : (memory : Option FsmRxNec) → memory ≢ none → fsm_rx_nec_new memory ≢ none
unfolding fsm_rx_nec_new
fsm_rx_nec_new-ne-none none h e = h refl
fsm_rx_nec_new-ne-none (some m) h e = cc

parse_code-ne-none :
    (nec : FsmRxNec) (edges : List ℕ) (n : ℕ)
    → n ≤ length edges
    → n < 2 ^ 32
    → fsm_rx_nec_parse_code nec (some edges) n ≢ none
parse_code-ne-none nec edges n inside small e =
    let (p, q, same_code, same_mark) = parse_code-decode nec edges n inside small in cc (sym q ∙ e)

module _ {B : Type 0} ⦃port : RxPort B⦄ (malloc : ℕ → Option FsmRxNec) where
  -- The parser's run on the board's buffer.
  store_ne_none :
      (nec : FsmRxNec) (id : ℕ) (b : B)
      → port.IsBoard b
      → let (n, c) = port.get_num_edges id b in
        fsm_rx_nec_parse_code nec (some (port.get_buffer_edges id c)) n ≢ none
  store_ne_none nec id b v =
      parse_code-ne-none nec _ _ (port.num_edges-le-length id b v) (port.num_edges-lt id b v)

  off_fire :
      (s : RxOn B)
      → s.fsm.current_state ≡ off_rx
      → malloc s.mallocs ≢ none
      → rx_fire malloc s ≢ none
  unfolding rx_fire
  off_fire s q m = ground (arith, fsm_rx_nec_new-ne-none (malloc s.mallocs))

  idle_fire :
      (s : RxOn B)
      → s.fsm.current_state ≡ idle_rx
      → s.fsm.p_fsm_rx_nec ≢ none
      → rx_fire malloc s ≢ none
  unfolding rx_fire
  idle_fire s q p = ground arith

  wait_fire :
      (s : RxOn B) (nec : FsmRxNec)
      → port.IsBoard s.board
      → s.fsm.current_state ≡ wait_rx
      → s.fsm.p_fsm_rx_nec ≡ some nec
      → rx_fire malloc s ≢ none
  unfolding rx_fire
  wait_fire s nec v q p =
      let b = (port.get_millis s.board).1 in
      ground (arith, store_ne_none nec s.fsm.rx_id b (port.get_millis-IsBoard s.board v))

  -- Where `malloc` does not give NULL, no call of `fsm_fire` on the receiver's machine goes wrong:
  -- it neither uses a parser that is not there nor frees one twice nor reads outside the buffer.
  pub rx_fire_total :
      (s : RxOn B)
      → IsOwned s
      → port.IsBoard s.board
      → malloc s.mallocs ≢ none
      → (t : RxOn B) × (rx_fire malloc s ≡ some t)
  rx_fire_total s o v m = some_of_ne_none (rx_fire malloc s) (elim o.known [
    | inl q ↦ off_fire s q m
    | inr (inl q) ↦ idle_fire s q (o.idle q)
    | inr (inr q) ↦ elim (Option-cases s.fsm.p_fsm_rx_nec) [
      | inl e ↦ absurd (o.wait q e)
      | inr (nec, e) ↦ wait_fire s nec v q e
    ]
  ])

  pub rx_fire-IsBoard :
      (s t : RxOn B) → port.IsBoard s.board → rx_fire malloc s ≡ some t → port.IsBoard t.board
  rx_fire-IsBoard =
      rx_fire_keeps port.IsBoard port.en-IsBoard port.tmr_start-IsBoard port.tmr_stop-IsBoard
        port.clean_buffer-IsBoard port.get_num_edges-IsBoard port.get_millis-IsBoard malloc

  -- Each call keeps the parser in step with the state, and leaves none behind.
  pub rx_fire-IsOwned : (s t : RxOn B) → IsOwned s → rx_fire malloc s ≡ some t → IsOwned t
  unfolding rx_fire
  rx_fire-IsOwned s t o e = ground arith
