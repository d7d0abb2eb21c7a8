-- ===== src/Rx/Results.antt =====
-- What the receiver makes of the edges when they have stopped (common/src/fsm_rx.c).
use transmisor_receptor_ir.Common.{
  Option-cases, ℕ, ◌≡◌, ◌≢◌, ◌⊎◌, ◌<◌, ◌^◌, inl, inr, Option, none, some, arith, true, false, List,
  sub32,
}
use transmisor_receptor_ir.Nec.{FsmRxNec, Parsed, fsm_rx_nec_parse_code}
use transmisor_receptor_ir.Nec.Reference.{widths}
use transmisor_receptor_ir.Nec.Outcomes.{parse_code-settled}
use transmisor_receptor_ir.Tx.Wave.{AreNear, nominal_wave}
use transmisor_receptor_ir.Air.{IsHeard, heard_wave-parsed}
use transmisor_receptor_ir.Rx.Port.{RxPort}
use transmisor_receptor_ir.Rx.{
  FsmRx, RxOn, off_rx, idle_rx, wait_rx, rx_fire, fsm_rx_init, fsm_rx_get_code,
  fsm_rx_get_repetition, fsm_rx_get_error_code,
}
use transmisor_receptor_ir.Rx.Memory.{IsOwned}

-- One of: a code, a repetition, neither of them and an error.
abbrev pub IsOneResult : FsmRx → Type 0
IsOneResult f =
    ((fsm_rx_get_code f ≢ 0) × (fsm_rx_get_repetition f ≡ false))
    ⊎ (((fsm_rx_get_code f ≡ 0) × (fsm_rx_get_repetition f ≡ true))
        ⊎ ((fsm_rx_get_code f ≡ 0)
            × (fsm_rx_get_repetition f ≡ false)
            × (fsm_rx_get_error_code f ≡ true)))

module _ {B : Type 0} ⦃port : RxPort B⦄ (malloc : ℕ → Option FsmRxNec) where
  -- The edges that the board holds once the timeout is noticed.
  abbrev pub edges_at : RxOn B → List ℕ
  edges_at s =
      let (n, b) = port.get_num_edges s.fsm.rx_id (port.get_millis s.board).1 in
      port.get_buffer_edges s.fsm.rx_id b

  abbrev pub num_edges_at : RxOn B → ℕ
  num_edges_at s = (port.get_num_edges s.fsm.rx_id (port.get_millis s.board).1).0

  -- No edge came for longer than the timeout, in 32 bits of milliseconds.
  abbrev pub IsTimeout : RxOn B → Type 0
  IsTimeout s =
      (s.fsm.current_state ≡ wait_rx)
      × (s.fsm.message_timeout_ms < sub32 (port.get_millis s.board).0 s.fsm.last_tick)

  parsed_fire :
      (s t : RxOn B) (nec : FsmRxNec) (p : Parsed)
      → IsTimeout s
      → s.fsm.p_fsm_rx_nec ≡ some nec
      → fsm_rx_nec_parse_code nec (some (edges_at s)) (num_edges_at s) ≡ some p
      → rx_fire malloc s ≡ some t
      → (t.fsm.current_state ≡ idle_rx)
        × (t.fsm.code ≡ p.code)
        × (t.fsm.is_repetition ≡ p.is_repetition)
        × ((t.fsm.is_error ≡ true) ⊎ ((t.fsm.code ≢ 0) ⊎ (t.fsm.is_repetition ≡ true)))
        × (t.fsm.num_edges_detected ≡ 0)
  unfolding rx_fire
  parsed_fire s t nec p o q e h = ground arith

  -- Once the timeout has passed, and the machine is fired, it is idle again, it has no edge left to
  -- look at, and the edges have come to one of: a code, a repetition, neither of them and an error.
  pub timeout-IsOneResult :
      (s t : RxOn B)
      → IsOwned s
      → port.IsBoard s.board
      → IsTimeout s
      → rx_fire malloc s ≡ some t
      → (t.fsm.current_state ≡ idle_rx)
        × (t.fsm.num_edges_detected ≡ 0)
        × (fsm_rx_get_code t.fsm < 2 ^ 32)
        × IsOneResult t.fsm
  unfolding fsm_rx_get_code fsm_rx_get_repetition fsm_rx_get_error_code
  timeout-IsOneResult s t o v out e = elim (Option-cases s.fsm.p_fsm_rx_nec) [
    | inl gone ↦ absurd (o.wait out.0 gone)
    | inr (nec, has) ↦
        let b = (port.get_millis s.board).1 in
        let w = port.get_millis-IsBoard s.board v in
        let (p, q, alone, fits) =
          parse_code-settled nec (edges_at s) (num_edges_at s)
            (port.num_edges-le-length s.fsm.rx_id b w) (port.num_edges-lt s.fsm.rx_id b w) in
        ground (arith, parsed_fire s t nec p out has q e)
  ]

  -- A code that the transmitter has sent, and whose edges are in the buffer, is the receiver's code
  -- once the timeout has passed.
  pub timeout_receives :
      (s t : RxOn B) (code : ℕ) (ws : List (ℕ × ℕ)) (us : List ℕ)
      → IsOwned s
      → port.IsBoard s.board
      → IsTimeout s
      → code < 2 ^ 32
      → AreNear (nominal_wave code) ws
      → IsHeard ws us
      → widths (num_edges_at s) (edges_at s) ≡ us
      → rx_fire malloc s ≡ some t
      → (fsm_rx_get_code t.fsm ≡ code) × (fsm_rx_get_repetition t.fsm ≡ false)
  unfolding fsm_rx_get_code fsm_rx_get_repetition
  timeout_receives s t code ws us o v out fits close hear same e =
      elim (Option-cases s.fsm.p_fsm_rx_nec) [
        | inl gone ↦ absurd (o.wait out.0 gone)
        | inr (nec, has) ↦
            let b = (port.get_millis s.board).1 in
            let w = port.get_millis-IsBoard s.board v in
            let (p, q, its_code, its_mark) =
              heard_wave-parsed code ws us nec (edges_at s) (num_edges_at s) fits close hear
                (port.num_edges-le-length s.fsm.rx_id b w) (port.num_edges-lt s.fsm.rx_id b w)
                same in
            ground (arith, parsed_fire s t nec p out has q e)
      ]

  -- The receiver is switched on by its initialisation: its first call of `fsm_fire` starts it.
  pub starts_switched_on :
      (rx_id : ℕ) (s t u : RxOn B)
      → fsm_rx_init malloc rx_id s ≡ some t
      → rx_fire malloc t ≡ some u
      → (t.fsm.current_state ≡ off_rx)
        × (u.fsm.current_state ≡ idle_rx)
        × (u.fsm.p_fsm_rx_nec ≢ none)
  unfolding fsm_rx_init rx_fire
  starts_switched_on rx_id s t u e h = ground arith
