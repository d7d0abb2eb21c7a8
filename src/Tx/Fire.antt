-- ===== src/Tx/Fire.antt =====
-- What firing the transmitter's machine comes to (common/src/fsm_tx.c).
use transmisor_receptor_ir.Common.{
  List, ℕ, ◌≤◌, ◌≡◌, ◌≢◌, Bool-cases, inl, inr, refl, some, arith, ◌==◌,
}
use transmisor_receptor_ir.Tx.Port.{TxPort}
use transmisor_receptor_ir.Tx.{FsmTx, TxOn, wait_tx, tx_fire, fsm_send_nec_code}
use transmisor_receptor_ir.Ticker.{reads_for}
use transmisor_receptor_ir.Tx.Wave.{Emits, AreNear, nominal_wave, fsm_send_nec_code-wave}

-- Between two calls: the machine's only state, and its only transmitter.
pub record IsWaiting (f : FsmTx) : Type 0 where
  pub state : f.current_state ≡ wait_tx
  pub transmitter : f.tx_id ≡ 0

module _ {B : Type 0} ⦃port : TxPort B⦄ where
  -- The wave of the code: what the carrier does from the start of the symbol timer, after `b`, to
  -- `c`.
  pub record Sent (code : ℕ) (b c : B) : Type 0 where
    pub wave : List (ℕ × ℕ)
    pub emits : Emits (port.symbol_tmr_start b) wave c
    pub near_nominal : AreNear (nominal_wave code) wave

module _ {B : Type 0} ⦃port : TxPort B⦄ (fuel : ℕ) where
  pub idle_fire : (s : TxOn B) → s.fsm.code ≡ 0 → tx_fire fuel s ≡ some s
  unfolding tx_fire
  idle_fire s z = ground arith

  sending_fire :
      (s : TxOn B) (c : B)
      → IsWaiting s.fsm
      → s.fsm.code ≢ 0
      → fsm_send_nec_code fuel 0 s.fsm.code s.board ≡ some c
      → tx_fire fuel s ≡ some (record { fsm = record (s.fsm) { code = 0 }; board = c })
  unfolding tx_fire
  sending_fire s c w z e = ground arith

  -- With enough reads of the tick for the longest wait, a code that is set is sent and gone.
  pub tx_fire-Sent :
      (s : TxOn B)
      → reads_for port.period 3570 ≤ fuel
      → IsWaiting s.fsm
      → s.fsm.code ≢ 0
      → port.IsBoard s.board
      → (t : TxOn B) × (tx_fire fuel s ≡ some t)
        × (t.fsm.code ≡ 0)
        × Sent s.fsm.code s.board t.board
  tx_fire-Sent s enough w z v =
      let (c, ws, e, p, q, _) = fsm_send_nec_code-wave fuel s.fsm.code s.board enough v in
      (
        record { fsm = record (s.fsm) { code = 0 }; board = c },
        sending_fire s c w z e,
        refl,
        record { wave = ws; emits = p; near_nominal = q },
      )

  -- With enough reads of the tick for the longest wait, a call of `fsm_fire` returns, the code has
  -- been sent and is gone, and the board is one that can occur.
  pub tx_fire_total :
      (s : TxOn B)
      → reads_for port.period 3570 ≤ fuel
      → IsWaiting s.fsm
      → port.IsBoard s.board
      → (t : TxOn B) × (tx_fire fuel s ≡ some t)
        × (t.fsm.code ≡ 0)
        × IsWaiting t.fsm
        × port.IsBoard t.board
  tx_fire_total s enough w v = elim (Bool-cases (s.fsm.code == 0)) [
    | inl z ↦ (s, idle_fire s (ground arith), ground arith, w, v)
    | inr z ↦
        let (c, ws, e, _, _, v') = fsm_send_nec_code-wave fuel s.fsm.code s.board enough v in
        (
          record { fsm = record (s.fsm) { code = 0 }; board = c },
          sending_fire s c w (ground arith) e,
          refl,
          record { state = w.state; transmitter = w.transmitter },
          v',
        )
  ]
