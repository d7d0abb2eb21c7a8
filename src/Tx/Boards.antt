-- ===== src/Tx/Boards.antt =====
-- What sending leaves of the board (common/src/fsm_tx.c): what every call that it makes keeps.
use transmisor_receptor_ir.Common.{
  ℕ, zero, suc, ◌/◌, ◌≡◌, Bool, true, false, Bool-cases, inl, inr, Option-cases, some, arith, ltb,
  bit_and, ◌==◌, if◌then◌else◌, ◌^◌,
}
use transmisor_receptor_ir.Ticker.{wait_until}
use transmisor_receptor_ir.Tx.Port.{TxPort}
use transmisor_receptor_ir.Tx.{
  TxOn, symbol_ticker, wait_for_tx_ticks, send_nec_burst, send_bits, fsm_send_nec_code, tx_fire,
  nec_tx_prologue, nec_tx_sym_0, nec_tx_sym_1, nec_tx_epilogue,
}

module _ {B : Type 0} ⦃port : TxPort B⦄ (IsBoard : B → Type 0)
    (start : (b : B) → IsBoard b → IsBoard (port.symbol_tmr_start b))
    (stop : (b : B) → IsBoard b → IsBoard (port.symbol_tmr_stop b))
    (pwm : (id : ℕ) (on : Bool) (b : B) → IsBoard b → IsBoard (port.pwm_timer_set id on b))
    (tick : (b : B) → IsBoard b → IsBoard (port.tmr_get_tick b).1) (fuel : ℕ) where
  wait_until-IsBoard :
      (f initial_tick ticks : ℕ) (b c : B)
      → IsBoard b
      → wait_until (symbol_ticker port) f initial_tick ticks b ≡ some c
      → IsBoard c
  unfolding wait_until
  wait_until-IsBoard zero initial_tick ticks b c v e = absurd (ground arith)
  wait_until-IsBoard (suc f) initial_tick ticks b c v e =
      let v' = tick b v in
      ground (arith, wait_until-IsBoard f initial_tick ticks (port.tmr_get_tick b).1 c v')

  wait_for_tx_ticks-IsBoard :
      (ticks : ℕ) (b c : B) → IsBoard b → wait_for_tx_ticks fuel ticks b ≡ some c → IsBoard c
  unfolding wait_for_tx_ticks
  wait_for_tx_ticks-IsBoard ticks b c v e = wait_until-IsBoard fuel _ ticks _ c (tick b v) e

  send_nec_burst-IsBoard :
      (id : ℕ) (burst : ℕ × ℕ) (b c : B)
      → IsBoard b
      → send_nec_burst fuel id burst b ≡ some c
      → IsBoard c
  unfolding send_nec_burst
  send_nec_burst-IsBoard id (ticks_on, ticks_off) b c v e =
      elim (Option-cases (wait_for_tx_ticks fuel ticks_on (port.pwm_timer_set id true b))) [
        | inl p ↦ absurd (ground arith)
        | inr (d, p) ↦
            let w = wait_for_tx_ticks-IsBoard ticks_on _ d (pwm id true b v) p in
            wait_for_tx_ticks-IsBoard ticks_off _ c (pwm id false d w) (ground arith)
      ]

  send_bits-IsBoard :
      (rounds id code bit_mask : ℕ) (b c : B)
      → IsBoard b
      → send_bits fuel rounds id code bit_mask b ≡ some c
      → IsBoard c
  unfolding send_bits
  send_bits-IsBoard zero id code bit_mask b c v e = absurd (ground arith)
  send_bits-IsBoard (suc rounds) id code bit_mask b c v e =
      let burst = if bit_and code bit_mask == 0 then nec_tx_sym_0 else nec_tx_sym_1 in
      elim (Bool-cases (ltb 0 bit_mask)) [
        | inl more ↦ elim (Option-cases (send_nec_burst fuel id burst b)) [
          | inl p ↦ absurd (ground arith)
          | inr (d, p) ↦
              send_bits-IsBoard rounds id code (bit_mask / 2) d c
                (send_nec_burst-IsBoard id burst b d v p) (ground arith)
        ]
        | inr over ↦ ground arith
      ]

  fsm_send_nec_code-IsBoard :
      (id code : ℕ) (b c : B) → IsBoard b → fsm_send_nec_code fuel id code b ≡ some c → IsBoard c
  unfolding fsm_send_nec_code
  fsm_send_nec_code-IsBoard id code b c v e =
      elim (Option-cases (send_nec_burst fuel id nec_tx_prologue (port.symbol_tmr_start b))) [
        | inl p ↦ absurd (ground arith)
        | inr (d, p) ↦
            let w = send_nec_burst-IsBoard id nec_tx_prologue _ d (start b v) p in
            elim (Option-cases (send_bits fuel 33 id code (2 ^ 31) d)) [
              | inl q ↦ absurd (ground arith)
              | inr (l, q) ↦
                  let w' = send_bits-IsBoard 33 id code (2 ^ 31) d l w q in
                  elim (Option-cases (send_nec_burst fuel id nec_tx_epilogue l)) [
                    | inl h ↦ absurd (ground arith)
                    | inr (m, h) ↦
                        let w'' = stop m (send_nec_burst-IsBoard id nec_tx_epilogue l m w' h) in
                        ground arith
                  ]
            ]
      ]

  pub tx_fire-IsBoard : (s t : TxOn B) → IsBoard s.board → tx_fire fuel s ≡ some t → IsBoard t.board
  unfolding tx_fire
  tx_fire-IsBoard s t v e =
      ground (arith, fsm_send_nec_code-IsBoard s.fsm.tx_id s.fsm.code s.board t.board v)
