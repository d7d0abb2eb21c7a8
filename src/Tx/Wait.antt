-- ===== src/Tx/Wait.antt =====
-- How long the transmitter's waits last, and that they end (common/src/fsm_tx.c,
-- `_wait_for_tx_ticks`).
use transmisor_receptor_ir.Common.{
  ℕ, ◌+◌, ◌≤◌, ◌<◌, ◌^◌, ◌≡◌, ◌∙◌, ap, ◌++◌, replicate, append-replicate, arith, Option, some,
}
use transmisor_receptor_ir.Ticker.{Reads, read_once, read_more, reads_for, wait_from_now}
use transmisor_receptor_ir.Tx.Port.{TxPort}
use transmisor_receptor_ir.Tx.{symbol_ticker, wait_for_tx_ticks}

module _ {B : Type 0} ⦃port : TxPort B⦄ where
  open port use {IsRunning, symbols, carrier, period}

  -- What a wait of `n` ticks comes to: the symbol timer runs on, and each of the ticks finds the
  -- carrier as it is at the start.
  abbrev pub Waits : Option B → B → ℕ → Type 0
  Waits o b n =
      (c : B) × (o ≡ some c)
      × (symbols c ≡ symbols b + n)
      × (port.on_air c ≡ port.on_air b ++ replicate n (carrier b))
      × (carrier c ≡ carrier b)
      × IsRunning c

  -- Reads of the tick leave the carrier as it is.
  carrier-Reads : {b c : B} → Reads (symbol_ticker port) b c → carrier c ≡ carrier b
  carrier-Reads (read_once {b} e) = rw e (port.carrier-tmr_get_tick b)
  carrier-Reads (read_more {b} r) = carrier-Reads r ∙ port.carrier-tmr_get_tick b

  -- The ticks that reads of the tick let come find the carrier as it is.
  on_air-Reads :
      {b c : B}
      → Reads (symbol_ticker port) b c
      → IsRunning b
      → (n : ℕ) × (symbols c ≡ symbols b + n)
        × (port.on_air c ≡ port.on_air b ++ replicate n (carrier b))
  on_air-Reads (read_once {b} e) v = rw e (port.on_air-tmr_get_tick b v)
  on_air-Reads (read_more {b} {c} r) v =
      let d = (port.tmr_get_tick b).1 in
      let (m, s, p) = port.on_air-tmr_get_tick b v in
      let (n, s', p') = on_air-Reads r (port.tmr_get_tick-IsRunning b v) in
      (
        m + n,
        omega (arith, s, s'),
        p'
            ∙ ap (λ l. l ++ replicate n (carrier d)) p
            ∙ ap (λ a. (port.on_air b ++ replicate m (carrier b)) ++ replicate n a)
                (port.carrier-tmr_get_tick b)
            ∙ append-replicate m n (carrier b) (port.on_air b),
      )

  -- A wait ends, and takes as many ticks as it is asked for, or one more: the first read of the
  -- tick may already find a new one.
  pub wait_for_tx_ticks_lem :
      (fuel ticks : ℕ) (b : B)
      → IsRunning b
      → 0 < ticks
      → ticks < 2 ^ 32
      → reads_for period ticks ≤ fuel
      → (n : ℕ) × Waits (wait_for_tx_ticks fuel ticks b) b n × (ticks ≤ n) × (n ≤ ticks + 1)
  unfolding wait_for_tx_ticks
  wait_for_tx_ticks_lem fuel ticks b v some_ticks small enough =
      let (n, (c, e, s, w, r), lo, hi) =
        wait_from_now (symbol_ticker port) fuel ticks b v some_ticks small enough in
      let (m, s', p) = on_air-Reads r v in
      let same : m ≡ n = omega (arith, s, s') in
      (
        n,
        (c, e, s, p ∙ ap (λ k. port.on_air b ++ replicate k (carrier b)) same, carrier-Reads r, w),
        lo,
        hi,
      )
