-- ===== src/Air/Sampled.antt =====
-- A wave in time: when its bursts begin and end, in cycles of the core's clock of 16 MHz, and what
-- the timer of port/nucleo_stm32f446re/src/port_rx.c counts then. The symbol timer of port_tx.c
-- ticks every 900 cycles, and the receiver's counts every 160, in 16 bits.
use transmisor_receptor_ir.Common.{
  ℕ, suc, ◌+◌, ◌*◌, ◌/◌, ◌≤◌, ◌<◌, ◌^◌, ◌≡◌, refl, ap, Bool, true, false, List, [], ◌∷◌, ◌++◌, map,
  arith, some, length, bits_of, u16, sub16,
}
use transmisor_receptor_ir.Nec.{FsmRxNec, fsm_rx_nec_parse_code}
use transmisor_receptor_ir.Nec.Reference.{widths}
use transmisor_receptor_ir.Nec.Outcomes.{Returns}
use transmisor_receptor_ir.Ticker.{reads_for}
use transmisor_receptor_ir.Tx.Port.{TxPort}
use transmisor_receptor_ir.Tx.{fsm_send_nec_code, nec_tx_epilogue}
use transmisor_receptor_ir.Tx.Wave.{
  symbol_of, nominal_wave, IsNear, AreNear, near, none_left, Emits, fsm_send_nec_code-wave,
}
use transmisor_receptor_ir.Air.{IsSampled, IsHeard, heard_last, heard, heard_wave-parsed}

abbrev pub symbol_cycles : ℕ
symbol_cycles = 900

abbrev pub count_cycles : ℕ
count_cycles = 160

-- The times of the edges of a wave that begins at the time `t`.
abbrev pub edge_times : ℕ → List (ℕ × ℕ) → List ℕ
edge_times t [] = []
edge_times t ((on, off) ∷ ws) =
    t ∷ (t + symbol_cycles * on) ∷ edge_times (t + symbol_cycles * on + symbol_cycles * off) ws

-- The timer's count at a time.
abbrev pub count_at : ℕ → ℕ
count_at t = u16 (t / count_cycles)

abbrev pub edge_counts : ℕ → List (ℕ × ℕ) → List ℕ
edge_counts t ws = map count_at (edge_times t ws)

-- The time between two edges is counted right, but for the two ends of it, where the count does not
-- wrap more than once.
count_at-IsSampled :
    (t d : ℕ) → d < 10000 → IsSampled d (sub16 (count_at (t + symbol_cycles * d)) (count_at t))
count_at-IsSampled t d short = (omega arith, omega arith)

-- No duration is too long to be counted, but for the last silence.
abbrev AreShort : List (ℕ × ℕ) → Type 0
AreShort [] = 0 < 1
AreShort ((on, off) ∷ []) = on < 10000
AreShort ((on, off) ∷ w ∷ ws) = (on < 10000) × (off < 10000) × AreShort (w ∷ ws)

abbrev seen : ℕ → List (ℕ × ℕ) → List ℕ
seen t ws = widths (length (edge_counts t ws)) (edge_counts t ws)

AreShort-IsHeard :
    (t : ℕ) (x : ℕ × ℕ) (ws : List (ℕ × ℕ)) → AreShort (x ∷ ws) → IsHeard (x ∷ ws) (seen t (x ∷ ws))
unfolding widths
AreShort-IsHeard t (on, off) [] s = heard_last (count_at-IsSampled t on s)
AreShort-IsHeard t (on, off) ((on', off') ∷ ws) (first, second, s) =
    let t' = t + symbol_cycles * on in
    heard (count_at-IsSampled t on first) (count_at-IsSampled t' off second)
      (AreShort-IsHeard (t' + symbol_cycles * off) (on', off') ws s)

near_short : (n w : ℕ × ℕ) → IsNear n w → n.0 < 5000 → n.1 < 5000 → (w.0 < 10000) × (w.1 < 10000)
near_short n w h a b = (omega arith, omega arith)

symbol_short : (b : Bool) → ((symbol_of b).0 < 5000) × ((symbol_of b).1 < 5000)
symbol_short true = (omega arith, omega arith)
symbol_short false = (omega arith, omega arith)

symbols-AreShort :
    (bs : List Bool) {ws : List (ℕ × ℕ)}
    → AreNear (map symbol_of bs ++ nec_tx_epilogue ∷ []) ws
    → AreShort ws
symbols-AreShort [] (near {w} h none_left) =
    (near_short nec_tx_epilogue w h (omega arith) (omega arith)).0
symbols-AreShort (b ∷ []) (near {w} h (near {w = v} k none_left)) =
    let (p, q) = symbol_short b in
    let (first, second) = near_short (symbol_of b) w h p q in
    (first, second, (near_short nec_tx_epilogue v k (omega arith) (omega arith)).0)
symbols-AreShort (b ∷ c ∷ bs) (near {w} h (near {w = v} {ws} k n)) =
    let (p, q) = symbol_short b in
    let (first, second) = near_short (symbol_of b) w h p q in
    (first, second, symbols-AreShort (c ∷ bs) (near {w = v} k n))

-- A frame is heard, whenever it begins and whatever the count is then.
pub AreNear-IsHeard :
    (code t : ℕ) {ws : List (ℕ × ℕ)} → AreNear (nominal_wave code) ws → IsHeard ws (seen t ws)
unfolding nominal_wave bits_of
AreNear-IsHeard code t (near {w = (on, off)} h (near {w = v} {ws} k n)) =
    let (first, second) = near_short (160, 80) (on, off) h (omega arith) (omega arith) in
    AreShort-IsHeard t (on, off) (v ∷ ws)
      (first, second, symbols-AreShort (bits_of 32 code) (near {w = v} {ws = ws} k n))

length-AreNear : {ns ws : List (ℕ × ℕ)} → AreNear ns ws → length ws ≡ length ns
length-AreNear none_left = refl
length-AreNear (near h n) = ap suc (length-AreNear n)

pub length-edge_counts : (t : ℕ) (ws : List (ℕ × ℕ)) → length (edge_counts t ws) ≡ 2 * length ws
length-edge_counts t [] = omega arith
length-edge_counts t ((on, off) ∷ ws) =
    omega (arith, length-edge_counts (t + symbol_cycles * on + symbol_cycles * off) ws)

-- A frame has 68 edges.
pub length-edge_counts_frame :
    (code t : ℕ) {ws : List (ℕ × ℕ)}
    → AreNear (nominal_wave code) ws
    → length (edge_counts t ws) ≡ 68
unfolding nominal_wave bits_of
length-edge_counts_frame code t {ws} n = omega (arith, length-edge_counts t ws, length-AreNear n)

module _ {B : Type 0} ⦃port : TxPort B⦄ (fuel : ℕ) where
  -- A code crosses the air: with fuel for the longest wait, sending a code below 2^32 returns, and
  -- at the ticks of the symbol timer since its start the carrier has been on and off as in a wave;
  -- and whatever the time and the receiver's count are when this wave begins, the receiver's
  -- parser makes of the counts at its edges this code, and no repetition.
  pub code_crosses :
      (code t : ℕ) (b : B) (p_fsm : FsmRxNec)
      → code < 2 ^ 32
      → reads_for port.period 3570 ≤ fuel
      → port.IsBoard b
      → (c : B) × (ws : List (ℕ × ℕ)) × (fsm_send_nec_code fuel 0 code b ≡ some c)
        × Emits (port.symbol_tmr_start b) ws c
        × Returns
            (fsm_rx_nec_parse_code p_fsm (some (edge_counts t ws)) (length (edge_counts t ws)))
            code
            false
  code_crosses code t b p_fsm fits enough v =
      let (c, ws, e, p, n, _) = fsm_send_nec_code-wave fuel code b enough v in
      let len = length-edge_counts_frame code t n in
      (
        c,
        ws,
        e,
        p,
        heard_wave-parsed code ws (seen t ws) p_fsm (edge_counts t ws) (length (edge_counts t ws))
            fits n (AreNear-IsHeard code t n) (omega arith) (omega arith) refl,
      )
