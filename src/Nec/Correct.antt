-- ===== src/Nec/Correct.antt =====
-- The parser's loop (common/src/fsm_rx_nec.c) against the reference decoder: it ends, it reads only
-- the edges that it was given, and it finds what the decoder finds.
use mathlib.Core.Option
use transmisor_receptor_ir.Common.{
  ℕ, zero, suc, ◌+◌, ◌-◌, ◌*◌, ◌≤◌, ◌<◌, ◌^◌, ◌≡◌, refl, Bool, true, false, Option, none, some,
  List, [], ◌∷◌, arith, u32, length,
}
use transmisor_receptor_ir.Nec.{FsmRxNec, Parsed, parse_loop, fsm_rx_nec_parse_code}
use transmisor_receptor_ir.Nec.Reference.{
  Mode, idle, skip, init, silence, pulse, Found, advance, decode, widths,
}
use transmisor_receptor_ir.Nec.Step.{at, idle_fire, init_fire, silence_fire, pulse_fire}

abbrev pub mode_of : ℕ → ℕ → Mode
mode_of zero bits = idle
mode_of (suc zero) bits = init
mode_of (suc (suc zero)) bits = silence bits
mode_of (suc (suc (suc q))) bits = pulse bits

abbrev pub found : FsmRxNec → Found
found s = record { code = s.code; is_repetition = s.is_repetition }

-- How many rounds of the loop a state may still take.
abbrev pub rounds_left : ℕ → ℕ → ℕ
rounds_left zero n = 2 * n
rounds_left (suc q) n = 2 * n + 1

-- The state of a machine that reads `l`, of which `n` edges are left.
record IsReading (q : ℕ) (l : List ℕ) (n bits : ℕ) : Type 0 where
  known : q ≤ 3
  inside : n ≤ length l
  small : n < 2 ^ 32
  few : 2 ≤ q → bits ≤ 32
  unread : q ≡ 3 → 0 < bits

abbrev outcome : Option FsmRxNec → Option Found
outcome = Option.map found

decode-skip :
    (f : Found) (n b : ℕ) (r : List ℕ)
    → n ≤ length r
    → decode skip f (widths (suc n) (b ∷ r)) ≡ decode idle f (widths n r)
unfolding decode widths advance
decode-skip f zero b r h = refl
decode-skip f (suc zero) b [] h = refl
decode-skip f (suc zero) b (c ∷ r) h = refl
decode-skip f (suc (suc n)) b [] h = absurd (omega arith)
decode-skip f (suc (suc n)) b (c ∷ []) h = absurd (omega arith)
decode-skip f (suc (suc n)) b (c ∷ d ∷ r) h = refl

pub decode-end : (f : Found) (ws : List ℕ) → decode (silence 0) f ws ≡ f
unfolding decode advance
decode-end f [] = refl
decode-end f (w ∷ ws) = decode-end f ws

loop-decode :
    (fuel q : ℕ) (l : List ℕ) (n bits code : ℕ) (rep : Bool)
    → IsReading q l n bits
    → rounds_left q n < fuel
    → outcome (parse_loop fuel (at q l n bits code rep))
      ≡ some (decode (mode_of q bits) (record { code = code; is_repetition = rep }) (widths n l))
unfolding parse_loop decode widths advance
loop-decode zero q l n bits code rep v e = absurd (omega arith)
loop-decode (suc fuel) q l zero bits code rep v e = refl
loop-decode (suc fuel) q l (suc zero) bits code rep v e = refl
loop-decode (suc fuel) q [] (suc (suc n)) bits code rep v e = absurd (omega (arith, v.inside))
loop-decode (suc fuel) q (a ∷ []) (suc (suc n)) bits code rep v e = absurd (omega (arith, v.inside))
loop-decode (suc fuel) zero (a ∷ b ∷ r) (suc (suc n)) bits code rep v e = ground (
  arith,
  idle_fire a b r n bits code rep,
  loop-decode fuel 1 (b ∷ r) (suc n) bits 0 rep,
  loop-decode fuel 0 r n bits code rep,
  decode-skip (record { code = code; is_repetition = rep }) n b r,
)
loop-decode (suc fuel) (suc zero) (a ∷ b ∷ r) (suc (suc n)) bits code rep v e = ground (
  arith,
  init_fire a b r n bits code rep,
  loop-decode fuel 2 (b ∷ r) (suc n) 32 code false,
  loop-decode fuel 2 (b ∷ r) (suc n) 0 code true,
  loop-decode fuel 0 (b ∷ r) (suc n) bits code rep,
)
loop-decode (suc fuel) (suc (suc zero)) (a ∷ b ∷ r) (suc (suc n)) zero code rep v e = ground (
  arith,
  silence_fire a b r n 0 code rep,
  loop-decode fuel 0 (a ∷ b ∷ r) 0 0 code rep,
  decode-end (record { code = code; is_repetition = rep }) (widths (suc n) (b ∷ r)),
)
loop-decode (suc fuel) (suc (suc zero)) (a ∷ b ∷ r) (suc (suc n)) (suc k) code rep v e = ground (
  arith,
  silence_fire a b r n (suc k) code rep,
  loop-decode fuel 3 (b ∷ r) (suc n) (suc k) code rep,
  loop-decode fuel 0 (a ∷ b ∷ r) (suc (suc n)) (suc k) code rep,
)
loop-decode (suc fuel) (suc (suc (suc zero))) (a ∷ b ∷ r) (suc (suc n)) bits code rep v e = ground (
  arith,
  pulse_fire a b r n bits code rep,
  loop-decode fuel 2 (b ∷ r) (suc n) (bits - 1) (u32 (code * 2)) rep,
  loop-decode fuel 2 (b ∷ r) (suc n) (bits - 1) (u32 (code * 2 + 1)) rep,
  loop-decode fuel 0 (b ∷ r) (suc n) bits code rep,
)
loop-decode (suc fuel) (suc (suc (suc (suc q)))) (a ∷ b ∷ r) (suc (suc n)) bits code rep v e =
    absurd (omega (arith, v.known))

-- Given at least as many edges as it is told of, the parser returns, with no read outside the
-- array, and what it returns is what the reference decoder finds in the widths between the edges.
pub parse_code-decode :
    (p_fsm : FsmRxNec) (edges : List ℕ) (n : ℕ)
    → n ≤ length edges
    → n < 2 ^ 32
    → let f = decode idle (record { code = 0; is_repetition = false }) (widths n edges) in
      (p : Parsed) × (fsm_rx_nec_parse_code p_fsm (some edges) n ≡ some p)
      × (p.code ≡ f.code)
      × (p.is_repetition ≡ f.is_repetition)
unfolding fsm_rx_nec_parse_code
parse_code-decode p_fsm edges n inside small =
    finish (parse_loop (2 * n + 1) (at 0 edges n bits 0 false)) refl
  where
    bits : ℕ
    bits = p_fsm.bits_remaining_to_read

    finish :
        (o : Option FsmRxNec)
        → parse_loop (2 * n + 1) (at 0 edges n bits 0 false) ≡ o
        → let f = decode idle (record { code = 0; is_repetition = false }) (widths n edges) in
          (p : Parsed) × (fsm_rx_nec_parse_code p_fsm (some edges) n ≡ some p)
          × (p.code ≡ f.code)
          × (p.is_repetition ≡ f.is_repetition)
    finish none e = absurd (ground (arith, loop-decode (2 * n + 1) 0 edges n bits 0 false))
    finish (some s) e = (
      record { machine = s; is_repetition = s.is_repetition; code = s.code },
      rw e,
      ground (arith, loop-decode (2 * n + 1) 0 edges n bits 0 false),
      ground (arith, loop-decode (2 * n + 1) 0 edges n bits 0 false),
    )
