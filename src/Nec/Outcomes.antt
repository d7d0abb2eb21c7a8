-- ===== src/Nec/Outcomes.antt =====
-- What `fsm_rx_NEC_parse_code` (common/src/fsm_rx_nec.c) returns for whole frames, repetitions,
-- frames that break off, and noise.
use mathlib.Core.List.{append-nil}
use transmisor_receptor_ir.Common.{append_bits, bits_of, append_bits-bits_of, length-bits_of}
use transmisor_receptor_ir.Common.{
  ℕ, zero, suc, ◌+◌, ◌-◌, ◌≤◌, ◌<◌, ◌^◌, ◌≡◌, refl, ap, sym, ◌∙◌, Bool, true, false, Option, some,
  List, [], ◌∷◌, ◌++◌, arith, length, Bool-cases, inl, inr, ◌⊎◌,
}
use transmisor_receptor_ir.Nec.{
  FsmRxNec, Parsed, fsm_rx_nec_parse_code, is_init_silence, is_prologue_pulse, is_repetition_pulse,
}
use transmisor_receptor_ir.Nec.Reference.{
  Mode, idle, skip, init, silence, pulse, Found, advance, decode, widths,
}
use transmisor_receptor_ir.Nec.Correct.{parse_code-decode, decode-end}
use transmisor_receptor_ir.Nec.Frames.{AreSymbols, decode-symbols}

-- The parser returns, with this code and this mark of a repetition.
abbrev pub Returns : Option Parsed → ℕ → Bool → Type 0
Returns o code rep = (p : Parsed) × (o ≡ some p) × (p.code ≡ code) × (p.is_repetition ≡ rep)

-- No width is that of a prologue's silence.
abbrev pub NoPrologue : List ℕ → Type 0
NoPrologue [] = Unit
NoPrologue (w ∷ ws) = (is_init_silence w ≡ false) × NoPrologue ws

abbrev nothing : Found
nothing = record { code = 0; is_repetition = false }

-- The first bits of a frame, whatever follows.
decode-prologue :
    (w v : ℕ) {bs : List Bool} {ws : List ℕ} (k : ℕ) (rest : List ℕ)
    → is_init_silence w ≡ true
    → is_prologue_pulse v ≡ true
    → AreSymbols bs ws
    → length bs + k ≡ 32
    → decode idle nothing (w ∷ v ∷ (ws ++ rest))
      ≡ decode (silence k) (record { code = append_bits 0 bs; is_repetition = false }) rest
unfolding decode advance
decode-prologue w v {bs} {ws} k rest first second sy e =
    ground (arith, decode-symbols sy 32 k nothing rest)

decode-repeat :
    (w v : ℕ) (rest : List ℕ)
    → is_init_silence w ≡ true
    → is_repetition_pulse v ≡ true
    → decode idle nothing (w ∷ v ∷ rest) ≡ record { code = 0; is_repetition = true }
unfolding decode advance
decode-repeat w v rest first second =
    ground (arith, decode-end (record { code = 0; is_repetition = true }) rest)

decode-nil : (m : Mode) (f : Found) → decode m f [] ≡ f
unfolding decode
decode-nil m f = refl

decode_quiet :
    (f : Found) (ws : List ℕ) → NoPrologue ws → (decode idle f ws ≡ f) × (decode skip f ws ≡ f)
unfolding decode advance
decode_quiet f [] q = (refl, refl)
decode_quiet f (w ∷ ws) q = ground (arith, decode_quiet f ws q.1)

-- Between two widths: a repetition ends the parse with no code, and a code is begun at 0.
record IsSettled (m : Mode) (f : Found) : Type 0 where
  ended : f.is_repetition ≡ true → (m ≡ silence 0) × (f.code ≡ 0)
  fresh : m ≡ init → f.code ≡ 0
  fits : f.code < 2 ^ 32

advance-IsSettled :
    (m : Mode) (f : Found) (w : ℕ) → IsSettled m f → IsSettled (advance m f w).0 (advance m f w).1
unfolding advance
advance-IsSettled idle f w s = ground arith
advance-IsSettled skip f w s = ground arith
advance-IsSettled init f w s = ground arith
advance-IsSettled (silence zero) f w s = ground arith
advance-IsSettled (silence (suc k)) f w s = ground arith
advance-IsSettled (pulse k) f w s = ground arith

decode-IsSettled :
    (m : Mode) (f : Found) (ws : List ℕ)
    → IsSettled m f
    → let g = decode m f ws in (g.is_repetition ≡ true → g.code ≡ 0) × (g.code < 2 ^ 32)
unfolding decode
decode-IsSettled m f [] s = ground arith
decode-IsSettled m f (w ∷ ws) s =
    decode-IsSettled (advance m f w).0 (advance m f w).1 ws (advance-IsSettled m f w s)

module _ (p_fsm : FsmRxNec) (edges : List ℕ) (n : ℕ) (inside : n ≤ length edges)
    (small : n < 2 ^ 32) where
  -- From what the reference decoder finds to what the parser returns.
  of_decode :
      (f : Found)
      → decode idle nothing (widths n edges) ≡ f
      → Returns (fsm_rx_nec_parse_code p_fsm (some edges) n) f.code f.is_repetition
  of_decode f e = rw (← e) (parse_code-decode p_fsm edges n inside small)

  module _ (w v : ℕ) (first : is_init_silence w ≡ true) where
    -- A frame whose widths, from the first edge of the array on, are those of a prologue and of the 32
    -- bits of a code is parsed into that code, whatever follows it.
    pub parse_code-frame :
        (code : ℕ) (ws rest : List ℕ)
        → code < 2 ^ 32
        → is_prologue_pulse v ≡ true
        → AreSymbols (bits_of 32 code) ws
        → widths n edges ≡ w ∷ v ∷ (ws ++ rest)
        → Returns (fsm_rx_nec_parse_code p_fsm (some edges) n) code false
    parse_code-frame code ws rest fits second sy e =
        of_decode (record { code = code; is_repetition = false })
          (rw e (
            decode-prologue w v 0 rest first second sy (rw length-bits_of (omega arith))
            ∙ decode-end _ rest
            ∙ ap (λ c. record { code = c; is_repetition = false })
                (append_bits-bits_of 32 code fits fits)))

    -- A prologue's silence with a repetition's pulse is parsed into a repetition, with the code 0,
    -- whatever follows it.
    pub parse_code-repetition :
        (rest : List ℕ)
        → is_repetition_pulse v ≡ true
        → widths n edges ≡ w ∷ v ∷ rest
        → Returns (fsm_rx_nec_parse_code p_fsm (some edges) n) 0 true
    parse_code-repetition rest second e =
        of_decode (record { code = 0; is_repetition = true })
          (rw e (decode-repeat w v rest first second))

    -- A frame that breaks off between two of its bits is parsed into the code that the bits so far
    -- make up, with no mark of an error.
    pub parse_code-truncated :
        (bs : List Bool) (ws : List ℕ)
        → length bs < 32
        → is_prologue_pulse v ≡ true
        → AreSymbols bs ws
        → widths n edges ≡ w ∷ v ∷ ws
        → Returns (fsm_rx_nec_parse_code p_fsm (some edges) n) (append_bits 0 bs) false
    parse_code-truncated bs ws short second sy e =
        of_decode (record { code = append_bits 0 bs; is_repetition = false })
          (rw e (
            ap (λ l. decode idle nothing (w ∷ v ∷ l)) (sym (append-nil ws))
            ∙ decode-prologue w v (32 - length bs) [] first second sy (omega arith)
            ∙ decode-nil (silence (32 - length bs)) _))

  -- Edges among whose widths there is none of a prologue's silence are parsed into no code and no
  -- repetition.
  parse_code-noise :
      NoPrologue (widths n edges) → Returns (fsm_rx_nec_parse_code p_fsm (some edges) n) 0 false
  parse_code-noise q = of_decode nothing (decode_quiet nothing (widths n edges) q).0

  -- Whatever the edges are, the parser returns; a repetition has no code with it, and a code fits
  -- 32 bits.
  pub parse_code-settled :
      (p : Parsed) × (fsm_rx_nec_parse_code p_fsm (some edges) n ≡ some p)
      × ((p.is_repetition ≡ false) ⊎ (p.code ≡ 0))
      × (p.code < 2 ^ 32)
  parse_code-settled =
      let (p, e, same_code, same_mark) = parse_code-decode p_fsm edges n inside small in
      let (alone, fits) = decode-IsSettled idle nothing (widths n edges) (ground arith) in
      (
        p,
        e,
        elim (Bool-cases p.is_repetition) [
          | inl h ↦ inr (same_code ∙ alone (sym same_mark ∙ h))
          | inr h ↦ inl h
        ],
        rw same_code fits,
      )
