-- ===== src/Nec/Frames.antt =====
-- What the parser of common/src/fsm_rx_nec.c makes of whole frames, of repetitions, of frames that
-- break off, and of noise.
use transmisor_receptor_ir.Common.{
  ℕ, zero, suc, ◌+◌, ◌*◌, ◌≡◌, ◌∙◌, Bool, true, false, List, [], ◌∷◌, ◌++◌, arith, u32, length,
  append_bits,
}
use transmisor_receptor_ir.Nec.{is_symbol_silence, is_symbol_0_pulse, is_symbol_1_pulse}
use transmisor_receptor_ir.Nec.Reference.{silence, Found, advance, decode}

-- Widths that are in the tolerances of the symbols of some bits.
pub data AreSymbols : List Bool → List ℕ → Type 0 where
  done : AreSymbols [] []
  zero_bit :
      {bs : List Bool} {ws : List ℕ} {s p : ℕ}
      → is_symbol_silence s ≡ true
      → is_symbol_0_pulse p ≡ true
      → AreSymbols bs ws
      → AreSymbols (false ∷ bs) (s ∷ p ∷ ws)
  one_bit :
      {bs : List Bool} {ws : List ℕ} {s p : ℕ}
      → is_symbol_silence s ≡ true
      → is_symbol_1_pulse p ≡ true
      → AreSymbols bs ws
      → AreSymbols (true ∷ bs) (s ∷ p ∷ ws)

module _ (m s p : ℕ) (ws : List ℕ) (f : Found) (low : is_symbol_silence s ≡ true) where
  decode-symbol_0 :
      is_symbol_0_pulse p ≡ true
      → decode (silence (suc m)) f (s ∷ p ∷ ws)
        ≡ decode (silence m) (record f { code = u32 (f.code * 2 + 0) }) ws
  unfolding decode advance
  decode-symbol_0 high = ground arith

  decode-symbol_1 :
      is_symbol_1_pulse p ≡ true
      → decode (silence (suc m)) f (s ∷ p ∷ ws)
        ≡ decode (silence m) (record f { code = u32 (f.code * 2 + 1) }) ws
  unfolding decode advance
  decode-symbol_1 high = ground arith

pub decode-symbols :
    {bs : List Bool} {ws : List ℕ} (sy : AreSymbols bs ws) (m k : ℕ) (f : Found) (rest : List ℕ)
    → m ≡ length bs + k
    → decode (silence m) f (ws ++ rest)
      ≡ decode (silence k) (record f { code = append_bits f.code bs }) rest
decode-symbols done m k f rest e = ground arith
decode-symbols (zero_bit s p sy) zero k f rest e = absurd (omega arith)
decode-symbols (zero_bit {bs} {ws} {s = s'} {p = p'} s p sy) (suc m) k f rest e =
    decode-symbol_0 m s' p' (ws ++ rest) f s p
    ∙ decode-symbols sy m k (record f { code = u32 (f.code * 2 + 0) }) rest (omega arith)
decode-symbols (one_bit s p sy) zero k f rest e = absurd (omega arith)
decode-symbols (one_bit {bs} {ws} {s = s'} {p = p'} s p sy) (suc m) k f rest e =
    decode-symbol_1 m s' p' (ws ++ rest) f s p
    ∙ decode-symbols sy m k (record f { code = u32 (f.code * 2 + 1) }) rest (omega arith)
