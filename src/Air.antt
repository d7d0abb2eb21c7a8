-- ===== src/Air.antt =====
-- From the transmitter to the receiver's parser: a wave that common/src/fsm_tx.c sends, seen by an
-- infrared receiver, whose output is low while there is a carrier, and measured in ticks of 10 us,
-- as common/src/fsm_rx_nec.c expects it. A tick of the symbol timer lasts 56.25 us.
pub mod Sampled
use transmisor_receptor_ir.Common.{
  ℕ, ◌+◌, ◌*◌, ◌≤◌, ◌<◌, ◌^◌, ◌≡◌, refl, ap, ◌∙◌, Bool, true, false, List, [], ◌∷◌, ◌++◌, map,
  arith, some, length, bits_of,
}
use transmisor_receptor_ir.Nec.{
  FsmRxNec, fsm_rx_nec_parse_code, is_init_silence, is_prologue_pulse, is_symbol_silence,
  is_symbol_0_pulse, is_symbol_1_pulse,
}
use transmisor_receptor_ir.Nec.Reference.{widths}
use transmisor_receptor_ir.Nec.Frames.{AreSymbols, done, zero_bit, one_bit}
use transmisor_receptor_ir.Nec.Outcomes.{Returns, parse_code-frame}
use transmisor_receptor_ir.Tx.{nec_tx_epilogue}
use transmisor_receptor_ir.Tx.Wave.{symbol_of, nominal_wave, IsNear, AreNear, near, none_left}

-- `w` ticks of 10 us are counted in a time of `d` ticks of 56.25 us, whatever the phase.
abbrev pub IsSampled : ℕ → ℕ → Type 0
IsSampled d w = (40 * w ≤ 225 * d + 40) × (225 * d ≤ 40 * w + 40)

-- The widths that the receiver sees of a wave: all but the silence after the last burst.
pub data IsHeard : List (ℕ × ℕ) → List ℕ → Type 0 where
  heard_last : {x : ℕ × ℕ} {w : ℕ} → IsSampled x.0 w → IsHeard (x ∷ []) (w ∷ [])
  heard :
      {x y : ℕ × ℕ} {xs : List (ℕ × ℕ)} {w v : ℕ} {ws : List ℕ}
      → IsSampled x.0 w
      → IsSampled x.1 v
      → IsHeard (y ∷ xs) ws
      → IsHeard (x ∷ y ∷ xs) (w ∷ v ∷ ws)

sampled_0 :
    (x : ℕ × ℕ) (w v : ℕ)
    → IsNear (symbol_of false) x
    → IsSampled x.0 w
    → IsSampled x.1 v
    → (is_symbol_silence w ≡ true) × (is_symbol_0_pulse v ≡ true)
unfolding is_symbol_silence is_symbol_0_pulse
sampled_0 x w v h p q = (ground arith, ground arith)

sampled_1 :
    (x : ℕ × ℕ) (w v : ℕ)
    → IsNear (symbol_of true) x
    → IsSampled x.0 w
    → IsSampled x.1 v
    → (is_symbol_silence w ≡ true) × (is_symbol_1_pulse v ≡ true)
unfolding is_symbol_silence is_symbol_1_pulse
sampled_1 x w v h p q = (ground arith, ground arith)

sampled_prologue :
    (x : ℕ × ℕ) (w v : ℕ)
    → IsNear (160, 80) x
    → IsSampled x.0 w
    → IsSampled x.1 v
    → (is_init_silence w ≡ true) × (is_prologue_pulse v ≡ true)
unfolding is_init_silence is_prologue_pulse
sampled_prologue x w v h p q = (ground arith, ground arith)

not-AreNear-nil : {n : ℕ × ℕ} {ns : List (ℕ × ℕ)} → AreNear (n ∷ ns) [] → ⊥
not-AreNear-nil h = elim h [ ]

some_left : (bs : List Bool) → AreNear (map symbol_of bs ++ nec_tx_epilogue ∷ []) [] → ⊥
some_left [] h = not-AreNear-nil h
some_left (b ∷ bs) h = not-AreNear-nil h

-- The symbols of the bits, and the burst that ends them.
heard_symbols :
    (bs : List Bool) {ws : List (ℕ × ℕ)} {us : List ℕ}
    → AreNear (map symbol_of bs ++ nec_tx_epilogue ∷ []) ws
    → IsHeard ws us
    → (ss : List ℕ) × (w : ℕ) × AreSymbols bs ss × (us ≡ ss ++ w ∷ [])
heard_symbols [] (near h none_left) (heard_last {w} s) = ([], w, done, refl)
heard_symbols (false ∷ bs) (near h n) (heard_last s) = absurd (some_left bs n)
heard_symbols (true ∷ bs) (near h n) (heard_last s) = absurd (some_left bs n)
heard_symbols (false ∷ bs) (near h n) (heard {x} {w} {v} s t r) =
    let (ss, u, symbols, e) = heard_symbols bs n r in
    let (low, high) = sampled_0 x w v h s t in
    (w ∷ v ∷ ss, u, zero_bit low high symbols, ap (λ l. w ∷ v ∷ l) e)
heard_symbols (true ∷ bs) (near h n) (heard {x} {w} {v} s t r) =
    let (ss, u, symbols, e) = heard_symbols bs n r in
    let (low, high) = sampled_1 x w v h s t in
    (w ∷ v ∷ ss, u, one_bit low high symbols, ap (λ l. w ∷ v ∷ l) e)

heard_frame :
    (code : ℕ) {ws : List (ℕ × ℕ)} {us : List ℕ}
    → AreNear (nominal_wave code) ws
    → IsHeard ws us
    → (w v u : ℕ) × (ss : List ℕ) × (is_init_silence w ≡ true)
      × (is_prologue_pulse v ≡ true)
      × AreSymbols (bits_of 32 code) ss
      × (us ≡ w ∷ v ∷ (ss ++ u ∷ []))
unfolding nominal_wave
heard_frame code (near h n) (heard_last s) = absurd (some_left (bits_of 32 code) n)
heard_frame code (near h n) (heard {x} {w} {v} s t r) =
    let (ss, u, symbols, e) = heard_symbols (bits_of 32 code) n r in
    let (first, second) = sampled_prologue x w v h s t in
    (w, v, u, ss, first, second, symbols, ap (λ l. w ∷ v ∷ l) e)

-- The parser gives back the code of a wave that is near the code's frame, as the transmitter's is,
-- whatever the phase of the receiver's timer and wherever its 16-bit count wraps.
pub heard_wave-parsed :
    (code : ℕ) (ws : List (ℕ × ℕ)) (us : List ℕ) (p_fsm : FsmRxNec) (edges : List ℕ) (n : ℕ)
    → code < 2 ^ 32
    → AreNear (nominal_wave code) ws
    → IsHeard ws us
    → n ≤ length edges
    → n < 2 ^ 32
    → widths n edges ≡ us
    → Returns (fsm_rx_nec_parse_code p_fsm (some edges) n) code false
heard_wave-parsed code ws us p_fsm edges n fits h r inside small e =
    let (w, v, u, ss, first, second, symbols, e') = heard_frame code h r in
    parse_code-frame p_fsm edges n inside small w v first code ss (u ∷ []) fits second symbols
      (e ∙ e')
