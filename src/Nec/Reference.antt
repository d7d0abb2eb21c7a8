-- ===== src/Nec/Reference.antt =====
-- A reference decoder: what common/src/fsm_rx_nec.c is meant to compute, one width (the ticks
-- between an edge and the next) at a time, with no table, no pointer and no counter of edges.
use transmisor_receptor_ir.Common.{
  ℕ, zero, suc, ◌+◌, ◌-◌, ◌*◌, Bool, true, false, List, [], ◌∷◌, if◌then◌else◌, sub16, u32,
}
use transmisor_receptor_ir.Nec.Defs.{nec_frame_bits}
use transmisor_receptor_ir.Nec.Ranges.{
  is_init_silence, is_prologue_pulse, is_repetition_pulse, is_symbol_silence, is_symbol_0_pulse,
  is_symbol_1_pulse,
}

-- What the next width is held against. `silence 0` is the end of a frame.
pub data Mode : Type 0 where
  idle skip init : Mode
  silence pulse : (bits_left : ℕ) → Mode

pub record Found : Type 0 where
  pub code : ℕ
  pub is_repetition : Bool

unfoldable pub seek : Found → ℕ → Mode × Found
unfolding is_init_silence
seek f w = if is_init_silence w then (init, record f { code = 0 }) else (skip, f)

unfoldable pub advance : Mode → Found → ℕ → Mode × Found
unfolding seek is_prologue_pulse is_repetition_pulse is_symbol_silence is_symbol_0_pulse
    is_symbol_1_pulse
advance idle f w = seek f w
advance skip f w = (idle, f)
advance init f w =
    if is_prologue_pulse w
    then (silence nec_frame_bits, record f { is_repetition = false })
    else if is_repetition_pulse w
    then (silence 0, record f { is_repetition = true })
    else (idle, f)
advance (silence zero) f w = (silence 0, f)
advance (silence (suc k)) f w = if is_symbol_silence w then (pulse (suc k), f) else seek f w
advance (pulse k) f w =
    if is_symbol_0_pulse w
    then (silence (k - 1), record f { code = u32 (f.code * 2) })
    else if is_symbol_1_pulse w
    then (silence (k - 1), record f { code = u32 (f.code * 2 + 1) })
    else (idle, f)

unfoldable pub decode : Mode → Found → List ℕ → Found
decode m f [] = f
decode m f (w ∷ ws) = decode (advance m f w).0 (advance m f w).1 ws

-- The widths between the first `n` edges of an array.
unfoldable pub widths : ℕ → List ℕ → List ℕ
widths (suc (suc n)) (a ∷ b ∷ r) = sub16 b a ∷ widths (suc n) (b ∷ r)
widths _ _ = []
