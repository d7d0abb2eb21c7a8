-- ===== src/Tests/Nec.antt =====
-- Frames as the parser of common/src/fsm_rx_nec.c sees them.
use transmisor_receptor_ir.Common.{
  ℕ, ◌+◌, ◌<◌, ◌^◌, ◌≡◌, refl, Bool, true, false, none, some, List, [], ◌∷◌, ◌++◌, arith, ◌⊎◌, pos,
  u16, bits_of, append_bits,
}
use transmisor_receptor_ir.Nec.{
  FsmRxNec, Parsed, fsm_rx_nec_parse_code, is_init_silence, is_prologue_pulse, is_repetition_pulse,
  is_symbol_silence, is_symbol_0_pulse, is_symbol_1_pulse,
}
use transmisor_receptor_ir.Nec.Reference.{idle, decode, widths}
use transmisor_receptor_ir.Nec.Frames.{AreSymbols, done, zero_bit, one_bit}
use transmisor_receptor_ir.Nec.Correct.{parse_code-decode}
use transmisor_receptor_ir.Nec.Outcomes.{
  Returns, parse_code-frame, parse_code-repetition, parse_code-truncated, parse_code-settled,
}

abbrev pub some_parser : FsmRxNec
some_parser = record {
  current_state = pos 3;
  p_edge_ticks = none;
  num_edges_to_read = 5;
  bits_remaining_to_read = 7;
  code = 11;
  is_repetition = true;
}

-- The widths of a sequence of bits.
abbrev pub symbols_of : List Bool → List ℕ
symbols_of [] = []
symbols_of (false ∷ bs) = 56 ∷ 56 ∷ symbols_of bs
symbols_of (true ∷ bs) = 56 ∷ 169 ∷ symbols_of bs

pub symbols_of-AreSymbols : (bs : List Bool) → AreSymbols bs (symbols_of bs)
unfolding is_symbol_silence is_symbol_0_pulse is_symbol_1_pulse
symbols_of-AreSymbols [] = done
symbols_of-AreSymbols (false ∷ bs) = zero_bit refl refl (symbols_of-AreSymbols bs)
symbols_of-AreSymbols (true ∷ bs) = one_bit refl refl (symbols_of-AreSymbols bs)

-- The edges with some widths between them, from a tick on; the tick wraps at 16 bits.
abbrev pub edges_of : ℕ → List ℕ → List ℕ
edges_of tick [] = tick ∷ []
edges_of tick (w ∷ ws) = tick ∷ edges_of (u16 (tick + w)) ws

-- The bits of `LIL_RED_BUTTON`, 0x00F720DF, the first one first.
abbrev pub red_bits : List Bool
red_bits =
    false ∷ false ∷ false ∷ false ∷ false ∷ false ∷ false ∷ false ∷ true ∷ true ∷ true ∷ true
    ∷ false ∷ true ∷ true ∷ true ∷ false ∷ false ∷ true ∷ false ∷ false ∷ false ∷ false ∷ false
    ∷ true ∷ true ∷ false ∷ true ∷ true ∷ true ∷ true ∷ true ∷ []

pub bits_of-red : bits_of 32 0x00f720df ≡ red_bits
unfolding bits_of
bits_of-red = refl

pub red-AreSymbols : AreSymbols (bits_of 32 0x00f720df) (symbols_of red_bits)
red-AreSymbols = rw bits_of-red (symbols_of-AreSymbols red_bits)

abbrev pub red_edges : List ℕ
red_edges = edges_of 65000 (900 ∷ 450 ∷ (symbols_of red_bits ++ 56 ∷ []))

parse_code-decode_example :
    let f = decode idle (record { code = 0; is_repetition = false }) (widths 68 red_edges) in
    Returns (fsm_rx_nec_parse_code some_parser (some red_edges) 68) f.code f.is_repetition
parse_code-decode_example = parse_code-decode some_parser red_edges 68 (omega arith) (omega arith)

parse_code-frame_example :
    Returns (fsm_rx_nec_parse_code some_parser (some red_edges) 68) 0x00f720df false
unfolding is_init_silence is_prologue_pulse widths
parse_code-frame_example =
    parse_code-frame some_parser red_edges 68 (omega arith) (omega arith) 900 450 refl 0x00f720df
      (symbols_of red_bits) (56 ∷ []) (omega arith) refl red-AreSymbols refl

parse_code-repetition_example :
    Returns (fsm_rx_nec_parse_code some_parser (some (edges_of 7 (900 ∷ 225 ∷ 56 ∷ []))) 4) 0 true
unfolding is_init_silence is_repetition_pulse widths
parse_code-repetition_example =
    parse_code-repetition some_parser (edges_of 7 (900 ∷ 225 ∷ 56 ∷ [])) 4 (omega arith)
      (omega arith) 900 225 refl (56 ∷ []) refl refl

-- Two bits of a frame that breaks off.
abbrev cut_edges : List ℕ
cut_edges = edges_of 0 (900 ∷ 450 ∷ symbols_of (true ∷ true ∷ []))

parse_code-truncated_example :
    Returns
      (fsm_rx_nec_parse_code some_parser (some cut_edges) 7)
      (append_bits 0 (true ∷ true ∷ []))
      false
unfolding is_init_silence is_prologue_pulse widths
parse_code-truncated_example =
    parse_code-truncated some_parser cut_edges 7 (omega arith) (omega arith) 900 450 refl
      (true ∷ true ∷ []) (symbols_of (true ∷ true ∷ [])) (omega arith) refl
      (symbols_of-AreSymbols (true ∷ true ∷ [])) refl

parse_code-settled_example :
    (p : Parsed) × (fsm_rx_nec_parse_code some_parser (some cut_edges) 7 ≡ some p)
    × ((p.is_repetition ≡ false) ⊎ (p.code ≡ 0))
    × (p.code < 2 ^ 32)
parse_code-settled_example = parse_code-settled some_parser cut_edges 7 (omega arith) (omega arith)
