-- ===== src/Nec/Defs.antt =====
-- The machine's state, and its input and output functions (common/src/fsm_rx_nec.c).
use transmisor_receptor_ir.Common.{
  ℕ, ◌+◌, ◌*◌, refl, Bool, true, false, not, Option, none, some, List, ◌∷◌, ℤ, pos, ltb, ◌==◌,
  if◌then◌else◌, ◌>>=◌, sub16, sub32, u32,
}
use transmisor_receptor_ir.Fsm.{Machine}
use transmisor_receptor_ir.Nec.Ranges.{
  is_init_silence, is_prologue_pulse, is_repetition_pulse, is_symbol_silence, is_symbol_0_pulse,
  is_symbol_1_pulse,
}

-- `fsm_rx_nec_t`; the first member is the `fsm_t`.
pub record FsmRxNec : Type 0 where
  pub current_state : ℤ
  pub p_edge_ticks : Option (List ℕ)
  pub num_edges_to_read : ℕ  -- uint32_t
  pub bits_remaining_to_read : ℕ  -- uint32_t
  pub code : ℕ  -- uint32_t
  pub is_repetition : Bool

instance abbrev pub nec_machine : Machine FsmRxNec
nec_machine = record {
  current_state = λ s. s.current_state;
  set_state = λ q s. record s { current_state = q };
  current-set = λ q s. refl;
}

-- `enum FSM_RX_NEC`
abbrev pub nec_idle : ℤ
nec_idle = pos 0

abbrev pub nec_init : ℤ
nec_init = pos 1

abbrev pub nec_symbol_silence : ℤ
nec_symbol_silence = pos 2

abbrev pub nec_symbol_pulse : ℤ
nec_symbol_pulse = pos 3

abbrev pub nec_frame_bits : ℕ
nec_frame_bits = 32

-- `*(p_edge_ticks + 1) - *(p_edge_ticks)`, cut to 16 bits by the result type
unfoldable pub get_diff_ticks : Option (List ℕ) → Option ℕ
get_diff_ticks (some (a ∷ b ∷ r)) = some (sub16 b a)
get_diff_ticks _ = none

-- State machine input functions. All of them only read.

unfoldable pub check_is_init_silence : FsmRxNec → Option Bool
check_is_init_silence s = do value ← get_diff_ticks s.p_edge_ticks; some (is_init_silence value)

unfoldable pub check_is_init_noise : FsmRxNec → Option Bool
unfolding check_is_init_silence
check_is_init_noise s = do met ← check_is_init_silence s; some (not met)

unfoldable pub check_is_prologue_pulse : FsmRxNec → Option Bool
check_is_prologue_pulse s = do value ← get_diff_ticks s.p_edge_ticks; some (is_prologue_pulse value)

unfoldable pub check_is_repetition_pulse : FsmRxNec → Option Bool
check_is_repetition_pulse s = do
  value ← get_diff_ticks s.p_edge_ticks
  some (is_repetition_pulse value)

unfoldable pub check_is_init_pulse_noise : FsmRxNec → Option Bool
unfolding check_is_prologue_pulse check_is_repetition_pulse
check_is_init_pulse_noise s = do
  prologue ← check_is_prologue_pulse s
  if prologue
      then some false
      else (do repetition ← check_is_repetition_pulse s; some (not repetition))

unfoldable pub check_is_last_symbol : FsmRxNec → Option Bool
check_is_last_symbol s = some (s.bits_remaining_to_read == 0)

unfoldable pub check_is_symbol_silence : FsmRxNec → Option Bool
unfolding check_is_last_symbol
check_is_symbol_silence s = do
  last ← check_is_last_symbol s
  if last
      then some false
      else (do value ← get_diff_ticks s.p_edge_ticks; some (is_symbol_silence value))

unfoldable pub check_is_symbol_silence_noise : FsmRxNec → Option Bool
unfolding check_is_last_symbol check_is_symbol_silence
check_is_symbol_silence_noise s = do
  last ← check_is_last_symbol s
  if last then some false else (do met ← check_is_symbol_silence s; some (not met))

unfoldable pub check_is_symbol_0_pulse : FsmRxNec → Option Bool
check_is_symbol_0_pulse s = do value ← get_diff_ticks s.p_edge_ticks; some (is_symbol_0_pulse value)

unfoldable pub check_is_symbol_1_pulse : FsmRxNec → Option Bool
check_is_symbol_1_pulse s = do value ← get_diff_ticks s.p_edge_ticks; some (is_symbol_1_pulse value)

unfoldable pub check_is_symbol_pulse_noise : FsmRxNec → Option Bool
unfolding check_is_symbol_0_pulse check_is_symbol_1_pulse
check_is_symbol_pulse_noise s = do
  zero_pulse ← check_is_symbol_0_pulse s
  if zero_pulse
      then some false
      else (do one_pulse ← check_is_symbol_1_pulse s; some (not one_pulse))

-- State machine output functions.

-- `p_edge_ticks++`: one past the array's end is a pointer still, and no further.
abbrev pub next_edge : Option (List ℕ) → Option (Option (List ℕ))
next_edge (some (x ∷ r)) = some (some r)
next_edge _ = none

unfoldable pub do_jump_to_next_edge : FsmRxNec → Option FsmRxNec
do_jump_to_next_edge s = do
  p ← next_edge s.p_edge_ticks
  some (record s { p_edge_ticks = p; num_edges_to_read = sub32 s.num_edges_to_read 1 })

unfoldable pub do_repetition_starts : FsmRxNec → Option FsmRxNec
do_repetition_starts s = do
  p ← next_edge s.p_edge_ticks
  some (record s {
    p_edge_ticks = p;
    num_edges_to_read = sub32 s.num_edges_to_read 1;
    bits_remaining_to_read = 0;
    is_repetition = true;
  })

unfoldable pub do_command_starts : FsmRxNec → Option FsmRxNec
do_command_starts s = do
  p ← next_edge s.p_edge_ticks
  some (record s {
    p_edge_ticks = p;
    num_edges_to_read = sub32 s.num_edges_to_read 1;
    bits_remaining_to_read = nec_frame_bits;
    is_repetition = false;
  })

unfoldable pub do_reset_and_jump_to_next_edge : FsmRxNec → Option FsmRxNec
do_reset_and_jump_to_next_edge s = do
  p ← next_edge s.p_edge_ticks
  some (record s { p_edge_ticks = p; num_edges_to_read = sub32 s.num_edges_to_read 1; code = 0 })

unfoldable pub do_reset_and_jump_two_edges : FsmRxNec → Option FsmRxNec
do_reset_and_jump_two_edges s = do
  p ← next_edge s.p_edge_ticks
  p' ← next_edge p
  some (record s {
    p_edge_ticks = p';
    num_edges_to_read = if ltb 1 s.num_edges_to_read then sub32 s.num_edges_to_read 2 else 0;
  })

unfoldable pub do_store_bit_0 : FsmRxNec → Option FsmRxNec
do_store_bit_0 s = do
  p ← next_edge s.p_edge_ticks
  some (record s {
    code = u32 (s.code * 2);
    p_edge_ticks = p;
    num_edges_to_read = sub32 s.num_edges_to_read 1;
    bits_remaining_to_read = sub32 s.bits_remaining_to_read 1;
  })

unfoldable pub do_store_bit_1 : FsmRxNec → Option FsmRxNec
do_store_bit_1 s = do
  p ← next_edge s.p_edge_ticks
  some (record s {
    code = u32 (u32 (s.code * 2) + 1);
    p_edge_ticks = p;
    num_edges_to_read = sub32 s.num_edges_to_read 1;
    bits_remaining_to_read = sub32 s.bits_remaining_to_read 1;
  })

unfoldable pub do_set_end : FsmRxNec → Option FsmRxNec
do_set_end s = some (record s { num_edges_to_read = 0 })
