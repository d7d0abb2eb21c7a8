-- ===== src/Nec/Step.antt =====
-- One round of the parser's loop of common/src/fsm_rx_nec.c against the reference decoder, state by
-- state, where the pointer has two edges left to read.
use transmisor_receptor_ir.Common.{
  ℕ, suc, ◌+◌, ◌-◌, ◌*◌, ◌≤◌, ◌<◌, ◌^◌, ◌≡◌, Bool, true, false, Option, some, List, ◌∷◌, pos, arith,
  sub16, u32, if◌then◌else◌, ◌==◌,
}
use transmisor_receptor_ir.Fsm.{fsm_fire}
use transmisor_receptor_ir.Nec.{
  FsmRxNec, nec_machine, fsm_trans_rx_nec, get_diff_ticks, is_init_silence, is_prologue_pulse,
  is_repetition_pulse, is_symbol_silence, is_symbol_0_pulse, is_symbol_1_pulse,
}

abbrev pub at : ℕ → List ℕ → ℕ → ℕ → ℕ → Bool → FsmRxNec
at q l n bits code rep = record {
  current_state = pos q;
  p_edge_ticks = some l;
  num_edges_to_read = n;
  bits_remaining_to_read = bits;
  code = code;
  is_repetition = rep;
}

abbrev pub nec_fire : FsmRxNec → Option FsmRxNec
nec_fire = fsm_fire fsm_trans_rx_nec

module _ (a b : ℕ) (r : List ℕ) (n bits code : ℕ) (rep : Bool) (small : n + 2 < 2 ^ 32) where
  pub idle_fire :
      nec_fire (at 0 (a ∷ b ∷ r) (suc (suc n)) bits code rep)
      ≡ some (
          if is_init_silence (sub16 b a)
          then at 1 (b ∷ r) (suc n) bits 0 rep
          else at 0 r n bits code rep)
  unfolding fsm_fire fsm_trans_rx_nec get_diff_ticks
  idle_fire = ground arith

  pub init_fire :
      nec_fire (at 1 (a ∷ b ∷ r) (suc (suc n)) bits code rep)
      ≡ some (
          if is_prologue_pulse (sub16 b a)
          then at 2 (b ∷ r) (suc n) 32 code false
          else if is_repetition_pulse (sub16 b a)
          then at 2 (b ∷ r) (suc n) 0 code true
          else at 0 (b ∷ r) (suc n) bits code rep)
  unfolding fsm_fire fsm_trans_rx_nec get_diff_ticks is_prologue_pulse is_repetition_pulse
  init_fire = ground arith

  pub silence_fire :
      nec_fire (at 2 (a ∷ b ∷ r) (suc (suc n)) bits code rep)
      ≡ some (
          if bits == 0
          then at 0 (a ∷ b ∷ r) 0 bits code rep
          else if is_symbol_silence (sub16 b a)
          then at 3 (b ∷ r) (suc n) bits code rep
          else at 0 (a ∷ b ∷ r) (suc (suc n)) bits code rep)
  unfolding fsm_fire fsm_trans_rx_nec get_diff_ticks
  silence_fire = ground arith

  pub pulse_fire :
      0 < bits
      → bits ≤ 32
      → nec_fire (at 3 (a ∷ b ∷ r) (suc (suc n)) bits code rep)
        ≡ some (
            if is_symbol_0_pulse (sub16 b a)
            then at 2 (b ∷ r) (suc n) (bits - 1) (u32 (code * 2)) rep
            else if is_symbol_1_pulse (sub16 b a)
            then at 2 (b ∷ r) (suc n) (bits - 1) (u32 (code * 2 + 1)) rep
            else at 0 (b ∷ r) (suc n) bits code rep)
  unfolding fsm_fire fsm_trans_rx_nec get_diff_ticks
  pulse_fire pos_bits few = ground arith
