-- ===== src/Nec.antt =====
-- common/src/fsm_rx_nec.c and common/include/fsm_rx_nec.h: the machine that parses the ticks of the
-- edges that the receiver has seen into a NEC code. Nec/Defs has the state and the input and output
-- functions, and this file the table and the parser's loop.
-- The pointer `p_edge_ticks` only ever moves forward through one array: it is NULL, or the elements
-- from the one that it points at up to the array's end.
mod Ranges
unfoldable pub use Ranges.*
mod Defs
unfoldable pub use Defs.*
pub mod Reference
pub mod Step
pub mod Correct
pub mod Frames
pub mod Outcomes
use transmisor_receptor_ir.Common.{
  ℕ, zero, suc, ◌+◌, ◌*◌, Bool, true, false, Option, none, some, List, [], ◌∷◌, ltb, ◌>>=◌,
}
use transmisor_receptor_ir.Fsm.{FsmTrans, reads, null_trans, fsm_fire, fsm_init}

unfoldable pub fsm_trans_rx_nec : List (FsmTrans FsmRxNec)
unfolding check_is_init_noise check_is_init_silence check_is_init_pulse_noise
    check_is_repetition_pulse check_is_prologue_pulse check_is_last_symbol
    check_is_symbol_silence_noise check_is_symbol_silence check_is_symbol_0_pulse
    check_is_symbol_1_pulse check_is_symbol_pulse_noise do_reset_and_jump_two_edges
    do_reset_and_jump_to_next_edge do_jump_to_next_edge do_repetition_starts do_command_starts
    do_set_end do_store_bit_0 do_store_bit_1
fsm_trans_rx_nec =
    record {
      orig_state = nec_idle;
      input = reads check_is_init_noise;
      dest_state = nec_idle;
      out = some do_reset_and_jump_two_edges;
    }
    ∷ record {
      orig_state = nec_idle;
      input = reads check_is_init_silence;
      dest_state = nec_init;
      out = some do_reset_and_jump_to_next_edge;
    }
    ∷ record {
      orig_state = nec_init;
      input = reads check_is_init_pulse_noise;
      dest_state = nec_idle;
      out = some do_jump_to_next_edge;
    }
    ∷ record {
      orig_state = nec_init;
      input = reads check_is_repetition_pulse;
      dest_state = nec_symbol_silence;
      out = some do_repetition_starts;
    }
    ∷ record {
      orig_state = nec_init;
      input = reads check_is_prologue_pulse;
      dest_state = nec_symbol_silence;
      out = some do_command_starts;
    }
    ∷ record {
      orig_state = nec_symbol_silence;
      input = reads check_is_last_symbol;
      dest_state = nec_idle;
      out = some do_set_end;
    }
    ∷ record {
      orig_state = nec_symbol_silence;
      input = reads check_is_symbol_silence_noise;
      dest_state = nec_idle;
      out = none;
    }
    ∷ record {
      orig_state = nec_symbol_silence;
      input = reads check_is_symbol_silence;
      dest_state = nec_symbol_pulse;
      out = some do_jump_to_next_edge;
    }
    ∷ record {
      orig_state = nec_symbol_pulse;
      input = reads check_is_symbol_0_pulse;
      dest_state = nec_symbol_silence;
      out = some do_store_bit_0;
    }
    ∷ record {
      orig_state = nec_symbol_pulse;
      input = reads check_is_symbol_1_pulse;
      dest_state = nec_symbol_silence;
      out = some do_store_bit_1;
    }
    ∷ record {
      orig_state = nec_symbol_pulse;
      input = reads check_is_symbol_pulse_noise;
      dest_state = nec_idle;
      out = some do_jump_to_next_edge;
    }
    ∷ null_trans
    ∷ []

-- The struct's member `bits_remaining_to_read` keeps what the memory held.
unfoldable pub fsm_rx_nec_init : FsmRxNec → Option FsmRxNec
unfolding fsm_init fsm_trans_rx_nec
fsm_rx_nec_init p_fsm = do
  s ← fsm_init (some fsm_trans_rx_nec) p_fsm
  some (record s { code = 0; num_edges_to_read = 0; p_edge_ticks = none; is_repetition = false })

-- `memory` is what `malloc` gives; NULL is written through without a test.
unfoldable pub fsm_rx_nec_new : Option FsmRxNec → Option FsmRxNec
unfolding fsm_rx_nec_init
fsm_rx_nec_new memory = memory >>= fsm_rx_nec_init

-- `while (p_fsm->num_edges_to_read > 1) fsm_fire(&(p_fsm->f));` on fuel.
unfoldable pub parse_loop : ℕ → FsmRxNec → Option FsmRxNec
parse_loop zero s = none
parse_loop (suc fuel) s = elim (ltb 1 s.num_edges_to_read) [
  | true ↦ fsm_fire fsm_trans_rx_nec s >>= λ s'. parse_loop fuel s'
  | false ↦ some s
]

-- What `fsm_rx_NEC_parse_code` leaves behind, returns, and writes through `p_code`.
pub record Parsed : Type 0 where
  pub machine : FsmRxNec
  pub is_repetition : Bool
  pub code : ℕ

unfoldable pub fsm_rx_nec_parse_code : FsmRxNec → Option (List ℕ) → ℕ → Option Parsed
unfolding parse_loop
fsm_rx_nec_parse_code p_fsm p_edge_ticks num_edges = do
  s ← parse_loop (2 * num_edges + 1) (record p_fsm {
    current_state = nec_idle;
    code = 0;
    is_repetition = false;
    num_edges_to_read = num_edges;
    p_edge_ticks = p_edge_ticks;
  })
  some (record { machine = s; is_repetition = s.is_repetition; code = s.code })
