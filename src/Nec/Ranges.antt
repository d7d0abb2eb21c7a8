-- ===== src/Nec/Ranges.antt =====
-- The widths of pulses and silences, with their tolerances (common/include/fsm_rx_nec.h), and the
-- tests of them (common/src/fsm_rx_nec.c).
use transmisor_receptor_ir.Common.{ℕ, ◌*◌, ◌/◌, Bool, ◌&&◌, leb}

unfoldable pub value_in_range : ℕ → ℕ → ℕ → Bool
value_in_range value min max = leb min value && leb value max

-- The tolerances of the widths, in microseconds. Those of a one's pulse, 1187.5 and 2187.5, are in
-- tenths.
abbrev pub nec_rx_prologue_silence_min_us : ℕ
nec_rx_prologue_silence_min_us = 8500

abbrev pub nec_rx_prologue_silence_max_us : ℕ
nec_rx_prologue_silence_max_us = 9500

abbrev pub nec_rx_prologue_pulse_min_us : ℕ
nec_rx_prologue_pulse_min_us = 4000

abbrev pub nec_rx_prologue_pulse_max_us : ℕ
nec_rx_prologue_pulse_max_us = 5000

abbrev pub nec_rx_symbol_silence_min_us : ℕ
nec_rx_symbol_silence_min_us = 400

abbrev pub nec_rx_symbol_silence_max_us : ℕ
nec_rx_symbol_silence_max_us = 800

abbrev pub nec_rx_symbol_0_pulse_min_us : ℕ
nec_rx_symbol_0_pulse_min_us = 400

abbrev pub nec_rx_symbol_0_pulse_max_us : ℕ
nec_rx_symbol_0_pulse_max_us = 800

abbrev pub nec_rx_symbol_1_pulse_min_us : ℕ
nec_rx_symbol_1_pulse_min_us = 11875

abbrev pub nec_rx_symbol_1_pulse_max_us : ℕ
nec_rx_symbol_1_pulse_max_us = 21875

abbrev pub nec_rx_repetition_pulse_min_us : ℕ
nec_rx_repetition_pulse_min_us = 1700

abbrev pub nec_rx_repetition_pulse_max_us : ℕ
nec_rx_repetition_pulse_max_us = 2700

abbrev pub nec_rx_timer_tick_base_us : ℕ
nec_rx_timer_tick_base_us = 10

-- The same in ticks. The limits of a one's pulse, 118.75 and 218.75, lose their fractions when they
-- are passed as `uint16_t`.
abbrev pub nec_rx_prologue_ticks_silence_min : ℕ
nec_rx_prologue_ticks_silence_min = nec_rx_prologue_silence_min_us / nec_rx_timer_tick_base_us

abbrev pub nec_rx_prologue_ticks_silence_max : ℕ
nec_rx_prologue_ticks_silence_max = nec_rx_prologue_silence_max_us / nec_rx_timer_tick_base_us

abbrev pub nec_rx_prologue_ticks_pulse_min : ℕ
nec_rx_prologue_ticks_pulse_min = nec_rx_prologue_pulse_min_us / nec_rx_timer_tick_base_us

abbrev pub nec_rx_prologue_ticks_pulse_max : ℕ
nec_rx_prologue_ticks_pulse_max = nec_rx_prologue_pulse_max_us / nec_rx_timer_tick_base_us

abbrev pub nec_rx_symbol_ticks_silence_min : ℕ
nec_rx_symbol_ticks_silence_min = nec_rx_symbol_silence_min_us / nec_rx_timer_tick_base_us

abbrev pub nec_rx_symbol_ticks_silence_max : ℕ
nec_rx_symbol_ticks_silence_max = nec_rx_symbol_silence_max_us / nec_rx_timer_tick_base_us

abbrev pub nec_rx_symbol_0_ticks_pulse_min : ℕ
nec_rx_symbol_0_ticks_pulse_min = nec_rx_symbol_0_pulse_min_us / nec_rx_timer_tick_base_us

abbrev pub nec_rx_symbol_0_ticks_pulse_max : ℕ
nec_rx_symbol_0_ticks_pulse_max = nec_rx_symbol_0_pulse_max_us / nec_rx_timer_tick_base_us

abbrev pub nec_rx_symbol_1_ticks_pulse_min : ℕ
nec_rx_symbol_1_ticks_pulse_min = nec_rx_symbol_1_pulse_min_us / (10 * nec_rx_timer_tick_base_us)

abbrev pub nec_rx_symbol_1_ticks_pulse_max : ℕ
nec_rx_symbol_1_ticks_pulse_max = nec_rx_symbol_1_pulse_max_us / (10 * nec_rx_timer_tick_base_us)

abbrev pub nec_rx_repetition_ticks_pulse_min : ℕ
nec_rx_repetition_ticks_pulse_min = nec_rx_repetition_pulse_min_us / nec_rx_timer_tick_base_us

abbrev pub nec_rx_repetition_ticks_pulse_max : ℕ
nec_rx_repetition_ticks_pulse_max = nec_rx_repetition_pulse_max_us / nec_rx_timer_tick_base_us

unfoldable pub is_init_silence : ℕ → Bool
unfolding value_in_range
is_init_silence value =
    value_in_range value nec_rx_prologue_ticks_silence_min nec_rx_prologue_ticks_silence_max

unfoldable pub is_prologue_pulse : ℕ → Bool
unfolding value_in_range
is_prologue_pulse value =
    value_in_range value nec_rx_prologue_ticks_pulse_min nec_rx_prologue_ticks_pulse_max

unfoldable pub is_repetition_pulse : ℕ → Bool
unfolding value_in_range
is_repetition_pulse value =
    value_in_range value nec_rx_repetition_ticks_pulse_min nec_rx_repetition_ticks_pulse_max

unfoldable pub is_symbol_silence : ℕ → Bool
unfolding value_in_range
is_symbol_silence value =
    value_in_range value nec_rx_symbol_ticks_silence_min nec_rx_symbol_ticks_silence_max

unfoldable pub is_symbol_0_pulse : ℕ → Bool
unfolding value_in_range
is_symbol_0_pulse value =
    value_in_range value nec_rx_symbol_0_ticks_pulse_min nec_rx_symbol_0_ticks_pulse_max

unfoldable pub is_symbol_1_pulse : ℕ → Bool
unfolding value_in_range
is_symbol_1_pulse value =
    value_in_range value nec_rx_symbol_1_ticks_pulse_min nec_rx_symbol_1_ticks_pulse_max
