-- ===== src/Tests/Tx.antt =====
-- The transmitter of common/src/fsm_tx.c on a board with an interrupt at each access.
use transmisor_receptor_ir.Common.{
  ℕ, ◌≡◌, Bool, true, false, some, List, [], ◌∷◌, ◌++◌, map, arith, length,
}
use transmisor_receptor_ir.Nec.{fsm_rx_nec_parse_code}
use transmisor_receptor_ir.Nec.Outcomes.{Returns}
use transmisor_receptor_ir.Tx.Port.{TxPort}
use transmisor_receptor_ir.Tx.{fsm_send_nec_code, nec_tx_epilogue, nec_tx_prologue}
use transmisor_receptor_ir.Tx.Wave.{
  symbol_of, nominal_wave, AreNear, none_left, near, Emits, fsm_send_nec_code-wave,
}
use transmisor_receptor_ir.Air.{IsSampled, IsHeard, heard_last, heard}
use transmisor_receptor_ir.Air.Sampled.{edge_counts, code_crosses}
use transmisor_receptor_ir.Port.State.{Board}
use transmisor_receptor_ir.Port.Tx.{port_tx_symbol_tmr_start}
use transmisor_receptor_ir.Port.ForTx.{board_tx, CanSend}
use transmisor_receptor_ir.Tests.Boards.{busy, busy-CanSend}
use transmisor_receptor_ir.Tests.Nec.{some_parser, symbols_of, red_bits, bits_of-red}

instance abbrev paced : TxPort Board
paced = board_tx (λ n. 0) 1

abbrev started : Board
started = port_tx_symbol_tmr_start busy

fsm_send_nec_code-wave_example :
    (c : Board) × (ws : List (ℕ × ℕ)) × (fsm_send_nec_code 3571 0 0x00f720df busy ≡ some c)
    × Emits started ws c
    × AreNear (nominal_wave 0x00f720df) ws
    × CanSend (λ n. 0) 1 c
fsm_send_nec_code-wave_example =
    fsm_send_nec_code-wave 3571 0x00f720df busy (omega arith) busy-CanSend

-- The nominal wave, and what the receiver may see of it.
AreNear-refl : (ws : List (ℕ × ℕ)) → AreNear ws ws
AreNear-refl [] = none_left
AreNear-refl (w ∷ ws) = near (omega arith) (AreNear-refl ws)

IsHeard-cons :
    (x : ℕ × ℕ) (w v : ℕ) {xs : List (ℕ × ℕ)} {ws : List ℕ}
    → IsSampled x.0 w
    → IsSampled x.1 v
    → IsHeard xs ws
    → IsHeard (x ∷ xs) (w ∷ v ∷ ws)
IsHeard-cons x w v on off (heard_last h) = heard on off (heard_last h)
IsHeard-cons x w v on off (heard h k r) = heard on off (heard h k r)

symbols-IsHeard :
    (bs : List Bool) → IsHeard (map symbol_of bs ++ nec_tx_epilogue ∷ []) (symbols_of bs ++ 56 ∷ [])
symbols-IsHeard [] = heard_last (omega arith)
symbols-IsHeard (false ∷ bs) =
    IsHeard-cons (10, 10) 56 56 (omega arith) (omega arith) (symbols-IsHeard bs)
symbols-IsHeard (true ∷ bs) =
    IsHeard-cons (10, 30) 56 169 (omega arith) (omega arith) (symbols-IsHeard bs)

pub red_wave-AreNear : AreNear (nominal_wave 0x00f720df) (nominal_wave 0x00f720df)
red_wave-AreNear = AreNear-refl (nominal_wave 0x00f720df)

pub red_wave-IsHeard :
    IsHeard (nominal_wave 0x00f720df) (900 ∷ 450 ∷ (symbols_of red_bits ++ 56 ∷ []))
unfolding nominal_wave
red_wave-IsHeard =
    rw bits_of-red
      (IsHeard-cons nec_tx_prologue 900 450 (omega arith) (omega arith) (symbols-IsHeard red_bits))

-- The green button's code, from a wave that begins 7 cycles after the receiver's timer.
code_crosses_example :
    (c : Board) × (ws : List (ℕ × ℕ)) × (fsm_send_nec_code 3571 0 0x00f7a05f busy ≡ some c)
    × Emits started ws c
    × Returns
        (fsm_rx_nec_parse_code some_parser (some (edge_counts 7 ws)) (length (edge_counts 7 ws)))
        0x00f7a05f
        false
code_crosses_example =
    code_crosses 3571 0x00f7a05f 7 busy some_parser (omega arith) (omega arith) busy-CanSend
