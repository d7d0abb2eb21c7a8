-- ===== src/Tx/Defs.antt =====
-- The state, the functions and the table of the transmitter's machine (common/src/fsm_tx.c).
use transmisor_receptor_ir.Common.{
  ℕ, zero, suc, ◌/◌, ◌^◌, refl, Bool, true, false, not, Option, none, some, List, [], ◌∷◌, ℤ, pos,
  ltb, ◌==◌, int_eq, if◌then◌else◌, ◌>>=◌, bit_and,
}
use transmisor_receptor_ir.Fsm.{FsmTrans, Machine, reads, null_trans, fsm_fire, fsm_init}
use transmisor_receptor_ir.Ticker.{Ticker, wait_until}
use transmisor_receptor_ir.Tx.Port.{TxPort}

-- `fsm_tx_t`; the first member is the `fsm_t`.
pub record FsmTx : Type 0 where
  pub current_state : ℤ
  pub code : ℕ  -- uint32_t
  pub tx_id : ℕ  -- uint8_t

-- The machine with the board that it runs on.
pub record TxOn (B : Type 0) : Type 0 where
  pub fsm : FsmTx
  pub board : B

instance abbrev pub tx_machine : {B : Type 0} → Machine (TxOn B)
tx_machine = record {
  current_state = λ s. s.fsm.current_state;
  set_state = λ q s. record s { fsm = record (s.fsm) { current_state = q } };
  current-set = λ q s. refl;
}

-- `enum FSM_TX`
abbrev pub wait_tx : ℤ
wait_tx = pos 0

-- fsm_tx.h: ticks of the symbol timer with the carrier on and off.
abbrev pub nec_tx_prologue : ℕ × ℕ
nec_tx_prologue = (160, 80)

abbrev pub nec_tx_sym_0 : ℕ × ℕ
nec_tx_sym_0 = (10, 10)

abbrev pub nec_tx_sym_1 : ℕ × ℕ
nec_tx_sym_1 = (10, 30)

abbrev pub nec_tx_epilogue : ℕ × ℕ
nec_tx_epilogue = (10, 3560)

unfoldable pub check_tx_start : {B : Type 0} → TxOn B → Option Bool
check_tx_start s = some (not (s.fsm.code == 0))

unfoldable pub fsm_tx_set_code : FsmTx → ℕ → FsmTx
fsm_tx_set_code p_fsm code = if code == 0 then p_fsm else record p_fsm { code = code }

unfoldable pub fsm_tx_check_activity : FsmTx → Bool
fsm_tx_check_activity p_fsm = not (int_eq p_fsm.current_state wait_tx)

-- The count of the symbol timer, which the waits read.
abbrev pub symbol_ticker : {B : Type 0} → TxPort B → Ticker B
symbol_ticker port = record {
  get_tick = port.tmr_get_tick;
  IsRunning = port.IsRunning;
  count = port.symbols;
  until_tick = port.until_tick;
  period = port.period;
  get_tick-IsRunning = port.tmr_get_tick-IsRunning;
  get_tick-eq-count = port.tick-eq-symbols;
  until_tick-lt-period = port.until_tick-lt-period;
  pace = port.pace;
}

-- `fuel` bounds how often each wait reads the tick.
module _ {B : Type 0} ⦃port : TxPort B⦄ (fuel : ℕ) where
  unfoldable pub wait_for_tx_ticks : ℕ → B → Option B
  unfolding wait_until
  wait_for_tx_ticks ticks b =
      let (initial_tick, b') = port.tmr_get_tick b in
      wait_until (symbol_ticker port) fuel initial_tick ticks b'

  unfoldable pub send_nec_burst : ℕ → ℕ × ℕ → B → Option B
  unfolding wait_for_tx_ticks
  send_nec_burst tx_id (ticks_on, ticks_off) b = do
    c ← wait_for_tx_ticks ticks_on (port.pwm_timer_set tx_id true b)
    wait_for_tx_ticks ticks_off (port.pwm_timer_set tx_id false c)

  -- `while (bit_mask > 0)`; the mask is halved each time, so that 33 rounds are enough.
  unfoldable pub send_bits : ℕ → ℕ → ℕ → ℕ → B → Option B
  unfolding send_nec_burst
  send_bits zero tx_id code bit_mask b = none
  send_bits (suc rounds) tx_id code bit_mask b = elim (ltb 0 bit_mask) [
    | true ↦
        send_nec_burst tx_id (if bit_and code bit_mask == 0 then nec_tx_sym_0 else nec_tx_sym_1) b
        >>= λ c. send_bits rounds tx_id code (bit_mask / 2) c
    | false ↦ some b
  ]

  unfoldable pub fsm_send_nec_code : ℕ → ℕ → B → Option B
  fsm_send_nec_code tx_id code b = do
    c ← send_nec_burst tx_id nec_tx_prologue (port.symbol_tmr_start b)
    d ← send_bits 33 tx_id code (2 ^ 31) c
    e ← send_nec_burst tx_id nec_tx_epilogue d
    some (port.symbol_tmr_stop e)

  unfoldable pub do_tx_start : TxOn B → Option (TxOn B)
  do_tx_start s = do
    b ← fsm_send_nec_code s.fsm.tx_id s.fsm.code s.board
    some (record { fsm = record (s.fsm) { code = 0 }; board = b })

  unfoldable pub fsm_trans_tx : List (FsmTrans (TxOn B))
  unfolding check_tx_start do_tx_start
  fsm_trans_tx =
      record {
        orig_state = wait_tx;
        input = reads check_tx_start;
        dest_state = wait_tx;
        out = some do_tx_start;
      }
      ∷ null_trans
      ∷ []

  -- `fsm_fire` on the transmitter's machine.
  unfoldable pub tx_fire : TxOn B → Option (TxOn B)
  unfolding fsm_fire fsm_trans_tx
  tx_fire = fsm_fire fsm_trans_tx

  unfoldable pub fsm_tx_init : ℕ → TxOn B → Option (TxOn B)
  unfolding fsm_init fsm_trans_tx
  fsm_tx_init tx_id p_this = do
    s ← fsm_init (some fsm_trans_tx) p_this
    some (record {
      fsm = record (s.fsm) { tx_id = tx_id; code = 0 };
      board = port.init tx_id false s.board;
    })

  -- `memory` is what `malloc` gives; NULL is written through without a test.
  unfoldable pub fsm_tx_new : Option FsmTx → ℕ → B → Option (TxOn B)
  unfolding fsm_tx_init
  fsm_tx_new memory tx_id b =
      memory >>= λ p_fsm. fsm_tx_init tx_id (record { fsm = p_fsm; board = b })
