-- ===== src/Main.antt =====
-- common/src/retina.c: the machines are made, and fired one after another for ever.
pub mod Rounds
pub mod Runs
pub mod Press
pub mod Heard
pub mod Board
pub mod Wake
pub mod Missed
pub mod Link
pub mod Hearing
pub mod Later
pub mod Held
pub mod Answer
pub mod Lit
pub mod Silence
pub mod Life
pub mod Priorities
use transmisor_receptor_ir.Common.{ℕ, Option, some, none, ◌>>=◌}
use transmisor_receptor_ir.Nec.{FsmRxNec}
use transmisor_receptor_ir.Button.Port.{ButtonPort}
use transmisor_receptor_ir.Button.{FsmButton, ButtonOn, button_fire, fsm_button_new}
use transmisor_receptor_ir.Tx.Port.{TxPort}
use transmisor_receptor_ir.Tx.{FsmTx, TxOn, tx_fire, fsm_tx_new}
use transmisor_receptor_ir.Rx.Port.{RxPort}
use transmisor_receptor_ir.Rx.{FsmRx, RxOn, rx_fire, fsm_rx_new}
use transmisor_receptor_ir.Retina.Port.{RetinaPort}
use transmisor_receptor_ir.Retina.{FsmRetina, System, retina_fire, fsm_retina_new}
use transmisor_receptor_ir.Port.Button.{button_0_id, button_0_debounce_time_ms}
use transmisor_receptor_ir.Port.Tx.{ir_tx_0_id}
use transmisor_receptor_ir.Port.Rx.{ir_rx_0_id}
use transmisor_receptor_ir.Port.Rgb.{rgb_0_id}

abbrev pub change_mode_button_time : ℕ
change_mode_button_time = 3000

-- The blocks that `malloc` gives to the four machines, in any content.
pub record Memory : Type 0 where
  pub button : Option FsmButton
  pub tx : Option FsmTx
  pub rx : Option FsmRx
  pub retina : Option FsmRetina

-- `fuel` bounds the transmitter's waits, and `malloc` is what the receiver's calls of it give.
module _ {B : Type 0} ⦃button_port : ButtonPort B⦄ ⦃tx_port : TxPort B⦄ ⦃rx_port : RxPort B⦄
    ⦃retina_port : RetinaPort B⦄ (fuel : ℕ) (malloc : ℕ → Option FsmRxNec) where
  -- `b` is the board that `port_system_init` leaves.
  unfoldable pub main_init : Memory → B → Option (System B)
  unfolding fsm_button_new fsm_tx_new fsm_rx_new fsm_retina_new
  main_init memory b = do
    button ← fsm_button_new memory.button button_0_debounce_time_ms button_0_id b
    tx ← fsm_tx_new fuel memory.tx ir_tx_0_id button.board
    rx ← fsm_rx_new malloc memory.rx ir_rx_0_id tx.board
    fsm_retina_new memory.retina button.fsm change_mode_button_time tx.fsm rx rgb_0_id

  -- The receiver as a part of the system.
  abbrev pub rx_of : System B → B → RxOn B
  rx_of s b = record { fsm = s.rx; board = b; mallocs = s.mallocs; frees = s.frees }

  -- The body of the endless loop.
  unfoldable pub main_round : System B → Option (System B)
  unfolding button_fire tx_fire rx_fire retina_fire
  main_round s = do
    button ← button_fire (record { fsm = s.button; board = s.board })
    tx ← tx_fire fuel (record { fsm = s.tx; board = button.board })
    rx ← rx_fire malloc (rx_of s tx.board)
    retina_fire (record s {
      button = button.fsm;
      tx = tx.fsm;
      rx = rx.fsm;
      board = rx.board;
      mallocs = rx.mallocs;
      frees = rx.frees;
    })
