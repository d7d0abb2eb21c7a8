-- ===== src/Main/Later.antt =====
-- The time and the LED in a round of the endless loop (common/src/retina.c): until the governing
-- machine's turn comes, the clock only runs on and the LED is left alone.
use transmisor_receptor_ir.Common.{ℕ, Option}
use transmisor_receptor_ir.Nec.{FsmRxNec}
use transmisor_receptor_ir.Button.Boards.{button_fire_keeps}
use transmisor_receptor_ir.Tx.Boards.{tx_fire-IsBoard}
use transmisor_receptor_ir.Rx.Keeps.{rx_fire_keeps}
use transmisor_receptor_ir.Retina.{System}
use transmisor_receptor_ir.Main.Board.{BoardStages}
use transmisor_receptor_ir.Port.State.{Board}
use transmisor_receptor_ir.Port.Later.{
  IsLater, IsLater-refl, IsLater-trans, is_pressed-IsLater, get_tick-IsLater, get_millis-IsLater,
  symbol_tmr_start-IsLater, symbol_tmr_stop-IsLater, pwm_timer_set-IsLater, tmr_get_tick-IsLater,
  get_num_edges-IsLater, clean_buffer-IsLater, rx_tmr_start-IsLater, rx_tmr_stop-IsLater,
  rx_en-IsLater,
}
use transmisor_receptor_ir.Port.ForTx.{board_tx}
use transmisor_receptor_ir.Port.ForMain.{paced_button, paced_rx}

module _ (until : ℕ → ℕ) (period : ℕ) (fuel : ℕ) (malloc : ℕ → Option FsmRxNec) (s t : System Board)
    (g : BoardStages until period fuel malloc s t) where
  pub button-IsLater : IsLater s.board g.button.board
  button-IsLater =
      button_fire_keeps ⦃port = paced_button until period⦄ (IsLater s.board) is_pressed-IsLater
        get_tick-IsLater _ g.button (IsLater-refl s.board) g.button_fires

  tx-IsLater : IsLater g.button.board g.tx.board
  tx-IsLater =
      tx_fire-IsBoard ⦃port = board_tx until period⦄ (IsLater g.button.board)
        symbol_tmr_start-IsLater symbol_tmr_stop-IsLater pwm_timer_set-IsLater tmr_get_tick-IsLater
        fuel _ g.tx (IsLater-refl g.button.board) g.tx_fires

  rx-IsLater : IsLater g.tx.board g.rx.board
  rx-IsLater =
      rx_fire_keeps ⦃port = paced_rx until period⦄ (IsLater g.tx.board) rx_en-IsLater
        rx_tmr_start-IsLater rx_tmr_stop-IsLater clean_buffer-IsLater get_num_edges-IsLater
        get_millis-IsLater malloc _ g.rx (IsLater-refl g.tx.board) g.rx_fires

  pub rest-IsLater : IsLater g.button.board g.rx.board
  rest-IsLater = IsLater-trans tx-IsLater rx-IsLater

  pub stages-IsLater : IsLater s.board g.rx.board
  stages-IsLater = IsLater-trans button-IsLater rest-IsLater
