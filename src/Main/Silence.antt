-- ===== src/Main/Silence.antt =====
-- How a long press turns the receiver off: common/src on the board of
-- port/nucleo_stm32f446re/src.
use mathlib.Core.Option.{some-injective}
use transmisor_receptor_ir.Common.{
  ℕ, ◌≤◌, ◌≡◌, ◌≢◌, sym, ap, ◌∙◌, subst, false, Option, some, none, arith,
}
use transmisor_receptor_ir.Nec.{FsmRxNec}
use transmisor_receptor_ir.Button.{ButtonOn, button_fire, fsm_button_get_duration}
use transmisor_receptor_ir.Ticker.{reads_for}
use transmisor_receptor_ir.Rx.{off_rx, idle_rx}
use transmisor_receptor_ir.Rx.Boards.{idle_keeps, idle_stops}
use transmisor_receptor_ir.Retina.{System, wait_tx, wait_rx}
use transmisor_receptor_ir.Retina.Boards.{retina_fire-IsLeft, retina_fire-IsBoard}
use transmisor_receptor_ir.Retina.Codes.{long_press_sends}
use transmisor_receptor_ir.Retina.Life.{off}
use transmisor_receptor_ir.Main.Rounds.{rest_of_round}
use transmisor_receptor_ir.Main.Board.{IsGoingOn, board_round, board_stages, board_round_total}
use transmisor_receptor_ir.Main.Lit.{IsLit, rgb_set_color-IsLit}
use transmisor_receptor_ir.Port.State.{Board}
use transmisor_receptor_ir.Port.Deaf.{
  IsDeaf, stopped-IsDeaf, rgb_set_color-IsDeaf, system_sleep-IsDeaf,
}
use transmisor_receptor_ir.Port.ForTx.{board_tx}
use transmisor_receptor_ir.Port.ForRetina.{board_retina}
use transmisor_receptor_ir.Port.ForMain.{paced_button, paced_rx}

module _ (until : ℕ → ℕ) (period : ℕ) (fuel : ℕ) (malloc : ℕ → Option FsmRxNec) where
  -- The round that finds the press.
  press_turns :
      (s t : System Board) (b : ButtonOn Board)
      → s.retina.current_state ≡ wait_rx
      → s.rx.current_state ≡ idle_rx
      → s.rx.code ≡ 0
      → s.rx.is_repetition ≡ false
      → s.rx.is_error ≡ false
      → button_fire ⦃port = paced_button until period⦄ (record { fsm = s.button; board = s.board })
        ≡ some b
      → fsm_button_get_duration b.fsm ≢ 0
      → s.retina.long_button_press_ms ≤ fsm_button_get_duration b.fsm
      → board_round until period fuel malloc s ≡ some t
      → (t.retina.current_state ≡ wait_tx) × (t.rx.status ≡ false) × IsLit off t.board
  press_turns s t b q idle code repetition error p pressed long e =
      let g = board_stages until period fuel malloc s t e in
      let same : g.button ≡ b = some-injective _ _ (sym g.button_fires ∙ p) in
      let d = ap (λ (c : ButtonOn Board). fsm_button_get_duration c.fsm) same in
      let (same_code, same_mark, same_error) =
        idle_keeps ⦃port = paced_rx until period⦄ malloc _ g.rx idle g.rx_fires in
      let u =
        rest_of_round ⦃button_port = paced_button until period⦄ ⦃tx_port = board_tx until period⦄
          ⦃rx_port = paced_rx until period⦄ ⦃retina_port = board_retina⦄ fuel malloc g.button g.tx
          g.rx s in
      let (mode, status, _, dark) =
        long_press_sends ⦃port = board_retina⦄ u t q (same_code ∙ code) (same_mark ∙ repetition)
          (same_error ∙ error) (λ z. pressed (sym d ∙ z)) (omega arith) g.retina_fires in
      (
        mode,
        status,
        subst (IsLit off) (sym dark) (rgb_set_color-IsLit s.retina.rgb_id off g.rx.board),
      )

  -- The round that stops an idle receiver.
  round_stops :
      (t u : System Board)
      → t.rx.current_state ≡ idle_rx
      → t.rx.status ≡ false
      → board_round until period fuel malloc t ≡ some u
      → (u.rx.current_state ≡ off_rx) × (u.rx.p_fsm_rx_nec ≡ none) × IsDeaf u.board
  round_stops t u idle status e =
      let g = board_stages until period fuel malloc t u e in
      let (state, parser, board) =
        idle_stops ⦃port = paced_rx until period⦄ malloc _ g.rx idle status g.rx_fires in
      let l = retina_fire-IsLeft ⦃port = board_retina⦄ _ u g.retina_fires in
      let deaf = subst IsDeaf (sym board) (stopped-IsDeaf t.rx.rx_id g.tx.board) in
      (
        l.state ∙ state,
        l.parser ∙ parser,
        retina_fire-IsBoard ⦃port = board_retina⦄ IsDeaf rgb_set_color-IsDeaf system_sleep-IsDeaf _
            u deaf g.retina_fires,
      )

  -- While the program runs as it should, the waits may read the tick often enough and `malloc` never
  -- gives NULL: in the receiving mode, with the receiver idle and nothing received to handle, where
  -- the button's machine reports a long press and the round returns with the receiver still idle, it
  -- returns in the sending mode with the LED's pins driven low; and the next round returns, and
  -- leaves the receiver off, every parser that was allocated freed, its line off, and its timer
  -- stopped.
  pub long_press_silences :
      (s t : System Board) (b : ButtonOn Board)
      → reads_for period 3570 ≤ fuel
      → ((k : ℕ) → malloc k ≢ none)
      → IsGoingOn until period s
      → s.retina.current_state ≡ wait_rx
      → s.rx.current_state ≡ idle_rx
      → s.rx.code ≡ 0
      → s.rx.is_repetition ≡ false
      → s.rx.is_error ≡ false
      → button_fire ⦃port = paced_button until period⦄ (record { fsm = s.button; board = s.board })
        ≡ some b
      → fsm_button_get_duration b.fsm ≢ 0
      → s.retina.long_button_press_ms ≤ fsm_button_get_duration b.fsm
      → board_round until period fuel malloc s ≡ some t
      → t.rx.current_state ≡ idle_rx
      → (u : System Board) × (t.retina.current_state ≡ wait_tx)
        × IsLit off t.board
        × (board_round until period fuel malloc t ≡ some u)
        × (u.rx.current_state ≡ off_rx)
        × (u.mallocs ≡ u.frees)
        × IsDeaf u.board
  long_press_silences s t b enough never_null i q idle code repetition error p pressed long e
        still =
      let (mode, status, dark) = press_turns s t b q idle code repetition error p pressed long e in
      let (t', e', j) = board_round_total until period fuel malloc enough never_null s i in
      let going = subst (IsGoingOn until period) (some-injective _ _ (sym e' ∙ e)) j in
      let (u, f, k) = board_round_total until period fuel malloc enough never_null t going in
      let (state, parser, deaf) = round_stops t u still status f in
      (u, mode, dark, f, state, ground (arith, k.sound.owned.balance, parser), deaf)
