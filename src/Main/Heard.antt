-- ===== src/Main/Heard.antt =====
-- From the interrupts of the receiver's pin to the LED, in one round of the endless loop: the
-- machines of common/src on the board of port/nucleo_stm32f446re/src.
use mathlib.Core.Option.{some-injective}
use transmisor_receptor_ir.Common.{
  ℕ, ◌≤◌, ◌<◌, ◌^◌, ◌≡◌, ◌≢◌, refl, sym, ◌∙◌, subst, ap, Option, some, none, List, arith, length,
}
use transmisor_receptor_ir.Nec.{FsmRxNec}
use transmisor_receptor_ir.Nec.Reference.{widths}
use transmisor_receptor_ir.Air.{IsHeard}
use transmisor_receptor_ir.Button.{ButtonOn, button_fire}
use transmisor_receptor_ir.Button.Runs.{button_fire-IsBoard}
use transmisor_receptor_ir.Tx.{TxOn, tx_fire}
use transmisor_receptor_ir.Tx.Wave.{AreNear, nominal_wave}
use transmisor_receptor_ir.Tx.Fire.{tx_fire_total}
use transmisor_receptor_ir.Ticker.{reads_for}
use transmisor_receptor_ir.Rx.{RxOn, rx_fire, fsm_rx_get_code}
use transmisor_receptor_ir.Rx.Results.{IsTimeout}
use transmisor_receptor_ir.Rx.Memory.{rx_fire_total}
use transmisor_receptor_ir.Retina.{System, wait_rx}
use transmisor_receptor_ir.Retina.Modes.{retina_fire_total}
use transmisor_receptor_ir.Retina.Codes.{Color, colors, color_of}
use transmisor_receptor_ir.Main.Rounds.{rest_of_round, rest_of_round-IsReady, stages-IsOwned}
use transmisor_receptor_ir.Main.Board.{board_round}
use transmisor_receptor_ir.Main.Runs.{IsGoing, main_round-eq}
use transmisor_receptor_ir.Port.State.{Board, gpiob, gpioc}
use transmisor_receptor_ir.Port.Rgb.{rgb_r_0_pin, rgb_g_0_pin, rgb_b_0_pin}
use transmisor_receptor_ir.Port.Led.{driven}
use transmisor_receptor_ir.Port.Edges.{IsOn}
use transmisor_receptor_ir.Port.Heard.{captured_soon, wave_received}
use transmisor_receptor_ir.Port.Shown.{code_shown}
use transmisor_receptor_ir.Port.ForTx.{CanSend, board_tx}
use transmisor_receptor_ir.Port.ForRx.{board_rx}
use transmisor_receptor_ir.Port.ForRetina.{board_retina}
use transmisor_receptor_ir.Port.ForMain.{paced_button, paced_rx}

-- A code that has a colour is not 0.
color-ne-zero : (code : ℕ) (c : Color) → color_of colors code ≡ some c → code ≢ 0
color-ne-zero code c known z = ground arith

module _ (until : ℕ → ℕ) (period : ℕ) (fuel : ℕ) (malloc : ℕ → Option FsmRxNec) where
  -- The two ways in which the board fills the receiver's interface have the same functions.
  rx_fire-paced :
      (s : RxOn Board)
      → rx_fire ⦃port = paced_rx until period⦄ malloc s ≡ rx_fire ⦃port = board_rx⦄ malloc s
  unfolding rx_fire
  rx_fire-paced s = refl

  -- The receiver, when its turn comes.
  abbrev pub receiver_of : System Board → TxOn Board → RxOn Board
  receiver_of s x = record { fsm = s.rx; board = x.board; mallocs = s.mallocs; frees = s.frees }

  -- While the program runs as it should, the waits may read the tick often enough and `malloc` never
  -- gives NULL: in the receiving mode, where the line of the receiver's pin is on, its interrupts,
  -- in turn, have brought the edges of a wave near the frame of a code that has a colour, and the
  -- timeout has passed when the receiver's turn comes, the round of the loop returns, and it drives
  -- the three pins of the LED with the colour of this code.
  pub wave_shown :
      (s : System Board) (b : ButtonOn Board) (x : TxOn Board) (code : ℕ) (c : Color)
      (ws : List (ℕ × ℕ)) (us : List ℕ)
      → reads_for period 3570 ≤ fuel
      → ((k : ℕ) → malloc k ≢ none)
      → IsGoing ⦃tx_port = board_tx until period⦄ s
      → s.retina.current_state ≡ wait_rx
      → button_fire ⦃port = paced_button until period⦄ (record { fsm = s.button; board = s.board })
        ≡ some b
      → tx_fire ⦃port = board_tx until period⦄ fuel (record { fsm = s.tx; board = b.board })
        ≡ some x
      → IsOn x.board
      → IsTimeout ⦃port = board_rx⦄ malloc (receiver_of s x)
      → code < 2 ^ 32
      → AreNear (nominal_wave code) ws
      → IsHeard ws us
      → widths (length (captured_soon x.board)) (captured_soon x.board) ≡ us
      → color_of colors code ≡ some c
      → (t : System Board) × (board_round until period fuel malloc s ≡ some t)
        × (driven gpiob rgb_r_0_pin t.board.bsrr ≡ some c.red)
        × (driven gpioc rgb_g_0_pin t.board.bsrr ≡ some c.green)
        × (driven gpiob rgb_b_0_pin t.board.bsrr ≡ some c.blue)
  unfolding fsm_rx_get_code
  wave_shown s b x code c ws us enough never_null i mode p q on out fits close sounds same known =
      let v = button_fire-IsBoard ⦃port = paced_button until period⦄ _ b i.on_board p in
      let (x', q', _, _, w') =
        tx_fire_total ⦃port = board_tx until period⦄ fuel (record { fsm = s.tx; board = b.board })
          enough i.waiting v in
      let w : CanSend until period x.board =
        subst (λ (y : TxOn Board). CanSend until period y.board) (some-injective _ _ (sym q' ∙ q))
          w' in
      let s₃ = receiver_of s x in
      let o =
        stages-IsOwned ⦃button_port = paced_button until period⦄ ⦃tx_port = board_tx until period⦄
          ⦃rx_port = paced_rx until period⦄ ⦃retina_port = board_retina⦄ fuel malloc s x.board
          i.sound in
      let (r, h) =
        rx_fire_total ⦃port = paced_rx until period⦄ malloc s₃ o w (never_null s.mallocs) in
      let received =
        (wave_received malloc s₃ r code ws us o w.valid on out fits close sounds same
          (sym (rx_fire-paced s₃) ∙ h)).0 in
      let s₄ =
        rest_of_round ⦃button_port = paced_button until period⦄ ⦃tx_port = board_tx until period⦄
          ⦃rx_port = paced_rx until period⦄ ⦃retina_port = board_retina⦄ fuel malloc b x r s in
      let ready =
        rest_of_round-IsReady ⦃button_port = paced_button until period⦄
          ⦃tx_port = board_tx until period⦄ ⦃rx_port = paced_rx until period⦄
          ⦃retina_port = board_retina⦄ fuel malloc s b x r i.sound h in
      let (t, k) = retina_fire_total ⦃port = board_retina⦄ s₄ ready in
      let (red, green, blue) =
        code_shown s₄ t c mode (λ z. color-ne-zero code c known (sym received ∙ z))
          (ap (color_of colors) received ∙ known) k in
      (
        t,
        main_round-eq ⦃button_port = paced_button until period⦄ ⦃tx_port = board_tx until period⦄
              ⦃rx_port = paced_rx until period⦄ ⦃retina_port = board_retina⦄ fuel malloc s b x r p q
              h
            ∙ k,
        red,
        green,
        blue,
      )
