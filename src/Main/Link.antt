-- ===== src/Main/Link.antt =====
-- From a press on one board to the LED of another: the whole program of common/src/retina.c, on two
-- boards of port/nucleo_stm32f446re/src.
use transmisor_receptor_ir.Common.{
  ℕ, zero, suc, ◌≤◌, ◌<◌, ◌^◌, ◌≡◌, ◌≢◌, refl, ◌∙◌, ap, sym, true, false, Option, some, none, List,
  [], ◌++◌, arith, length,
}
use mathlib.Core.Option.{some-injective}
use transmisor_receptor_ir.Nec.{FsmRxNec}
use transmisor_receptor_ir.Nec.Reference.{widths}
use transmisor_receptor_ir.Air.Sampled.{edge_counts, AreNear-IsHeard}
use transmisor_receptor_ir.Button.{ButtonOn, button_fire, fsm_button_get_duration}
use transmisor_receptor_ir.Tx.{TxOn, tx_fire}
use transmisor_receptor_ir.Tx.Wave.{AreNear, nominal_wave, Emits, air_of}
use transmisor_receptor_ir.Tx.Carrier.{IsWave, carried-AreNear}
use transmisor_receptor_ir.Ticker.{reads_for}
use transmisor_receptor_ir.Rx.Results.{IsTimeout}
use transmisor_receptor_ir.Retina.{System, wait_rx, wait_tx}
use transmisor_receptor_ir.Retina.Modes.{message}
use transmisor_receptor_ir.Retina.Codes.{Color, rgb, colors, color_of}
use transmisor_receptor_ir.Main.Runs.{IsGoing}
use transmisor_receptor_ir.Main.Heard.{receiver_of, wave_shown}
use transmisor_receptor_ir.Main.Board.{IsGoingOn, board_round, press_sent}
use transmisor_receptor_ir.Port.State.{Irq, Board, gpiob, gpioc}
use transmisor_receptor_ir.Port.Tx.{port_tx_symbol_tmr_start}
use transmisor_receptor_ir.Port.Rgb.{rgb_r_0_pin, rgb_g_0_pin, rgb_b_0_pin}
use transmisor_receptor_ir.Port.Led.{driven}
use transmisor_receptor_ir.Port.Edges.{IsOn, replay}
use transmisor_receptor_ir.Port.Heard.{captured_soon}
use transmisor_receptor_ir.Port.Wave.{line_irqs, wave_irqs, replay_frame}
use transmisor_receptor_ir.Port.System.{Cmsis}
use transmisor_receptor_ir.Port.ForTx.{board_tx}
use transmisor_receptor_ir.Port.ForRx.{board_rx}
use transmisor_receptor_ir.Port.ForRetina.{board_retina}
use transmisor_receptor_ir.Port.ForMain.{paced_button}

-- The colours of the three messages.
abbrev pub message_color : ℕ → Color
message_color zero = rgb true false false
message_color (suc zero) = rgb false true false
message_color (suc (suc n)) = rgb false false true

color_of-message : (n : ℕ) → color_of colors (message n) ≡ some (message_color n)
color_of-message zero = refl
color_of-message (suc zero) = refl
color_of-message (suc (suc n)) = refl

message-lt : (n : ℕ) → message n < 2 ^ 32
message-lt zero = omega arith
message-lt (suc zero) = omega arith
message-lt (suc (suc n)) = omega arith

-- A receiving board in a round of its loop: what stands when the receiver's turn comes.
module _ (until : ℕ → ℕ) (period : ℕ) (fuel : ℕ) (malloc : ℕ → Option FsmRxNec) where
  pub record IsListening (s : System Board) (b : ButtonOn Board) (x : TxOn Board) : Type 0 where
    pub enough : reads_for period 3570 ≤ fuel
    pub never_null : (k : ℕ) → malloc k ≢ none
    pub going : IsGoing ⦃tx_port = board_tx until period⦄ s
    pub mode : s.retina.current_state ≡ wait_rx
    pub button_fires :
        button_fire ⦃port = paced_button until period⦄ (record { fsm = s.button; board = s.board })
        ≡ some b
    pub tx_fires :
        tx_fire ⦃port = board_tx until period⦄ fuel (record { fsm = s.tx; board = b.board })
        ≡ some x
    pub on : IsOn x.board
    pub timeout : IsTimeout ⦃port = board_rx⦄ malloc (receiver_of until period fuel malloc s x)

-- A sending board: the button's machine reports a short press, a round of its loop returns, and in the
-- next one the button's machine and the transmitter return.
module _ (until : ℕ → ℕ) (period : ℕ) (fuel : ℕ) (malloc : ℕ → Option FsmRxNec) where
  abbrev pub button_at : System Board → Option (ButtonOn Board)
  button_at s =
      button_fire ⦃port = paced_button until period⦄ (record { fsm = s.button; board = s.board })

  abbrev pub tx_at : System Board → Board → Option (TxOn Board)
  tx_at s b = tx_fire ⦃port = board_tx until period⦄ fuel (record { fsm = s.tx; board = b })

  pub record IsPressed (s : System Board) (b : ButtonOn Board) (t : System Board)
      (c : ButtonOn Board) (y : TxOn Board) : Type 0 where
    pub enough : reads_for period 3570 ≤ fuel
    pub never_null : (k : ℕ) → malloc k ≢ none
    pub going : IsGoingOn until period s
    pub mode : s.retina.current_state ≡ wait_tx
    pub reports : button_at s ≡ some b
    pub pressed : fsm_button_get_duration b.fsm ≢ 0
    pub short : fsm_button_get_duration b.fsm < s.retina.long_button_press_ms
    pub returns : board_round until period fuel malloc s ≡ some t
    pub button_fires : button_at t ≡ some c
    pub tx_fires : tx_at t c.board ≡ some y

  -- What its carrier does is near the wave of the message.
  pressed-AreNear :
      (cmsis : Cmsis) (s : System Board) (b : ButtonOn Board) (t : System Board)
      (c : ButtonOn Board) (y : TxOn Board) (ws : List (ℕ × ℕ))
      → IsPressed s b t c y
      → IsWave ws
      → Emits ⦃port = board_tx until period⦄ (port_tx_symbol_tmr_start c.board) ws y.board
      → AreNear (nominal_wave (message s.retina.tx_codes_index)) ws
  pressed-AreNear cmsis s b t c y ws p w e =
      let (t', u', m) =
        press_sent until period cmsis fuel malloc s b p.enough p.never_null p.going p.mode p.reports
          p.pressed p.short in
      let same : t' ≡ t = some-injective _ _ (sym m.first ∙ p.returns) in
      let button : m.button ≡ c =
        some-injective _ _ (sym m.button_fires ∙ ap button_at same ∙ p.button_fires) in
      let tx : m.tx ≡ y = some-injective _ _ (
        sym m.tx_fires
        ∙ ap (λ (x : System Board). tx_at x m.button.board) same
        ∙ ap (λ (x : ButtonOn Board). tx_at t x.board) button
        ∙ p.tx_fires) in
      let start = λ (x : ButtonOn Board). port_tx_symbol_tmr_start x.board in
      let emits : y.board.on_air ≡ (start c).on_air ++ air_of m.sent.wave =
        ap (λ (x : TxOn Board). x.board.on_air) (sym tx)
        ∙ m.sent.emits
        ∙ ap (λ (x : ButtonOn Board). (start x).on_air ++ air_of m.sent.wave) button in
      carried-AreNear (message s.retina.tx_codes_index) (start c).on_air y.board.on_air m.sent.wave
        ws m.sent.near_nominal emits w e

module _ (until until' : ℕ → ℕ) (period period' : ℕ) (cmsis : Cmsis) (fuel fuel' : ℕ)
    (malloc malloc' : ℕ → Option FsmRxNec) where
  -- Two boards. On the first, while the program runs as it should, the waits may read the tick often
  -- enough and `malloc` never gives NULL, the button's machine reports a short press in the sending
  -- mode, the round returns, and in the next one its button and its transmitter return; from the
  -- start of the symbol timer on, its carrier does what a wave, all of whose durations are at least a
  -- tick, says at each tick. The second is in the receiving mode: its waits may read the tick as
  -- often as the longest one needs, its malloc never gives NULL, and its program is going; in a round
  -- of its loop its button and its transmitter return, the receiver's line is on, the edges captured
  -- by then are those of a buffer that was empty and of interrupts at the edges of that wave,
  -- wherever in time, and the receiver's wait for more is over. Then the round returns, and drives
  -- the LED of the second to the colour of the message that was next on the first: red, green or
  -- blue.
  pub press_lights :
      (s : System Board) (b : ButtonOn Board) (t : System Board) (c : ButtonOn Board)
      (y : TxOn Board) (ws : List (ℕ × ℕ)) (r : System Board) (d : ButtonOn Board) (x : TxOn Board)
      (time : ℕ) (is : List Irq)
      → IsPressed until period fuel malloc s b t c y
      → IsWave ws
      → Emits ⦃port = board_tx until period⦄ (port_tx_symbol_tmr_start c.board) ws y.board
      → IsListening until' period' fuel' malloc' r d x
      → captured_soon x.board ≡ replay is []
      → line_irqs is ≡ wave_irqs time ws
      → let color = message_color s.retina.tx_codes_index in
        (v : System Board) × (board_round until' period' fuel' malloc' r ≡ some v)
        × (driven gpiob rgb_r_0_pin v.board.bsrr ≡ some color.red)
        × (driven gpioc rgb_g_0_pin v.board.bsrr ≡ some color.green)
        × (driven gpiob rgb_b_0_pin v.board.bsrr ≡ some color.blue)
  press_lights s b t c y ws r d x time is p w emits l since same =
      let n = s.retina.tx_codes_index in
      let near = pressed-AreNear until period fuel malloc cmsis s b t c y ws p w emits in
      let counts = edge_counts time ws in
      let heard = since ∙ replay_frame (message n) time ws is near same in
      wave_shown until' period' fuel' malloc' r d x (message n) (message_color n) ws
        (widths (length counts) counts) l.enough l.never_null l.going l.mode l.button_fires
        l.tx_fires l.on l.timeout (message-lt n) near (AreNear-IsHeard (message n) time near)
        (ap (λ (ticks : List ℕ). widths (length ticks) ticks) heard) (color_of-message n)
