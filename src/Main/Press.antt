-- ===== src/Main/Press.antt =====
-- From a press of the button to the wave of a code: the machines of common/src, in two rounds of
-- the endless loop of common/src/retina.c.
use mathlib.Core.Option.{some-injective}
use transmisor_receptor_ir.Common.{
  ℕ, ◌+◌, ◌%◌, ◌≤◌, ◌<◌, ◌≡◌, ◌≢◌, sym, ◌∙◌, subst, ap, Option, some, none, arith,
}
use transmisor_receptor_ir.Nec.{FsmRxNec}
use transmisor_receptor_ir.Button.Port.{ButtonPort}
use transmisor_receptor_ir.Button.{ButtonOn, button_fire, fsm_button_get_duration}
use transmisor_receptor_ir.Button.Runs.{button_fire-IsBoard}
use transmisor_receptor_ir.Tx.Port.{TxPort}
use transmisor_receptor_ir.Tx.{TxOn, tx_fire}
use transmisor_receptor_ir.Tx.Fire.{Sent, tx_fire-Sent}
use transmisor_receptor_ir.Ticker.{reads_for}
use transmisor_receptor_ir.Rx.Port.{RxPort}
use transmisor_receptor_ir.Retina.Port.{RetinaPort}
use transmisor_receptor_ir.Retina.{System, wait_tx}
use transmisor_receptor_ir.Retina.Modes.{message, message-ne-zero}
use transmisor_receptor_ir.Retina.Codes.{short_press_sends}
use transmisor_receptor_ir.Main.{main_round}
use transmisor_receptor_ir.Main.Rounds.{main_round-Stages, rest_of_round, rest_of_round-IsReady}
use transmisor_receptor_ir.Main.Runs.{SharesBoard, IsGoing, main_round_total}

module _ {B : Type 0} ⦃button_port : ButtonPort B⦄ ⦃tx_port : TxPort B⦄ ⦃rx_port : RxPort B⦄
    ⦃retina_port : RetinaPort B⦄ (fuel : ℕ) (malloc : ℕ → Option FsmRxNec) where
  -- The round that finds the press.
  record IsPicked (s t : System B) : Type 0 where
    going : IsGoing t
    code : t.tx.code ≡ message s.retina.tx_codes_index
    index : t.retina.tx_codes_index ≡ (s.retina.tx_codes_index + 1) % 3
    mode : t.retina.current_state ≡ wait_tx
    reset : fsm_button_get_duration t.button ≡ 0

  -- What two rounds of the loop, from `s` to `t` and on to `u`, come to: the message of `s` is set,
  -- and the wave of its code is sent from the board that the button's machine leaves.
  pub record SendsMessage (s t u : System B) : Type 0 where
    pub first : main_round fuel malloc s ≡ some t
    pub second : main_round fuel malloc t ≡ some u
    pub index : t.retina.tx_codes_index ≡ (s.retina.tx_codes_index + 1) % 3
    pub button : ButtonOn B
    pub tx : TxOn B
    pub button_fires : button_fire (record { fsm = t.button; board = t.board }) ≡ some button
    pub tx_fires : tx_fire fuel (record { fsm = t.tx; board = button.board }) ≡ some tx
    pub sent : Sent (message s.retina.tx_codes_index) button.board tx.board

  module _ {IsStart : B → Type 0} (shares : SharesBoard IsStart)
      (enough : reads_for tx_port.period 3570 ≤ fuel) (never_null : (n : ℕ) → malloc n ≢ none) where
    press-IsPicked :
        (s : System B) (b : ButtonOn B)
        → IsGoing s
        → s.retina.current_state ≡ wait_tx
        → button_fire (record { fsm = s.button; board = s.board }) ≡ some b
        → fsm_button_get_duration b.fsm ≢ 0
        → fsm_button_get_duration b.fsm < s.retina.long_button_press_ms
        → (t : System B) × (main_round fuel malloc s ≡ some t) × IsPicked s t
    press-IsPicked s b i q p pressed short =
        let (t, e, j) = main_round_total fuel malloc shares enough never_null s i in
        let g = main_round-Stages fuel malloc s t e in
        let same : g.button ≡ b = some-injective _ _ (sym g.button_fires ∙ p) in
        let d = ap (λ (c : ButtonOn B). fsm_button_get_duration c.fsm) same in
        let (code, index, reset, mode, _, _) =
          short_press_sends (rest_of_round fuel malloc g.button g.tx g.rx s) t
            (rest_of_round-IsReady fuel malloc s g.button g.tx g.rx i.sound g.rx_fires) q
            (λ z. pressed (sym d ∙ z)) (omega arith) g.retina_fires in
        (t, e, record { going = j; code = code; index = index; mode = mode; reset = reset })

    -- In the sending mode, when the button's machine reports a short press, the loop makes two more
    -- rounds, and the second one sends the wave of the next message's code.
    pub press-SendsMessage :
        (s : System B) (b : ButtonOn B)
        → IsGoing s
        → s.retina.current_state ≡ wait_tx
        → button_fire (record { fsm = s.button; board = s.board }) ≡ some b
        → fsm_button_get_duration b.fsm ≢ 0
        → fsm_button_get_duration b.fsm < s.retina.long_button_press_ms
        → (t : System B) × (u : System B) × SendsMessage s t u
    press-SendsMessage s b i q p pressed short =
        let (t, e, k) = press-IsPicked s b i q p pressed short in
        let (u, f, _) = main_round_total fuel malloc shares enough never_null t k.going in
        let g = main_round-Stages fuel malloc t u f in
        let v = (shares.button g.button.board).0 (
          button_fire-IsBoard _ g.button ((shares.button t.board).1 k.going.on_board)
            g.button_fires) in
        let (x, h, _, sent) =
          tx_fire-Sent fuel (record { fsm = t.tx; board = g.button.board }) enough k.going.waiting
            (λ z. message-ne-zero s.retina.tx_codes_index (sym k.code ∙ z)) v in
        (
          t,
          u,
          record {
            first = e;
            second = f;
            index = k.index;
            button = g.button;
            tx = x;
            button_fires = g.button_fires;
            tx_fires = h;
            sent = subst (λ (n : ℕ). Sent n g.button.board x.board) k.code sent;
          },
        )
