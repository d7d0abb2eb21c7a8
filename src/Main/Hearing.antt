-- ===== src/Main/Hearing.antt =====
-- When the program listens (common/src on the board of port/nucleo_stm32f446re/src): what holds of
-- the receiver's line and timer between any two rounds of the endless loop, and how a long press
-- turns them on.
use transmisor_receptor_ir.Common.{
  ℕ, zero, suc, ◌≤◌, ◌≡◌, ◌≢◌, ◌⊎◌, inl, inr, sym, ap, ◌∙◌, Option, some, none, Option-cases, arith,
}
use transmisor_receptor_ir.Nec.{FsmRxNec}
use transmisor_receptor_ir.Button.{ButtonOn, button_fire, fsm_button_get_duration}
use transmisor_receptor_ir.Button.Boards.{button_fire_keeps}
use transmisor_receptor_ir.Tx.{TxOn, tx_fire}
use transmisor_receptor_ir.Tx.Boards.{tx_fire-IsBoard}
use transmisor_receptor_ir.Rx.{RxOn, off_rx}
use transmisor_receptor_ir.Rx.Boards.{rx_fire-IsHearing}
use transmisor_receptor_ir.Rx.Memory.{IsOwned}
use transmisor_receptor_ir.Rx.Boards.{on_fire}
use transmisor_receptor_ir.Ticker.{reads_for}
use transmisor_receptor_ir.Retina.Codes.{long_press_receives}
use transmisor_receptor_ir.Port.System.{Cmsis}
use mathlib.Core.Option.{some-injective}
use transmisor_receptor_ir.Retina.{System, wait_tx, wait_rx}
use transmisor_receptor_ir.Retina.Boards.{retina_fire-IsBoard, retina_fire-IsLeft}
use transmisor_receptor_ir.Main.{Memory}
use transmisor_receptor_ir.Main.Rounds.{stages-IsOwned, rest_of_round}
use transmisor_receptor_ir.Main.Runs.{main_init-off}
use transmisor_receptor_ir.Main.Board.{
  IsGoingOn, board_round, board_stages, board_round_total, main_start, main_start-init, main_loop,
}
use transmisor_receptor_ir.Port.State.{Board}
use transmisor_receptor_ir.Port.Hearing.{
  IsHearing, is_pressed-IsHearing, get_tick-IsHearing, get_millis-IsHearing,
  symbol_tmr_start-IsHearing, symbol_tmr_stop-IsHearing, pwm_timer_set-IsHearing,
  tmr_get_tick-IsHearing, get_num_edges-IsHearing, clean_buffer-IsHearing, started-IsHearing,
  rgb_set_color-IsHearing, system_sleep-IsHearing,
}
use transmisor_receptor_ir.Port.ForTx.{board_tx}
use transmisor_receptor_ir.Port.ForRetina.{board_retina}
use transmisor_receptor_ir.Port.ForMain.{paced_button, paced_rx}

-- A receiver that is not off hears.
abbrev pub IsTuned : System Board → Type 0
IsTuned s = (s.rx.current_state ≡ off_rx) ⊎ IsHearing s.board

tuned_hears : (s : System Board) → IsTuned s → s.rx.current_state ≢ off_rx → IsHearing s.board
tuned_hears s (inl off) on = absurd (on off)
tuned_hears s (inr h) on = h

IsOwned-parser :
    {s : RxOn Board} → IsOwned s → s.fsm.current_state ≢ off_rx → s.fsm.p_fsm_rx_nec ≢ none
IsOwned-parser o on = elim o.known [
  | inl q ↦ absurd (on q)
  | inr (inl q) ↦ o.idle q
  | inr (inr q) ↦ o.wait q
]

module _ (until : ℕ → ℕ) (period : ℕ) (fuel : ℕ) (malloc : ℕ → Option FsmRxNec) where
  stages-IsHearing :
      (s : System Board) (b : ButtonOn Board) (x : TxOn Board)
      → IsHearing s.board
      → button_fire ⦃port = paced_button until period⦄ (record { fsm = s.button; board = s.board })
        ≡ some b
      → tx_fire ⦃port = board_tx until period⦄ fuel (record { fsm = s.tx; board = b.board })
        ≡ some x
      → IsHearing x.board
  stages-IsHearing s b x h p q =
      tx_fire-IsBoard ⦃port = board_tx until period⦄ IsHearing symbol_tmr_start-IsHearing
        symbol_tmr_stop-IsHearing pwm_timer_set-IsHearing tmr_get_tick-IsHearing fuel _ x
        (button_fire_keeps ⦃port = paced_button until period⦄ IsHearing is_pressed-IsHearing
          get_tick-IsHearing _ b h p)
        q

  -- A round keeps it so.
  pub main_round-IsTuned :
      (s t : System Board) → IsTuned s → board_round until period fuel malloc s ≡ some t → IsTuned t
  main_round-IsTuned s t i e =
      let g = board_stages until period fuel malloc s t e in
      let l = retina_fire-IsLeft ⦃port = board_retina⦄ _ t g.retina_fires in
      let heard : (s.rx.current_state ≡ off_rx) ⊎ IsHearing g.tx.board = elim i [
        | inl off ↦ inl off
        | inr h ↦ inr (stages-IsHearing s g.button g.tx h g.button_fires g.tx_fires)
      ] in
      elim (rx_fire-IsHearing ⦃port = paced_rx until period⦄ IsHearing started-IsHearing
        clean_buffer-IsHearing get_num_edges-IsHearing get_millis-IsHearing malloc _ g.rx heard
        g.rx_fires) [
          | inl off ↦ inl (l.state ∙ off)
          | inr h ↦ inr (
              retina_fire-IsBoard ⦃port = board_retina⦄ IsHearing rgb_set_color-IsHearing
                system_sleep-IsHearing _ t h g.retina_fires)
        ]

  -- While the program runs as it should, its receiver off or hearing, the waits may read the tick
  -- often enough and `malloc` never gives NULL: in the sending mode, where the button's machine
  -- reports a long press, the loop makes two more rounds. The first ends in the receiving mode;
  -- after the second, the receiver's machine is not off and has a parser, its line is on, and its
  -- timer runs.
  pub long_press_listens :
      (s : System Board) (b : ButtonOn Board)
      → reads_for period 3570 ≤ fuel
      → ((k : ℕ) → malloc k ≢ none)
      → IsGoingOn until period s
      → IsTuned s
      → s.retina.current_state ≡ wait_tx
      → button_fire ⦃port = paced_button until period⦄ (record { fsm = s.button; board = s.board })
        ≡ some b
      → fsm_button_get_duration b.fsm ≢ 0
      → s.retina.long_button_press_ms ≤ fsm_button_get_duration b.fsm
      → (t : System Board) × (u : System Board) × (board_round until period fuel malloc s ≡ some t)
        × (board_round until period fuel malloc t ≡ some u)
        × (t.retina.current_state ≡ wait_rx)
        × (u.rx.current_state ≢ off_rx)
        × (u.rx.p_fsm_rx_nec ≢ none)
        × IsHearing u.board
  long_press_listens s b enough never_null i tuned q p pressed long =
      let (t, e, j) = board_round_total until period fuel malloc enough never_null s i in
      let g = board_stages until period fuel malloc s t e in
      let same : g.button ≡ b = some-injective _ _ (sym g.button_fires ∙ p) in
      let d = ap (λ (c : ButtonOn Board). fsm_button_get_duration c.fsm) same in
      let (mode, on, _, _) =
        long_press_receives ⦃port = board_retina⦄
          (rest_of_round ⦃button_port = paced_button until period⦄ ⦃tx_port = board_tx until period⦄
            ⦃rx_port = paced_rx until period⦄ ⦃retina_port = board_retina⦄ fuel malloc g.button g.tx
            g.rx s)
          t q (λ z. pressed (sym d ∙ z)) (omega arith) g.retina_fires in
      let (u, f, k) = board_round_total until period fuel malloc enough never_null t j in
      let h = board_stages until period fuel malloc t u f in
      let l = retina_fire-IsLeft ⦃port = board_retina⦄ _ u h.retina_fires in
      let o =
        stages-IsOwned ⦃button_port = paced_button until period⦄ ⦃tx_port = board_tx until period⦄
          ⦃rx_port = paced_rx until period⦄ ⦃retina_port = board_retina⦄ fuel malloc t h.tx.board
          j.sound in
      let not_off : u.rx.current_state ≢ off_rx = λ off.
        on_fire ⦃port = paced_rx until period⦄ malloc _ h.rx o on h.rx_fires (sym l.state ∙ off) in
      (
        t,
        u,
        e,
        f,
        mode,
        not_off,
        IsOwned-parser k.sound.owned not_off,
        tuned_hears u (main_round-IsTuned t u (main_round-IsTuned s t tuned e) f) not_off,
      )

module _ (until : ℕ → ℕ) (period : ℕ) (cmsis : Cmsis) (fuel : ℕ)
    (malloc : ℕ → Option FsmRxNec) where
  start_tuned :
      (memory : Memory) (b : Board) (s : System Board)
      → main_start until period cmsis fuel malloc memory b ≡ some s
      → s.rx.current_state ≡ off_rx
  start_tuned memory b s e =
      let (c, p) = main_start-init until period cmsis fuel malloc memory b s e in
      main_init-off ⦃button_port = paced_button until period⦄ ⦃tx_port = board_tx until period⦄
        ⦃rx_port = paced_rx until period⦄ ⦃retina_port = board_retina⦄ fuel malloc memory c s p

  rest-IsTuned :
      (n : ℕ) (s t : System Board)
      → IsTuned s
      → main_loop until period cmsis fuel malloc n s ≡ some t
      → IsTuned t
  rest-IsTuned zero s t i e = ground arith
  rest-IsTuned (suc n) s t i e = elim (Option-cases (board_round until period fuel malloc s)) [
    | inl p ↦ absurd (ground arith)
    | inr (m, p) ↦
        rest-IsTuned n m t (main_round-IsTuned until period fuel malloc s m i p) (ground arith)
  ]

  -- After the start and any number of rounds, the receiver's machine is off, or the line of its pin
  -- is on and its timer runs, whatever interrupts came.
  pub main_loop-IsTuned :
      (memory : Memory) (b : Board) (n : ℕ) (s t : System Board)
      → main_start until period cmsis fuel malloc memory b ≡ some s
      → main_loop until period cmsis fuel malloc n s ≡ some t
      → IsTuned t
  main_loop-IsTuned memory b n s t e f = rest-IsTuned n s t (inl (start_tuned memory b s e)) f
