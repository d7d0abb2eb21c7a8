-- ===== src/Main/Answer.antt =====
-- From a press, by the time between its two ends, to the program's answer: common/src on the board
-- of port/nucleo_stm32f446re/src.
use transmisor_receptor_ir.Common.{ℕ, ◌+◌, ◌≤◌, ◌<◌, ◌^◌, ◌≡◌, ◌≢◌, ◌⊎◌, Option, some, none, arith}
use transmisor_receptor_ir.Nec.{FsmRxNec}
use transmisor_receptor_ir.Button.{ButtonOn, button_fire, button_released, button_pressed_wait}
use transmisor_receptor_ir.Ticker.{reads_for}
use transmisor_receptor_ir.Retina.{System, wait_tx, wait_rx, sleep_tx}
use transmisor_receptor_ir.Main.Board.{IsGoingOn, board_round, SendsOn, press_sent}
use transmisor_receptor_ir.Main.Hearing.{IsTuned, main_round-IsTuned, long_press_listens}
use transmisor_receptor_ir.Rx.{off_rx}
use transmisor_receptor_ir.Port.Hearing.{IsHearing}
use transmisor_receptor_ir.Port.System.{Cmsis}
use transmisor_receptor_ir.Port.State.{Board}
use transmisor_receptor_ir.Port.ForRetina.{board_retina}
use transmisor_receptor_ir.Port.ForMain.{paced_button}
use transmisor_receptor_ir.Main.Held.{button_of, Holds, Holds-IsTuned, press_timed}

-- A short press is answered. While the program runs as it should, in the sending mode, awake or
-- asleep, with the button at rest and no press left to handle, the waits may read the tick often
-- enough and `malloc` never gives NULL: where a round sees a press, rounds follow while it lasts,
-- for at least 1 ms, and the next call of the button's machine sees its end, less than the time of
-- a long press after all began, then the loop makes two more rounds, and the second one sends:
-- from the start of the symbol timer on, at each of its ticks, the carrier is on and off as in a
-- wave near the frame of the message that was next.
pub press_answered :
    (until : ℕ → ℕ) (period : ℕ) (cmsis : Cmsis) (fuel : ℕ) (malloc : ℕ → Option FsmRxNec)
    (s t u : System Board) (b : ButtonOn Board)
    → reads_for period 3570 ≤ fuel
    → ((k : ℕ) → malloc k ≢ none)
    → IsGoingOn until period s
    → (s.retina.current_state ≡ wait_tx) ⊎ (s.retina.current_state ≡ sleep_tx)
    → s.button.current_state ≡ button_released
    → s.button.duration ≡ 0
    → s.retina.long_button_press_ms ≤ 2 ^ 32
    → board_round until period fuel malloc s ≡ some t
    → Holds until period fuel malloc t u
    → button_fire ⦃port = paced_button until period⦄ (button_of u) ≡ some b
    → b.fsm.current_state ≡ button_pressed_wait
    → t.board.systicks < u.board.systicks
    → b.board.systicks < s.board.systicks + s.retina.long_button_press_ms
    → (v : System Board) × (w : System Board) × SendsOn until period cmsis fuel malloc u v w
      × (u.retina.tx_codes_index ≡ s.retina.tx_codes_index)
press_answered until period cmsis fuel malloc s t u b enough never_null i mode up quiet long e r f
      down lasts short =
    let (awake, j, lower, upper) =
      press_timed until period fuel malloc enough never_null s t u b i mode up quiet e r f down
        (omega arith) in
    let (v, w, m) =
      press_sent until period cmsis fuel malloc u b enough never_null j.going awake f
        (λ z. omega arith) (omega (arith, j.long)) in
    (v, w, m, j.index)

-- A long press is answered. Under the same conditions, with the receiver off or hearing, where the
-- press lasts as long as a long one and less than 2^32 ms, the loop makes two more rounds: the first
-- ends in the receiving mode, and after the second the receiver's machine is not off and has a
-- parser, its line is on, and its timer runs.
pub hold_answered :
    (until : ℕ → ℕ) (period : ℕ) (fuel : ℕ) (malloc : ℕ → Option FsmRxNec) (s t u : System Board)
    (b : ButtonOn Board)
    → reads_for period 3570 ≤ fuel
    → ((k : ℕ) → malloc k ≢ none)
    → IsGoingOn until period s
    → IsTuned s
    → (s.retina.current_state ≡ wait_tx) ⊎ (s.retina.current_state ≡ sleep_tx)
    → s.button.current_state ≡ button_released
    → s.button.duration ≡ 0
    → board_round until period fuel malloc s ≡ some t
    → Holds until period fuel malloc t u
    → button_fire ⦃port = paced_button until period⦄ (button_of u) ≡ some b
    → b.fsm.current_state ≡ button_pressed_wait
    → t.board.systicks < u.board.systicks
    → t.board.systicks + s.retina.long_button_press_ms ≤ u.board.systicks
    → b.board.systicks < s.board.systicks + 2 ^ 32
    → (v : System Board) × (w : System Board) × (board_round until period fuel malloc u ≡ some v)
      × (board_round until period fuel malloc v ≡ some w)
      × (v.retina.current_state ≡ wait_rx)
      × (w.rx.current_state ≢ off_rx)
      × (w.rx.p_fsm_rx_nec ≢ none)
      × IsHearing w.board
hold_answered until period fuel malloc s t u b enough never_null i tuned mode up quiet e r f down
      lasts long soon =
    let (awake, j, lower, upper) =
      press_timed until period fuel malloc enough never_null s t u b i mode up quiet e r f down
        soon in
    let here =
      Holds-IsTuned until period fuel malloc t u r
        (main_round-IsTuned until period fuel malloc s t tuned e) in
    long_press_listens until period fuel malloc u b enough never_null j.going here awake f
      (λ z. omega arith) (omega (arith, j.long))
