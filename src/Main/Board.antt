-- ===== src/Main/Board.antt =====
-- The program of common/src/retina.c on the board of port/nucleo_stm32f446re/src.
use transmisor_receptor_ir.Common.{
  ℕ, ◌≤◌, ◌<◌, ◌≡◌, ◌≢◌, Option, Option-cases, inl, inr, some, none, sym, subst, arith, ◌>>=◌,
}
use transmisor_receptor_ir.Nec.{FsmRxNec}
use transmisor_receptor_ir.Ticker.{reads_for}
use transmisor_receptor_ir.Retina.{System, wait_tx}
use transmisor_receptor_ir.Main.{Memory, main_init, main_round}
use transmisor_receptor_ir.Main.Rounds.{Stages, main_round-Stages}
use transmisor_receptor_ir.Button.{ButtonOn, button_fire, fsm_button_get_duration}
use transmisor_receptor_ir.Main.Press.{SendsMessage, press-SendsMessage}
use transmisor_receptor_ir.Main.Runs.{
  SharesBoard, IsAllocated, IsGoing, rounds, main_round_total, main_runs_lem,
}
use transmisor_receptor_ir.Port.State.{Board}
use transmisor_receptor_ir.Port.Valid.{IsValid}
use transmisor_receptor_ir.Port.Button.{port_button_init}
use transmisor_receptor_ir.Port.ForButton.{port_button_init-IsValid}
use transmisor_receptor_ir.Port.Keeps.{port_button_init-Keeps}
use transmisor_receptor_ir.Port.ForTx.{IsPaced, board_tx}
use transmisor_receptor_ir.Port.ForRetina.{board_retina}
use transmisor_receptor_ir.Port.System.{Cmsis, IsDocumented, port_system_init}
use transmisor_receptor_ir.Port.System.Startup.{started, init_started}
use transmisor_receptor_ir.Port.ForMain.{
  paced_button, paced_rx, rgb_init-CanSend, rgb_set_color-CanSend, system_sleep-CanSend,
  port_tx_init-CanSend,
}

module _ (until : ℕ → ℕ) (period : ℕ) where
  -- Boards on which the interrupts of the symbol timer come at a steady pace.
  pub record IsStart (b : Board) : Type 0 where
    pub valid : IsValid b
    pub paced : IsPaced until period b.arrivals

  port_button_init-IsStart : (id : ℕ) (b : Board) → IsStart b → IsStart (port_button_init id b)
  port_button_init-IsStart id b v = record {
    valid = port_button_init-IsValid id b v.valid;
    paced = subst (IsPaced until period) (sym (port_button_init-Keeps id b).arrivals) v.paced;
  }

  board_shares :
      SharesBoard ⦃button_port = paced_button until period⦄ ⦃tx_port = board_tx until period⦄
        ⦃rx_port = paced_rx until period⦄ ⦃retina_port = board_retina⦄ IsStart
  board_shares = record {
    button = λ b. (λ v. v, λ v. v);
    rx = λ b. (λ v. v, λ v. v);
    rgb_init-IsBoard = rgb_init-CanSend until period;
    rgb_set_color-IsBoard = rgb_set_color-CanSend until period;
    system_sleep-IsBoard = system_sleep-CanSend until period;
    button_init-IsStart = port_button_init-IsStart;
    tx_init-IsBoard = λ b v. port_tx_init-CanSend until period b v.valid v.paced;
  }

  abbrev pub IsGoingOn : System Board → Type 0
  IsGoingOn = IsGoing ⦃tx_port = board_tx until period⦄

  -- A round of the loop on the board, and its stages.
  module _ (fuel : ℕ) (malloc : ℕ → Option FsmRxNec) where
    abbrev pub board_round : System Board → Option (System Board)
    board_round =
        main_round ⦃button_port = paced_button until period⦄ ⦃tx_port = board_tx until period⦄
          ⦃rx_port = paced_rx until period⦄ ⦃retina_port = board_retina⦄ fuel malloc

    abbrev pub BoardStages : System Board → System Board → Type 0
    BoardStages =
        Stages ⦃button_port = paced_button until period⦄ ⦃tx_port = board_tx until period⦄
          ⦃rx_port = paced_rx until period⦄ ⦃retina_port = board_retina⦄ fuel malloc

    pub board_stages : (s t : System Board) → board_round s ≡ some t → BoardStages s t
    board_stages =
        main_round-Stages ⦃button_port = paced_button until period⦄
          ⦃tx_port = board_tx until period⦄ ⦃rx_port = paced_rx until period⦄
          ⦃retina_port = board_retina⦄ fuel malloc

    pub board_round_total :
        reads_for period 3570 ≤ fuel
        → ((k : ℕ) → malloc k ≢ none)
        → (s : System Board) → IsGoingOn s
        → (t : System Board) × (board_round s ≡ some t) × IsGoingOn t
    board_round_total =
        main_round_total ⦃button_port = paced_button until period⦄ ⦃tx_port = board_tx until period⦄
          ⦃rx_port = paced_rx until period⦄ ⦃retina_port = board_retina⦄ fuel malloc board_shares

  started-IsStart :
      (cmsis : Cmsis) (doc : IsDocumented cmsis) (b : Board)
      → IsStart b
      → IsStart (started cmsis doc b)
  unfolding started
  started-IsStart cmsis doc b v = ground arith

-- `main`, up to its endless loop.
module _ (until : ℕ → ℕ) (period : ℕ) (cmsis : Cmsis) (fuel : ℕ)
    (malloc : ℕ → Option FsmRxNec) where
  unfoldable pub main_start : Memory → Board → Option (System Board)
  unfolding main_init
  main_start memory b = do
    p ← port_system_init cmsis b
    main_init ⦃button_port = paced_button until period⦄ ⦃tx_port = board_tx until period⦄
        ⦃rx_port = paced_rx until period⦄ ⦃retina_port = board_retina⦄ fuel malloc memory p.1

  pub main_start-init :
      (memory : Memory) (b : Board) (s : System Board)
      → main_start memory b ≡ some s
      → (c : Board) × (main_init ⦃button_port = paced_button until period⦄
            ⦃tx_port = board_tx until period⦄ ⦃rx_port = paced_rx until period⦄
            ⦃retina_port = board_retina⦄ fuel malloc memory c
          ≡ some s)
  unfolding main_start
  main_start-init memory b s e = elim (Option-cases (port_system_init cmsis b)) [
    | inl p ↦ absurd (ground arith)
    | inr (r, p) ↦ (r.1, ground arith)
  ]

  -- The endless loop's first `n` rounds.
  abbrev pub main_loop : ℕ → System Board → Option (System Board)
  main_loop n s =
      rounds ⦃button_port = paced_button until period⦄ ⦃tx_port = board_tx until period⦄
        ⦃rx_port = paced_rx until period⦄ ⦃retina_port = board_retina⦄ fuel malloc n s

  -- Where CMSIS is as documented, the board is valid at the start and the interrupts of its symbol
  -- timer come at a steady pace, the waits may read the tick as often as the longest one needs, no
  -- call of `malloc` gives NULL and the receiver's memory holds no parser, the program starts and
  -- runs for ever: however many rounds of its loop it has made, it has not gone wrong, and the
  -- machines, the parser and the board are as they should be for another.
  pub main_runs :
      (memory : Memory) (b : Board) (n : ℕ)
      → IsDocumented cmsis
      → reads_for period 3570 ≤ fuel
      → ((k : ℕ) → malloc k ≢ none)
      → IsAllocated memory
      → IsStart until period b
      → (s : System Board) × (t : System Board) × (main_start memory b ≡ some s)
        × (main_loop n s ≡ some t)
        × IsGoingOn until period t
  unfolding main_start
  main_runs memory b n doc enough never_null a v =
      let c = started cmsis doc b in
      let (s, t, e, f, i) =
        main_runs_lem ⦃button_port = paced_button until period⦄ ⦃tx_port = board_tx until period⦄
          ⦃rx_port = paced_rx until period⦄ ⦃retina_port = board_retina⦄ fuel malloc
          (board_shares until period) enough never_null memory c n a
          (started-IsStart until period cmsis doc b v) in
      (s, t, rw (init_started cmsis doc b) e, f, i)

  -- What two rounds of the loop on the board come to.
  abbrev pub SendsOn : System Board → System Board → System Board → Type 0
  SendsOn =
      SendsMessage ⦃button_port = paced_button until period⦄ ⦃tx_port = board_tx until period⦄
        ⦃rx_port = paced_rx until period⦄ ⦃retina_port = board_retina⦄ fuel malloc

  -- While the program runs as it should, the waits may read the tick often enough and `malloc`
  -- never gives NULL: in the sending mode, once the button's machine reports a short press, the
  -- loop makes two more rounds, and the second one sends: from the start of the symbol timer on,
  -- at each of its ticks, the carrier is on and off as in a wave near the frame of the next
  -- message's code. The index of the messages steps round.
  pub press_sent :
      (s : System Board) (b : ButtonOn Board)
      → reads_for period 3570 ≤ fuel
      → ((k : ℕ) → malloc k ≢ none)
      → IsGoingOn until period s
      → s.retina.current_state ≡ wait_tx
      → button_fire ⦃port = paced_button until period⦄ (record { fsm = s.button; board = s.board })
        ≡ some b
      → fsm_button_get_duration b.fsm ≢ 0
      → fsm_button_get_duration b.fsm < s.retina.long_button_press_ms
      → (t : System Board) × (u : System Board) × SendsOn s t u
  press_sent s b enough never_null i q p pressed short =
      press-SendsMessage ⦃button_port = paced_button until period⦄ ⦃tx_port = board_tx until period⦄
        ⦃rx_port = paced_rx until period⦄ ⦃retina_port = board_retina⦄ fuel malloc
        (board_shares until period) enough never_null s b i q p pressed short
