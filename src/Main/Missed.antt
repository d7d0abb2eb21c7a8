-- ===== src/Main/Missed.antt =====
-- A press that comes between the button's turn and the stop mode, in one round of the endless loop:
-- common/src on the board of port/nucleo_stm32f446re/src.
use transmisor_receptor_ir.Common.{
  ℕ, ◌+◌, ◌≡◌, refl, inl, inr, sym, ap, ◌∙◌, true, false, ◌==◌, Option, some, [], ◌∷◌, arith,
  bit_at, subst,
}
use transmisor_receptor_ir.Nec.{FsmRxNec}
use transmisor_receptor_ir.Button.Port.{ButtonPort}
use transmisor_receptor_ir.Button.{
  ButtonOn, button_fire, button_released, fsm_button_check_activity, fsm_button_get_duration,
}
use transmisor_receptor_ir.Tx.{TxOn, fsm_tx_check_activity}
use transmisor_receptor_ir.Tx.Fire.{IsWaiting, idle_fire}
use transmisor_receptor_ir.Rx.Port.{RxPort}
use transmisor_receptor_ir.Rx.{RxOn, rx_fire, idle_rx, fsm_rx_check_activity}
use transmisor_receptor_ir.Retina.Port.{RetinaPort}
use transmisor_receptor_ir.Retina.{System, retina_fire, is_active}
use transmisor_receptor_ir.Retina.Modes.{IsReady, IsAsleep, retina_fire_total}
use transmisor_receptor_ir.Main.Runs.{main_round-eq}
use transmisor_receptor_ir.Main.Board.{board_round}
use transmisor_receptor_ir.Port.State.{Board, exti15_10, exti15_10_irqn}
use transmisor_receptor_ir.Port.Gpio.{port_system_gpio_read}
use transmisor_receptor_ir.Port.Masks.{bit_and-mask}
use transmisor_receptor_ir.Port.Handlers.{button_0_pin}
use transmisor_receptor_ir.Port.Interrupts.{poll, serve, serve_all}
use transmisor_receptor_ir.Port.Power.{port_system_systick_resume}
use transmisor_receptor_ir.Port.Sleep.{port_system_sleep}
use transmisor_receptor_ir.Port.Button.{port_button_is_pressed}
use transmisor_receptor_ir.Port.Rx.{port_rx_get_num_edges}
use transmisor_receptor_ir.Port.ForTx.{board_tx}
use transmisor_receptor_ir.Port.ForRetina.{board_retina}
use transmisor_receptor_ir.Port.ForMain.{paced_button, paced_rx}

-- Nothing comes before the button is read; then its pin's interrupt with a low level, before the
-- edges are counted; and next, with a high level, when the processor has stopped.
pub record IsPressedLate (b : Board) : Type 0 where
  pub pr : ℕ
  pub idr : ℕ
  pub pr' : ℕ
  pub idr' : ℕ
  pub quiet : b.arrivals b.accesses ≡ []
  pub press : b.arrivals (b.accesses + 1) ≡ exti15_10 pr idr ∷ []
  pub release : b.arrivals (b.accesses + 2) ≡ exti15_10 pr' idr' ∷ []
  pub on : b.irq_on exti15_10_irqn ≡ true
  pub up : b.flag_pressed ≡ false
  pub pending : bit_at button_0_pin pr ≡ 1
  pub low : bit_at button_0_pin idr ≡ 0
  pub pending' : bit_at button_0_pin pr' ≡ 1
  pub high : bit_at button_0_pin idr' ≡ 1

module _ {B : Type 0} ⦃port : ButtonPort B⦄ where
  up_fire :
      (s : ButtonOn B)
      → s.fsm.current_state ≡ button_released
      → (port.is_pressed s.fsm.button_id s.board).0 ≡ false
      → button_fire s ≡ some (record s { board = (port.is_pressed s.fsm.button_id s.board).1 })
  unfolding button_fire
  up_fire s q p = ground arith

module _ {B : Type 0} ⦃port : RxPort B⦄ (malloc : ℕ → Option FsmRxNec) where
  still_fire :
      (s : RxOn B)
      → s.fsm.current_state ≡ idle_rx
      → s.fsm.status ≡ true
      → (port.get_num_edges s.fsm.rx_id s.board).0 ≡ s.fsm.num_edges_detected
      → rx_fire malloc s ≡ some (record s { board = (port.get_num_edges s.fsm.rx_id s.board).1 })
  unfolding rx_fire
  still_fire s q on n = ground arith

-- The governing machine has nothing to do.
pub record IsIdle {B : Type 0} (s : System B) : Type 0 where
  pub button : s.button.current_state ≡ button_released
  pub duration : s.button.duration ≡ 0
  pub sent : s.tx.code ≡ 0
  pub waiting : IsWaiting s.tx
  pub receiver : s.rx.current_state ≡ idle_rx
  pub status : s.rx.status ≡ true
  pub code : s.rx.code ≡ 0
  pub repetition : s.rx.is_repetition ≡ false
  pub error : s.rx.is_error ≡ false

IsIdle-is_active : {B : Type 0} (s : System B) → IsIdle s → is_active s ≡ false
unfolding is_active fsm_button_check_activity fsm_tx_check_activity fsm_rx_check_activity
IsIdle-is_active s i = ground (arith, i.button, i.waiting.state, i.receiver)

module _ {B : Type 0} ⦃port : RetinaPort B⦄ where
  idle_rests :
      (s t : System B)
      → IsReady s
      → IsIdle s
      → retina_fire s ≡ some t
      → IsAsleep t × (t.button ≡ s.button) × (t.board ≡ port.system_sleep s.board)
  unfolding retina_fire is_active fsm_button_get_duration
  idle_rests s t r i e =
      let quiet = IsIdle-is_active s i in
      elim r.known [
        | inl q ↦ ground (arith, i.duration)
        | inr (inl q) ↦ ground (arith, i.duration, i.code, i.repetition, i.error)
        | inr (inr (inl q)) ↦ ground arith
        | inr (inr (inr q)) ↦ ground arith
      ]

-- An access that an interrupt of the button's pin comes before.
record IsServed (idr : ℕ) (b c : Board) : Type 0 where
  flag : c.flag_pressed ≡ (bit_at button_0_pin idr == 0)
  arrivals : c.arrivals ≡ b.arrivals
  accesses : c.accesses ≡ b.accesses + 1
  irq_on : c.irq_on ≡ b.irq_on
  edges : c.edge_idx ≡ b.edge_idx

serve-IsServed :
    (pr idr : ℕ) (b : Board)
    → b.irq_on exti15_10_irqn ≡ true
    → bit_at button_0_pin pr ≡ 1
    → IsServed idr b (serve_all (exti15_10 pr idr ∷ []) (record b { accesses = b.accesses + 1 }))
unfolding serve_all serve port_system_gpio_read port_system_systick_resume
serve-IsServed pr idr b on pending =
    ground (
      arith,
      bit_and-mask pr button_0_pin (omega arith),
      bit_and-mask idr button_0_pin (omega arith),
    )

poll-IsServed :
    (pr idr : ℕ) (b : Board)
    → b.arrivals b.accesses ≡ exti15_10 pr idr ∷ []
    → b.irq_on exti15_10_irqn ≡ true
    → bit_at button_0_pin pr ≡ 1
    → IsServed idr b (poll b)
unfolding poll
poll-IsServed pr idr b arrives on pending =
    subst (λ is. IsServed idr b (serve_all is (record b { accesses = b.accesses + 1 })))
      (sym arrives) (serve-IsServed pr idr b on pending)

poll_quiet :
    (b : Board) → b.arrivals b.accesses ≡ [] → poll b ≡ record b { accesses = b.accesses + 1 }
unfolding poll serve_all
poll_quiet b quiet = ap (λ is. serve_all is (record b { accesses = b.accesses + 1 })) quiet

-- What the board does with the press.
press_late :
    (b : Board)
    → IsPressedLate b
    → let c = poll b in
      let d = poll c in
      (c.flag_pressed ≡ false)
      × (d.edge_idx ≡ b.edge_idx)
      × (d.flag_pressed ≡ true)
      × ((port_system_sleep d).flag_pressed ≡ false)
unfolding port_system_sleep
press_late b n =
    let same = poll_quiet b n.quiet in
    let b' : Board = record b { accesses = b.accesses + 1 } in
    let s = poll-IsServed n.pr n.idr b' n.press n.on n.pending in
    let d = poll b' in
    let d' : Board = record d { tickint = false; pdds = false; lpds = true; sleepdeep = true } in
    let next : d.arrivals d.accesses ≡ exti15_10 n.pr' n.idr' ∷ [] =
      ap (λ f. f d.accesses) s.arrivals ∙ ap b.arrivals (s.accesses ∙ omega arith) ∙ n.release in
    let r =
      poll-IsServed n.pr' n.idr' d' next (ap (λ f. f exti15_10_irqn) s.irq_on ∙ n.on) n.pending' in
    rw same (n.up, s.edges, s.flag ∙ rw n.low refl, r.flag ∙ rw n.high refl)

module _ (until : ℕ → ℕ) (period : ℕ) (fuel : ℕ) (malloc : ℕ → Option FsmRxNec) where
  -- Where the governing machine is ready and has nothing to do, every edge is counted, nothing comes
  -- before the button is read, then an interrupt of the button's pin with a low level before the
  -- edges are counted, and next one with a high level when the processor has stopped, the round of
  -- the loop returns asleep, and the press is missed: the button's machine is as it was, and the
  -- flag, which is up once the edges are counted, is down.
  pub press_missed :
      (s : System Board)
      → IsReady s
      → IsIdle s
      → s.board.edge_idx ≡ s.rx.num_edges_detected
      → IsPressedLate s.board
      → (t : System Board) × (board_round until period fuel malloc s ≡ some t)
        × IsAsleep t
        × (t.button ≡ s.button)
        × ((poll (poll s.board)).flag_pressed ≡ true)
        × (t.board.flag_pressed ≡ false)
  unfolding port_button_is_pressed port_rx_get_num_edges
  press_missed s ready i counted n =
      let (up, edges, down, released) = press_late s.board n in
      let b : ButtonOn Board = record { fsm = s.button; board = poll s.board } in
      let x : TxOn Board = record { fsm = s.tx; board = poll s.board } in
      let r : RxOn Board = record {
        fsm = s.rx;
        board = poll (poll s.board);
        mallocs = s.mallocs;
        frees = s.frees;
      } in
      let p = up_fire ⦃port = paced_button until period⦄ _ i.button up in
      let q = idle_fire ⦃port = board_tx until period⦄ fuel x i.sent in
      let h =
        still_fire ⦃port = paced_rx until period⦄ malloc _ i.receiver i.status (edges ∙ counted) in
      let s' : System Board = record s { board = poll (poll s.board) } in
      let ready' : IsReady s' = record {
        known = ready.known;
        codes = ready.codes;
        index = ready.index;
        receiving = ready.receiving;
      } in
      let i' : IsIdle s' = record {
        button = i.button;
        duration = i.duration;
        sent = i.sent;
        waiting = i.waiting;
        receiver = i.receiver;
        status = i.status;
        code = i.code;
        repetition = i.repetition;
        error = i.error;
      } in
      let (t, e) = retina_fire_total ⦃port = board_retina⦄ s' ready' in
      let (asleep, same, slept) = idle_rests ⦃port = board_retina⦄ s' t ready' i' e in
      (
        t,
        main_round-eq ⦃button_port = paced_button until period⦄ ⦃tx_port = board_tx until period⦄
              ⦃rx_port = paced_rx until period⦄ ⦃retina_port = board_retina⦄ fuel malloc s b x r p q
              h
            ∙ e,
        asleep,
        same,
        down,
        ap (λ (c : Board). c.flag_pressed) slept ∙ released,
      )
