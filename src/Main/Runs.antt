-- ===== src/Main/Runs.antt =====
-- The endless loop never goes wrong (common/src/retina.c).
use transmisor_receptor_ir.Common.{
  ℕ, zero, suc, ◌≤◌, ◌≡◌, ◌≢◌, ◌↔◌, refl, ◌∙◌, Bool, false, Option, some, none, ◌>>=◌, arith, subst,
  sym, some_of_ne_none,
}
use transmisor_receptor_ir.Nec.{FsmRxNec}
use transmisor_receptor_ir.Button.Port.{ButtonPort}
use transmisor_receptor_ir.Button.{FsmButton, ButtonOn, button_fire}
use transmisor_receptor_ir.Button.Runs.{button_fire_total, button_fire-IsBoard}
use transmisor_receptor_ir.Tx.Port.{TxPort}
use transmisor_receptor_ir.Tx.{FsmTx, TxOn, tx_fire}
use transmisor_receptor_ir.Ticker.{reads_for}
use transmisor_receptor_ir.Tx.Fire.{IsWaiting, tx_fire_total}
use transmisor_receptor_ir.Rx.Port.{RxPort}
use transmisor_receptor_ir.Rx.{FsmRx, RxOn, rx_fire, off_rx}
use transmisor_receptor_ir.Rx.Memory.{rx_fire_total, rx_fire-IsBoard}
use transmisor_receptor_ir.Retina.Port.{RetinaPort}
use transmisor_receptor_ir.Retina.{FsmRetina, System, retina_fire}
use transmisor_receptor_ir.Retina.Modes.{retina_fire_total}
use transmisor_receptor_ir.Retina.Boards.{retina_fire-IsLeft, retina_fire-IsBoard}
use transmisor_receptor_ir.Main.{Memory, main_init, main_round}
use transmisor_receptor_ir.Main.Rounds.{
  IsSound, main_init-IsSound, main_round-IsSound, rest_of_round, rest_of_round-IsReady,
  stages-IsOwned,
}

-- The four interfaces are those of one board: they agree on the boards that can occur, and the
-- calls of the governing machine do not leave them. `IsStart` are the boards at the program's start.
pub record SharesBoard {B : Type 0} ⦃button_port : ButtonPort B⦄ ⦃tx_port : TxPort B⦄
    ⦃rx_port : RxPort B⦄ ⦃retina_port : RetinaPort B⦄ (IsStart : B → Type 0) : Type 0 where
  pub button : (b : B) → button_port.IsBoard b ↔ tx_port.IsBoard b
  pub rx : (b : B) → rx_port.IsBoard b ↔ tx_port.IsBoard b
  pub rgb_init-IsBoard :
      (id : ℕ) (b : B) → tx_port.IsBoard b → tx_port.IsBoard (retina_port.rgb_init id b)
  pub rgb_set_color-IsBoard :
      (id : ℕ) (r g b : Bool) (d : B)
      → tx_port.IsBoard d
      → tx_port.IsBoard (retina_port.rgb_set_color id r g b d)
  pub system_sleep-IsBoard :
      (b : B) → tx_port.IsBoard b → tx_port.IsBoard (retina_port.system_sleep b)
  pub button_init-IsStart : (id : ℕ) (b : B) → IsStart b → IsStart (button_port.init id b)
  pub tx_init-IsBoard : (b : B) → IsStart b → tx_port.IsBoard (tx_port.init 0 false b)

-- No call of `malloc` by the machines gives NULL, and the receiver's pointer is not set.
pub record IsAllocated (memory : Memory) : Type 0 where
  pub button_block : FsmButton
  pub tx_block : FsmTx
  pub rx_block : FsmRx
  pub retina_block : FsmRetina
  pub button : memory.button ≡ some button_block
  pub tx : memory.tx ≡ some tx_block
  pub rx : memory.rx ≡ some rx_block
  pub retina : memory.retina ≡ some retina_block
  pub unset : rx_block.p_fsm_rx_nec ≡ none

module _ {B : Type 0} ⦃tx_port : TxPort B⦄ where
  -- Between two rounds of the loop.
  pub record IsGoing (s : System B) : Type 0 where
    pub sound : IsSound s
    pub on_board : tx_port.IsBoard s.board
    pub waiting : IsWaiting s.tx

module _ {B : Type 0} ⦃button_port : ButtonPort B⦄ ⦃tx_port : TxPort B⦄ ⦃rx_port : RxPort B⦄
    ⦃retina_port : RetinaPort B⦄ (fuel : ℕ) (malloc : ℕ → Option FsmRxNec) where
  pub main_init-parts :
      (memory : Memory) (b : B) (s : System B)
      → main_init fuel malloc memory b ≡ some s
      → (s.board
          ≡ retina_port.rgb_init 0 (rx_port.init 0 (tx_port.init 0 false (button_port.init 0 b))))
        × IsWaiting s.tx
  unfolding main_init
  main_init-parts memory b s e = ground arith

  main_init-ne-none :
      (memory : Memory) (b : B) → IsAllocated memory → main_init fuel malloc memory b ≢ none
  unfolding main_init
  main_init-ne-none memory b a e = ground (arith, a.button, a.tx, a.rx, a.retina)

  pub main_init-off :
      (memory : Memory) (b : B) (s : System B)
      → main_init fuel malloc memory b ≡ some s
      → s.rx.current_state ≡ off_rx
  unfolding main_init
  main_init-off memory b s e = ground arith

  -- A round, by its stages.
  pub main_round-eq :
      (s : System B) (b : ButtonOn B) (x : TxOn B) (r : RxOn B)
      → button_fire (record { fsm = s.button; board = s.board }) ≡ some b
      → tx_fire fuel (record { fsm = s.tx; board = b.board }) ≡ some x
      → rx_fire malloc
          (record { fsm = s.rx; board = x.board; mallocs = s.mallocs; frees = s.frees })
        ≡ some r
      → main_round fuel malloc s ≡ retina_fire (rest_of_round fuel malloc b x r s)
  unfolding main_round
  main_round-eq s b x r p q h = rw (p, q, h) refl

  -- The loop's first `n` rounds.
  abbrev pub rounds : ℕ → System B → Option (System B)
  rounds zero s = some s
  rounds (suc n) s = main_round fuel malloc s >>= λ t. rounds n t

  module _ {IsStart : B → Type 0} (shares : SharesBoard IsStart)
      (enough : reads_for tx_port.period 3570 ≤ fuel) (never_null : (n : ℕ) → malloc n ≢ none) where
    -- A round returns, and the loop can go on.
    pub main_round_total :
        (s : System B)
        → IsGoing s
        → (t : System B) × (main_round fuel malloc s ≡ some t) × IsGoing t
    main_round_total s i =
        let s₁ : ButtonOn B = record { fsm = s.button; board = s.board } in
        let (b, p) = button_fire_total s₁ in
        let v =
          (shares.button b.board).0
            (button_fire-IsBoard s₁ b ((shares.button s.board).1 i.on_board) p) in
        let s₂ : TxOn B = record { fsm = s.tx; board = b.board } in
        let (x, q, _, w, v') = tx_fire_total fuel s₂ enough i.waiting v in
        let s₃ : RxOn B = record {
          fsm = s.rx;
          board = x.board;
          mallocs = s.mallocs;
          frees = s.frees;
        } in
        let o = stages-IsOwned fuel malloc s x.board i.sound in
        let v₃ = (shares.rx x.board).1 v' in
        let (r, h) = rx_fire_total malloc s₃ o v₃ (never_null s.mallocs) in
        let v₄ = (shares.rx r.board).0 (rx_fire-IsBoard malloc s₃ r v₃ h) in
        let s₄ = rest_of_round fuel malloc b x r s in
        let ready = rest_of_round-IsReady fuel malloc s b x r i.sound h in
        let (t, k) = retina_fire_total s₄ ready in
        let e = main_round-eq s b x r p q h ∙ k in
        let l = retina_fire-IsLeft s₄ t k in
        (
          t,
          e,
          record {
            sound = main_round-IsSound fuel malloc s t i.sound e;
            on_board =
                retina_fire-IsBoard tx_port.IsBoard shares.rgb_set_color-IsBoard
                  shares.system_sleep-IsBoard s₄ t v₄ k;
            waiting = record {
              state = l.tx_state ∙ w.state;
              transmitter = l.tx_id ∙ w.transmitter;
            };
          },
        )

    rounds_total :
        (n : ℕ) (s : System B) → IsGoing s → (t : System B) × (rounds n s ≡ some t) × IsGoing t
    rounds_total zero s i = (s, refl, i)
    rounds_total (suc n) s i =
        let (t, e, j) = main_round_total s i in let (u, f, k) = rounds_total n t j in (u, rw e f, k)

    main_init_total :
        (memory : Memory) (b : B)
        → IsAllocated memory
        → IsStart b
        → (s : System B) × (main_init fuel malloc memory b ≡ some s) × IsGoing s
    main_init_total memory b a v =
        let (s, e) =
          some_of_ne_none (main_init fuel malloc memory b) (main_init-ne-none memory b a) in
        let (same, w) = main_init-parts memory b s e in
        let v₁ = shares.tx_init-IsBoard _ (shares.button_init-IsStart 0 b v) in
        let v₂ = (shares.rx _).0 (rx_port.init-IsBoard 0 _ ((shares.rx _).1 v₁)) in
        (
          s,
          e,
          record {
            sound = main_init-IsSound fuel malloc memory b a.rx_block s a.rx a.unset e;
            on_board = subst tx_port.IsBoard (sym same) (shares.rgb_init-IsBoard 0 _ v₂);
            waiting = w;
          },
        )

    -- The program starts, and never goes wrong: however many rounds it has made, it makes another.
    pub main_runs_lem :
        (memory : Memory) (b : B) (n : ℕ)
        → IsAllocated memory
        → IsStart b
        → (s : System B) × (t : System B) × (main_init fuel malloc memory b ≡ some s)
          × (rounds n s ≡ some t)
          × IsGoing t
    main_runs_lem memory b n a v =
        let (s, e, i) = main_init_total memory b a v in
        let (t, f, j) = rounds_total n s i in (s, t, e, f, j)
