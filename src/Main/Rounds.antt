-- ===== src/Main/Rounds.antt =====
-- What holds between any two rounds of the endless loop (common/src/retina.c).
use transmisor_receptor_ir.Common.{ℕ, ◌≡◌, inl, inr, ◌∙◌, Option, some, none, Option-cases, arith}
use transmisor_receptor_ir.Nec.{FsmRxNec}
use transmisor_receptor_ir.Button.Port.{ButtonPort}
use transmisor_receptor_ir.Button.{ButtonOn, button_fire}
use transmisor_receptor_ir.Tx.Port.{TxPort}
use transmisor_receptor_ir.Tx.{TxOn, tx_fire}
use transmisor_receptor_ir.Rx.Port.{RxPort}
use transmisor_receptor_ir.Rx.{FsmRx, RxOn, rx_fire}
use transmisor_receptor_ir.Rx.Memory.{IsOwned, rx_fire-IsOwned}
use transmisor_receptor_ir.Retina.Port.{RetinaPort}
use transmisor_receptor_ir.Retina.{System, retina_fire}
use transmisor_receptor_ir.Retina.Boards.{retina_fire-IsLeft}
use transmisor_receptor_ir.Retina.Modes.{IsReady, retina_fire-IsReady}
use transmisor_receptor_ir.Main.{Memory, main_init, main_round}

module _ {B : Type 0} ⦃rx_port : RxPort B⦄ (malloc : ℕ → Option FsmRxNec) where
  pub rx_fire-status : (s t : RxOn B) → rx_fire malloc s ≡ some t → t.fsm.status ≡ s.fsm.status
  unfolding rx_fire
  rx_fire-status s t e = ground arith

-- The governing machine is ready, and the receiver's parser is owned as it should be.
pub record IsSound {B : Type 0} (s : System B) : Type 0 where
  pub ready : IsReady s
  pub owned : IsOwned (record { fsm = s.rx; board = s.board; mallocs = s.mallocs; frees = s.frees })

module _ {B : Type 0} ⦃button_port : ButtonPort B⦄ ⦃tx_port : TxPort B⦄ ⦃rx_port : RxPort B⦄
    ⦃retina_port : RetinaPort B⦄ (fuel : ℕ) (malloc : ℕ → Option FsmRxNec) where
  -- What a round hands to the governing machine.
  abbrev pub rest_of_round : ButtonOn B → TxOn B → RxOn B → System B → System B
  rest_of_round b x r s = record s {
    button = b.fsm;
    tx = x.fsm;
    rx = r.fsm;
    board = r.board;
    mallocs = r.mallocs;
    frees = r.frees;
  }

  -- One round: the machines, one after another.
  pub record Stages (s t : System B) : Type 0 where
    pub button : ButtonOn B
    pub tx : TxOn B
    pub rx : RxOn B
    pub button_fires : button_fire (record { fsm = s.button; board = s.board }) ≡ some button
    pub tx_fires : tx_fire fuel (record { fsm = s.tx; board = button.board }) ≡ some tx
    pub rx_fires :
        rx_fire malloc
          (record { fsm = s.rx; board = tx.board; mallocs = s.mallocs; frees = s.frees })
        ≡ some rx
    pub retina_fires : retina_fire (rest_of_round button tx rx s) ≡ some t

  pub main_round-Stages : (s t : System B) → main_round fuel malloc s ≡ some t → Stages s t
  unfolding main_round
  main_round-Stages s t e =
      elim (Option-cases (button_fire (record { fsm = s.button; board = s.board }))) [
        | inl p ↦ absurd (ground arith)
        | inr (b, p) ↦ elim (Option-cases (tx_fire fuel (record { fsm = s.tx; board = b.board }))) [
          | inl q ↦ absurd (ground arith)
          | inr (x, q) ↦
              elim (Option-cases (
                rx_fire malloc
                  (record { fsm = s.rx; board = x.board; mallocs = s.mallocs; frees = s.frees }))) [
                    | inl h ↦ absurd (ground arith)
                    | inr (r, h) ↦ record {
                      button = b;
                      tx = x;
                      rx = r;
                      button_fires = p;
                      tx_fires = q;
                      rx_fires = h;
                      retina_fires = ground arith;
                    }
                  ]
        ]
      ]

  -- The receiver, as it stands when it is fired.
  pub stages-IsOwned :
      (s : System B) (b : B)
      → IsSound s
      → IsOwned (record { fsm = s.rx; board = b; mallocs = s.mallocs; frees = s.frees })
  stages-IsOwned s b i = record {
    known = i.owned.known;
    off = i.owned.off;
    idle = i.owned.idle;
    wait = i.owned.wait;
    balance = i.owned.balance;
  }

  -- The governing machine is ready when its turn comes.
  pub rest_of_round-IsReady :
      (s : System B) (b : ButtonOn B) (x : TxOn B) (r : RxOn B)
      → IsSound s
      → rx_fire malloc
          (record { fsm = s.rx; board = x.board; mallocs = s.mallocs; frees = s.frees })
        ≡ some r
      → IsReady (rest_of_round b x r s)
  rest_of_round-IsReady s b x r i h = record {
    known = i.ready.known;
    codes = i.ready.codes;
    index = i.ready.index;
    receiving = λ z. rx_fire-status malloc _ r h ∙ i.ready.receiving z;
  }

  -- A round of the loop that returns keeps the system sound.
  pub main_round-IsSound :
      (s t : System B) → IsSound s → main_round fuel malloc s ≡ some t → IsSound t
  main_round-IsSound s t i e =
      let g = main_round-Stages s t e in
      let o = rx_fire-IsOwned malloc _ g.rx (stages-IsOwned s g.tx.board i) g.rx_fires in
      let ready =
        retina_fire-IsReady _ t (rest_of_round-IsReady s g.button g.tx g.rx i g.rx_fires)
          g.retina_fires in
      let l = retina_fire-IsLeft _ t g.retina_fires in
      record { ready = ready; owned = ground (arith, o, l) }

  -- The system that the initialisation makes is sound, whatever the memory of the machines held: a
  -- parser may not be used before it is made, so that the receiver's pointer counts as none.
  pub main_init-IsSound :
      (memory : Memory) (b : B) (f : FsmRx) (s : System B)
      → memory.rx ≡ some f
      → f.p_fsm_rx_nec ≡ none
      → main_init fuel malloc memory b ≡ some s
      → IsSound s
  unfolding main_init
  main_init-IsSound memory b f s e p h = ground arith

  -- The systems between two rounds of the endless loop.
  pub data Rounds (s : System B) : System B → Type 0 where
    none_yet : Rounds s s
    one_more : {t u : System B} → Rounds s t → main_round fuel malloc t ≡ some u → Rounds s u

  Rounds-IsSound : {s t : System B} → IsSound s → Rounds s t → IsSound t
  Rounds-IsSound i none_yet = i
  Rounds-IsSound i (one_more {t} {u} r e) = main_round-IsSound t u (Rounds-IsSound i r) e

  -- After the initialisation and any number of rounds, the governing machine is ready and the
  -- receiver's parser is owned as it should be: whatever the memory held that `malloc` gave, but
  -- that the receiver's pointer is not used before it is set, and whatever interrupts came.
  main-IsSound :
      (memory : Memory) (b : B) (f : FsmRx) (s t : System B)
      → memory.rx ≡ some f
      → f.p_fsm_rx_nec ≡ none
      → main_init fuel malloc memory b ≡ some s
      → Rounds s t
      → IsSound t
  main-IsSound memory b f s t e p h r = Rounds-IsSound (main_init-IsSound memory b f s e p h) r
