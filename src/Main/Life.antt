-- ===== src/Main/Life.antt =====
-- The whole program as a remote control: common/src/retina.c on the board of
-- port/nucleo_stm32f446re/src, turn by turn.
use mathlib.Core.Option.{some-injective}
use transmisor_receptor_ir.Common.{
  [], ◌⊎◌, length, Bool-cases, ◌+◌, ℕ, zero, suc, ◌≡◌, refl, sym, subst, ◌∙◌, true, inl, inr,
  Option, Option-cases, some, arith,
}
use transmisor_receptor_ir.Nec.{FsmRxNec}
use transmisor_receptor_ir.Button.Port.{ButtonPort}
use transmisor_receptor_ir.Tx.Port.{TxPort}
use transmisor_receptor_ir.Rx.Port.{RxPort}
use transmisor_receptor_ir.Retina.Port.{RetinaPort}
use transmisor_receptor_ir.Retina.{System, retina_fire}
use transmisor_receptor_ir.Retina.Modes.{IsReady}
use transmisor_receptor_ir.Retina.Codes.{Color}
use transmisor_receptor_ir.Retina.Remote.{
  Remote, Act, rest, doze, forget, stop_receiving, send, start_receiving, show_code, react,
  remote_of, seen_of, enter, perform, retina_fire_refines,
}
use transmisor_receptor_ir.Retina.Life.{
  cycle, Life-IsLived, off, lit, said, newborn, Life, born, turn,
}
use transmisor_receptor_ir.Main.{Memory, main_init}
use transmisor_receptor_ir.Main.Rounds.{
  IsSound, main_init-IsSound, main_round-IsSound, rest_of_round, rest_of_round-IsReady,
}
use transmisor_receptor_ir.Main.Runs.{IsAllocated, main_init-parts}
use transmisor_receptor_ir.Main.Board.{
  board_round, board_stages, main_start, main_start-init, main_loop,
}
use transmisor_receptor_ir.Main.Later.{stages-IsLater}
use transmisor_receptor_ir.Port.System.{Cmsis}
use transmisor_receptor_ir.Port.ForTx.{board_tx}
use transmisor_receptor_ir.Port.ForMain.{paced_button, paced_rx}
use transmisor_receptor_ir.Port.State.{Board}
use transmisor_receptor_ir.Port.ForRetina.{board_retina}
use transmisor_receptor_ir.Main.Lit.{IsLit, IsLit-kept, perform-IsLit, port_rgb_init-IsLit}

module _ {B : Type 0} ⦃port : RetinaPort B⦄ where
  perform-said : (act : Act) (s : System B) → (perform act s).printed ≡ said act s.printed
  perform-said rest s = refl
  perform-said doze s = refl
  perform-said forget s = refl
  perform-said (send code) s = refl
  perform-said (show_code code) s = refl
  perform-said (start_receiving found) s = refl
  perform-said stop_receiving s = refl

remote_of-enter : {B : Type 0} (r : Remote) (s : System B) → remote_of (enter r s) ≡ r
remote_of-enter r s = ground arith

-- How the program stands after `n` turns of the remote control.
pub record IsLiving (n : ℕ) (s : System Board) : Type 0 where
  pub color : Color
  pub life : Life n (remote_of s) color s.printed
  pub led : IsLit color s.board

retina_fire-IsLiving :
    (n : ℕ) (s t : System Board)
    → IsReady s
    → IsLiving n s
    → retina_fire ⦃port = board_retina⦄ s ≡ some t
    → IsLiving (suc n) t
retina_fire-IsLiving n s t r i e =
    let seen = seen_of s in
    let (r', act) = react (remote_of s) seen in
    let u = perform ⦃port = board_retina⦄ act s in
    let same : enter r' u ≡ t =
      some-injective _ _ (sym (retina_fire_refines ⦃port = board_retina⦄ s r) ∙ e) in
    let life : Life (suc n) (remote_of (enter r' u)) (lit act i.color) u.printed =
      rw (remote_of-enter r' u, perform-said ⦃port = board_retina⦄ act s) (turn seen i.life) in
    subst (IsLiving (suc n)) same (record {
      color = lit act i.color;
      life = life;
      led = IsLit-kept _ u.board _ refl (perform-IsLit act i.color s i.led);
    })

module _ (until : ℕ → ℕ) (period : ℕ) (fuel : ℕ) (malloc : ℕ → Option FsmRxNec) where
  main_round-IsLiving :
      (n : ℕ) (s t : System Board)
      → IsSound s
      → IsLiving n s
      → board_round until period fuel malloc s ≡ some t
      → IsLiving (suc n) t
  main_round-IsLiving n s t sound i e =
      let g = board_stages until period fuel malloc s t e in
      let u =
        rest_of_round ⦃button_port = paced_button until period⦄ ⦃tx_port = board_tx until period⦄
          ⦃rx_port = paced_rx until period⦄ ⦃retina_port = board_retina⦄ fuel malloc g.button g.tx
          g.rx s in
      let ready =
        rest_of_round-IsReady ⦃button_port = paced_button until period⦄
          ⦃tx_port = board_tx until period⦄ ⦃rx_port = paced_rx until period⦄
          ⦃retina_port = board_retina⦄ fuel malloc s g.button g.tx g.rx sound g.rx_fires in
      let same = (stages-IsLater until period fuel malloc s t g).led in
      retina_fire-IsLiving n u t ready
        (record {
          color = i.color;
          life = i.life;
          led = IsLit-kept i.color s.board g.rx.board same i.led;
        })
        g.retina_fires

module _ {B : Type 0} ⦃button_port : ButtonPort B⦄ ⦃tx_port : TxPort B⦄ ⦃rx_port : RxPort B⦄
    ⦃retina_port : RetinaPort B⦄ (fuel : ℕ) (malloc : ℕ → Option FsmRxNec) where
  main_init-newborn :
      (memory : Memory) (b : B) (s : System B)
      → main_init fuel malloc memory b ≡ some s
      → (remote_of s ≡ newborn) × (s.printed ≡ [])
  unfolding main_init
  main_init-newborn memory b s e = ground arith

module _ (until : ℕ → ℕ) (period : ℕ) (cmsis : Cmsis) (fuel : ℕ)
    (malloc : ℕ → Option FsmRxNec) where
  main_start-IsLiving :
      (memory : Memory) (b : Board) (s : System Board)
      → IsAllocated memory
      → main_start until period cmsis fuel malloc memory b ≡ some s
      → IsSound s × IsLiving 0 s
  main_start-IsLiving memory b s a e =
      let (c, p) = main_start-init until period cmsis fuel malloc memory b s e in
      let (new, quiet) =
        main_init-newborn ⦃button_port = paced_button until period⦄
          ⦃tx_port = board_tx until period⦄ ⦃rx_port = paced_rx until period⦄
          ⦃retina_port = board_retina⦄ fuel malloc memory c s p in
      let (same, _) =
        main_init-parts ⦃button_port = paced_button until period⦄ ⦃tx_port = board_tx until period⦄
          ⦃rx_port = paced_rx until period⦄ ⦃retina_port = board_retina⦄ fuel malloc memory c s p in
      (
        main_init-IsSound ⦃button_port = paced_button until period⦄
            ⦃tx_port = board_tx until period⦄ ⦃rx_port = paced_rx until period⦄
            ⦃retina_port = board_retina⦄ fuel malloc memory c a.rx_block s a.rx a.unset p,
        record {
          color = off;
          life = rw (new, quiet) born;
          led = subst (IsLit off) (sym same) (port_rgb_init-IsLit 0 _);
        },
      )

  rest-IsLiving :
      (n k : ℕ) (s t : System Board)
      → IsSound s
      → IsLiving k s
      → main_loop until period cmsis fuel malloc n s ≡ some t
      → IsLiving (n + k) t
  rest-IsLiving zero k s t sound i e =
      let q : k ≡ 0 + k = omega arith in
      subst (λ (a : ℕ). IsLiving a t) q (subst (IsLiving k) (some-injective _ _ e) i)
  rest-IsLiving (suc n) k s t sound i e =
      elim (Option-cases (board_round until period fuel malloc s)) [
        | inl p ↦ absurd (ground arith)
        | inr (m, p) ↦
            let sound' =
              main_round-IsSound ⦃button_port = paced_button until period⦄
                ⦃tx_port = board_tx until period⦄ ⦃rx_port = paced_rx until period⦄
                ⦃retina_port = board_retina⦄ fuel malloc s m sound p in
            let j = main_round-IsLiving until period fuel malloc k s m sound i p in
            let q : n + suc k ≡ suc n + k = omega arith in
            subst (λ (a : ℕ). IsLiving a t) q (rest-IsLiving n (suc k) m t sound' j (ground arith))
      ]

  -- The program refines the remote control: after the start, with no parser in the receiver's
  -- memory, and any number of rounds, the governing machine stands for a remote control that has
  -- made as many turns since it was born, seeing what it may; the LED's pins are driven with the
  -- colour that its acts leave, and the codes that were printed are those that it sent.
  pub main_loop_refines :
      (memory : Memory) (b : Board) (n : ℕ) (s t : System Board)
      → IsAllocated memory
      → main_start until period cmsis fuel malloc memory b ≡ some s
      → main_loop until period cmsis fuel malloc n s ≡ some t
      → (c : Color) × Life n (remote_of t) c t.printed × IsLit c t.board
  main_loop_refines memory b n s t a e f =
      let (sound, i) = main_start-IsLiving memory b s a e in
      let j : IsLiving n t =
        subst (λ (k : ℕ). IsLiving k t) (omega arith) (rest-IsLiving n 0 s t sound i f) in
      (j.color, j.life, j.led)

  -- Under the same conditions, the codes that were printed are the three messages over and over,
  -- and in the sending mode the LED's pins are driven low.
  pub main_loop_cycles :
      (memory : Memory) (b : Board) (n : ℕ) (s t : System Board)
      → IsAllocated memory
      → main_start until period cmsis fuel malloc memory b ≡ some s
      → main_loop until period cmsis fuel malloc n s ≡ some t
      → (t.printed ≡ cycle (length t.printed))
        × (((remote_of t).receives ≡ true) ⊎ IsLit off t.board)
  main_loop_cycles memory b n s t a e f =
      let (c, life, led) = main_loop_refines memory b n s t a e f in
      let l = Life-IsLived life in
      (
        l.cycled,
        elim (Bool-cases (remote_of t).receives) [
          | inl on ↦ inl on
          | inr sends ↦ inr (subst (λ (d : Color). IsLit d t.board) (l.dark sends) led)
        ],
      )
