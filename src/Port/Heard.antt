-- ===== src/Port/Heard.antt =====
-- From the interrupts of the receiver's pin to a code: port_rx.c (port/nucleo_stm32f446re/src),
-- common/src/fsm_rx.c and common/src/fsm_rx_nec.c together.
use transmisor_receptor_ir.Common.{
  ℕ, zero, suc, ◌+◌, ◌<◌, ◌^◌, ◌≡◌, refl, ap, sym, ◌∙◌, false, Option, some, List, [], ◌∷◌, length,
  sub16,
}
use transmisor_receptor_ir.Nec.{FsmRxNec}
use transmisor_receptor_ir.Nec.Reference.{widths}
use transmisor_receptor_ir.Tx.Wave.{AreNear, nominal_wave}
use transmisor_receptor_ir.Air.{IsHeard}
use transmisor_receptor_ir.Rx.{RxOn, rx_fire, fsm_rx_get_code, fsm_rx_get_repetition}
use transmisor_receptor_ir.Rx.Memory.{IsOwned}
use transmisor_receptor_ir.Rx.Results.{IsTimeout, edges_at, num_edges_at, timeout_receives}
use transmisor_receptor_ir.Port.State.{Irq, Board}
use transmisor_receptor_ir.Port.Interrupts.{poll}
use transmisor_receptor_ir.Port.Valid.{IsValid}
use transmisor_receptor_ir.Port.Button.{port_system_get_millis}
use transmisor_receptor_ir.Port.Rx.{port_rx_get_num_edges, port_rx_get_buffer_edges}
use transmisor_receptor_ir.Port.ForTx.{poll-IsKept}
use transmisor_receptor_ir.Port.ForRx.{board_rx}
use transmisor_receptor_ir.Port.Edges.{
  take, captured, replay, IsOn, serve_all_refines, length-captured,
}

-- The parser sees only the edges that are counted.
widths-take : (n : ℕ) (xs : List ℕ) → widths n (take n xs) ≡ widths n xs
unfolding widths
widths-take zero xs = refl
widths-take (suc zero) [] = refl
widths-take (suc zero) (x ∷ xs) = refl
widths-take (suc (suc n)) [] = refl
widths-take (suc (suc n)) (x ∷ []) = refl
widths-take (suc (suc n)) (x ∷ y ∷ xs) = ap (λ l. sub16 y x ∷ l) (widths-take (suc n) (y ∷ xs))

-- One access to what the service routines share.
poll_refines :
    (b : Board)
    → IsValid b
    → IsOn b
    → (captured (poll b) ≡ replay (b.arrivals b.accesses) (captured b))
      × IsValid (poll b)
      × IsOn (poll b)
unfolding poll
poll_refines b v on =
    serve_all_refines (b.arrivals b.accesses) (record b { accesses = b.accesses + 1 })
      (record {
        clock = v.clock;
        symbol_clock = v.symbol_clock;
        buffer = v.buffer;
        index = v.index;
      })
      on

-- What is captured once the interrupts before the next two accesses are served.
abbrev pub captured_soon : Board → List ℕ
captured_soon b = replay (b.arrivals (b.accesses + 1)) (replay (b.arrivals b.accesses) (captured b))

poll-poll_refines :
    (b : Board)
    → IsValid b
    → IsOn b
    → (captured (poll (poll b)) ≡ captured_soon b) × IsValid (poll (poll b))
poll-poll_refines b v on =
    let (same, v', on') = poll_refines b v on in
    let (same', v'', _) = poll_refines (poll b) v' on' in
    let k = poll-IsKept b in
    let later : (poll b).arrivals (poll b).accesses ≡ b.arrivals (b.accesses + 1) =
      ap (λ (f : ℕ → List Irq). f (poll b).accesses) k.arrivals ∙ ap b.arrivals k.accesses in
    (
      same'
          ∙ ap (λ l. replay l (captured (poll b))) later
          ∙ ap (replay (b.arrivals (b.accesses + 1))) same,
      v'',
    )

module _ (malloc : ℕ → Option FsmRxNec) where
  read_edges :
      (s : RxOn Board)
      → IsValid s.board
      → IsOn s.board
      → widths (num_edges_at malloc s) (edges_at malloc s)
        ≡ widths (length (captured_soon s.board)) (captured_soon s.board)
  unfolding port_system_get_millis port_rx_get_num_edges port_rx_get_buffer_edges
  read_edges s v on =
      let c = poll (poll s.board) in
      let (same, w) = poll-poll_refines s.board v on in
      sym (widths-take c.edge_idx c.edge_ticks)
      ∙ ap (λ (n : ℕ). widths n (captured c)) (sym (length-captured c w))
      ∙ ap (λ l. widths (length l) l) same

  -- Where the interrupts of the receiver's pin, in turn, have brought the edges of a wave that is
  -- near the frame of a code, and the timeout has passed, the receiver that is fired has this code.
  pub wave_received :
      (s t : RxOn Board) (code : ℕ) (ws : List (ℕ × ℕ)) (us : List ℕ)
      → IsOwned s
      → IsValid s.board
      → IsOn s.board
      → IsTimeout malloc s
      → code < 2 ^ 32
      → AreNear (nominal_wave code) ws
      → IsHeard ws us
      → widths (length (captured_soon s.board)) (captured_soon s.board) ≡ us
      → rx_fire malloc s ≡ some t
      → (fsm_rx_get_code t.fsm ≡ code) × (fsm_rx_get_repetition t.fsm ≡ false)
  wave_received s t code ws us o v on out fits close hear same e =
      timeout_receives malloc s t code ws us o v out fits close hear (read_edges s v on ∙ same) e
