-- ===== src/Port/Edges.antt =====
-- The buffer of edges of port_rx.c (port/nucleo_stm32f446re/src) against what it stands for: the
-- list of the ticks of the edges so far.
use transmisor_receptor_ir.Common.{
  ℕ, zero, suc, ◌+◌, ◌%◌, ◌≤◌, ◌<◌, ◌≡◌, refl, ap, ◌∙◌, Bool, true, not, ◌&&◌, List, [], ◌∷◌, ◌++◌,
  ltb, ◌==◌, if◌then◌else◌, arith, length, set, u16, bit_and, sym, Bool-cases, inl, inr,
}
use transmisor_receptor_ir.Port.State.{
  Irq, systick, tim1_up, exti15_10, exti9_5, Board, gpiob, exti9_5_irqn,
}
use transmisor_receptor_ir.Port.Gpio.{bit_pos_to_mask, port_system_gpio_read}
use transmisor_receptor_ir.Port.Handlers.{nec_frame_edges, ir_rx_0_pin, write_pr, store_edge_tick}
use transmisor_receptor_ir.Port.Interrupts.{shown, serve, serve_all}
use transmisor_receptor_ir.Port.Power.{port_system_systick_resume}
use transmisor_receptor_ir.Port.Valid.{IsValid, serve-IsValid}

module _ {ℓ} {A : Type ℓ} where
  abbrev pub take : ℕ → List A → List A
  take zero xs = []
  take (suc n) [] = []
  take (suc n) (x ∷ xs) = x ∷ take n xs

  length-take : (n : ℕ) (xs : List A) → n ≤ length xs → length (take n xs) ≡ n
  length-take zero xs h = refl
  length-take (suc n) [] h = absurd (omega arith)
  length-take (suc n) (x ∷ xs) h = ap suc (length-take n xs (omega arith))

  take-set :
      (n : ℕ) (xs : List A) (v : A)
      → n < length xs
      → take (suc n) (set xs n v) ≡ take n xs ++ v ∷ []
  take-set zero [] v h = absurd (omega arith)
  take-set zero (x ∷ xs) v h = refl
  take-set (suc n) [] v h = absurd (omega arith)
  take-set (suc n) (x ∷ xs) v h = ap (λ l. x ∷ l) (take-set n xs v (omega arith))

-- What the buffer stands for.
abbrev pub captured : Board → List ℕ
captured b = take b.edge_idx b.edge_ticks

-- An edge: the level after it, and the timer's count. Falling edges and rising ones take turns, the
-- first one falls, and what comes out of turn or finds 256 edges is dropped.
abbrev pub capture : Bool → ℕ → List ℕ → List ℕ
capture level cnt ticks =
    if (if length ticks % 2 == 0 then not level else level) && ltb (length ticks) nec_frame_edges
    then ticks ++ u16 cnt ∷ []
    else ticks

abbrev level_of : Board → Bool
level_of b = port_system_gpio_read gpiob ir_rx_0_pin b

pub length-captured : (b : Board) → IsValid b → length (captured b) ≡ b.edge_idx
length-captured b v = length-take b.edge_idx b.edge_ticks (omega arith)

store_edge_tick-capture :
    (b : Board)
    → IsValid b
    → captured (store_edge_tick b) ≡ capture (level_of b) b.tim3.cnt (captured b)
unfolding store_edge_tick
store_edge_tick-capture b v = elim (Bool-cases (ltb b.edge_idx nec_frame_edges)) [
  | inl room ↦
      let next : u16 (b.edge_idx + 1) ≡ suc b.edge_idx = ground arith in
      let stored =
        ap (λ (t : ℕ). take t (set b.edge_ticks b.edge_idx (u16 b.tim3.cnt))) next
        ∙ take-set b.edge_idx b.edge_ticks (u16 b.tim3.cnt) (ground arith) in
      ground (arith, length-captured b v, stored)
  | inr full ↦ ground (arith, length-captured b v)
]

-- What interrupts do to the list: only the receiver's line counts, when its bit in EXTI's pending
-- register is set.
abbrev pub replay : List Irq → List ℕ → List ℕ
replay [] ticks = ticks
replay (exti9_5 pr idr cnt ∷ is) ticks = replay is (
    if bit_and pr (bit_pos_to_mask ir_rx_0_pin) == 0
    then ticks
    else capture (not (bit_and idr (bit_pos_to_mask ir_rx_0_pin) == 0)) cnt ticks)
replay (i ∷ is) ticks = replay is ticks

-- The line of the receiver's pin is on.
abbrev pub IsOn : Board → Type 0
IsOn b = b.irq_on exti9_5_irqn ≡ true

serve-IsOn : (i : Irq) (b : Board) → IsOn b → IsOn (serve i b)
unfolding serve store_edge_tick
serve-IsOn systick b on = ground arith
serve-IsOn tim1_up b on = ground arith
serve-IsOn (exti15_10 pr idr) b on = ground arith
serve-IsOn (exti9_5 pr idr cnt) b on = ground arith

serve-captured :
    (i : Irq) (b : Board) → IsValid b → IsOn b → captured (serve i b) ≡ replay (i ∷ []) (captured b)
unfolding serve port_system_gpio_read port_system_systick_resume
serve-captured systick b v on = ground arith
serve-captured tim1_up b v on = ground arith
serve-captured (exti15_10 pr idr) b v on = ground arith
serve-captured (exti9_5 pr idr cnt) b v on =
    let c =
      write_pr (bit_pos_to_mask ir_rx_0_pin)
        (port_system_systick_resume (shown (exti9_5 pr idr cnt) b)) in
    let w : IsValid c = record {
      clock = v.clock;
      symbol_clock = v.symbol_clock;
      buffer = v.buffer;
      index = v.index;
    } in
    ground (arith, store_edge_tick-capture c w)

replay-cons :
    (i : Irq) (is : List Irq) (ticks : List ℕ)
    → replay (i ∷ is) ticks ≡ replay is (replay (i ∷ []) ticks)
replay-cons systick is ticks = refl
replay-cons tim1_up is ticks = refl
replay-cons (exti15_10 pr idr) is ticks = refl
replay-cons (exti9_5 pr idr cnt) is ticks = refl

-- On a valid board where the line of the receiver's pin is on, serving any interrupts, in their
-- order, does to what the buffer stands for what it does to the list, the board stays valid, and
-- the line stays on.
pub serve_all_refines :
    (is : List Irq) (b : Board)
    → IsValid b
    → IsOn b
    → (captured (serve_all is b) ≡ replay is (captured b))
      × IsValid (serve_all is b)
      × IsOn (serve_all is b)
unfolding serve_all
serve_all_refines [] b v on = (refl, v, on)
serve_all_refines (i ∷ is) b v on =
    let (same, v', on') =
      serve_all_refines is (serve i b) (serve-IsValid i b v) (serve-IsOn i b on) in
    (same ∙ ap (replay is) (serve-captured i b v on) ∙ sym (replay-cons i is (captured b)), v', on')
