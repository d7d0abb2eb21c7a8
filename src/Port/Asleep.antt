-- ===== src/Port/Asleep.antt =====
-- The stop mode of port/nucleo_stm32f446re/src/port_system.c (`port_system_sleep`): what ends the
-- stop of the clock.
use transmisor_receptor_ir.Common.{
  ◌+◌, ◌≡◌, ◌⊎◌, inl, inr, refl, ◌∙◌, ap, Bool, true, false, ◌||◌, List, [], ◌∷◌, arith, Bool-cases,
}
use transmisor_receptor_ir.Port.State.{
  Irq, Irqn, systick, tim1_up, exti15_10, exti9_5, exti15_10_irqn, exti9_5_irqn, Board,
}
use transmisor_receptor_ir.Port.Interrupts.{serve, serve_all, poll}
use transmisor_receptor_ir.Port.Handlers.{store_edge_tick}
use transmisor_receptor_ir.Port.Power.{port_system_systick_resume}
use transmisor_receptor_ir.Port.Sleep.{port_system_sleep}
use transmisor_receptor_ir.Port.Delay.{systicks-serve_all}

-- Whether an interrupt of one of the two pins that are read is among some interrupts, with its line
-- on.
abbrev pub has_edge : List Irq → Board → Bool
has_edge [] b = false
has_edge (exti15_10 pr idr ∷ is) b = b.irq_on exti15_10_irqn || has_edge is b
has_edge (exti9_5 pr idr cnt ∷ is) b = b.irq_on exti9_5_irqn || has_edge is b
has_edge (systick ∷ is) b = has_edge is b
has_edge (tim1_up ∷ is) b = has_edge is b

-- What a board whose clock stands still comes to.
abbrev Stands : List Irq → Board → Board → Type 0
Stands is b c = (c.tickint ≡ has_edge is b) × ((has_edge is b ≡ true) ⊎ (c.ms_ticks ≡ b.ms_ticks))

serve-irq_on : (i : Irq) (b : Board) → (serve i b).irq_on ≡ b.irq_on
unfolding serve store_edge_tick
serve-irq_on systick b = ground arith
serve-irq_on tim1_up b = ground arith
serve-irq_on (exti15_10 pr idr) b = ground arith
serve-irq_on (exti9_5 pr idr cnt) b = ground arith

serve-Stands : (i : Irq) (b : Board) → b.tickint ≡ false → Stands (i ∷ []) b (serve i b)
unfolding serve store_edge_tick port_system_systick_resume
serve-Stands systick b t = ground arith
serve-Stands tim1_up b t = ground arith
serve-Stands (exti15_10 pr idr) b t = ground arith
serve-Stands (exti9_5 pr idr cnt) b t = ground arith

has_edge-cons :
    (i : Irq) (is : List Irq) (b : Board)
    → has_edge (i ∷ is) b ≡ (has_edge (i ∷ []) b || has_edge is b)
has_edge-cons systick is b = refl
has_edge-cons tim1_up is b = refl
has_edge-cons (exti15_10 pr idr) is b = ground arith
has_edge-cons (exti9_5 pr idr cnt) is b = ground arith

has_edge-irq_on :
    (is : List Irq) (b c : Board) → c.irq_on ≡ b.irq_on → has_edge is c ≡ has_edge is b
has_edge-irq_on [] b c e = refl
has_edge-irq_on (systick ∷ is) b c e = has_edge-irq_on is b c e
has_edge-irq_on (tim1_up ∷ is) b c e = has_edge-irq_on is b c e
has_edge-irq_on (exti15_10 pr idr ∷ is) b c e =
    ap (λ (on : Bool). on || has_edge is c) (ap (λ (f : Irqn → Bool). f exti15_10_irqn) e)
    ∙ ap (λ (h : Bool). b.irq_on exti15_10_irqn || h) (has_edge-irq_on is b c e)
has_edge-irq_on (exti9_5 pr idr cnt ∷ is) b c e =
    ap (λ (on : Bool). on || has_edge is c) (ap (λ (f : Irqn → Bool). f exti9_5_irqn) e)
    ∙ ap (λ (h : Bool). b.irq_on exti9_5_irqn || h) (has_edge-irq_on is b c e)

serve_all-Stands : (is : List Irq) (b : Board) → b.tickint ≡ false → Stands is b (serve_all is b)
unfolding serve_all
serve_all-Stands [] b t = ground arith
serve_all-Stands (i ∷ is) b t =
    let one = serve-Stands i b t in
    let same = has_edge-irq_on is b (serve i b) (serve-irq_on i b) in
    elim (Bool-cases (has_edge (i ∷ []) b)) [
      | inl edge ↦
          let (_, on) = systicks-serve_all is (serve i b) (one.0 ∙ edge) in
          ground (arith, has_edge-cons i is b)
      | inr none_yet ↦
          let rest = serve_all-Stands is (serve i b) (one.0 ∙ none_yet) in
          ground (arith, has_edge-cons i is b)
    ]

-- After the stop mode the clock runs exactly if an interrupt of one of the two pins has come, with
-- its line on; else it has stood still, whatever other interrupts came.
pub port_system_sleep-Stands :
    (b : Board)
    → let c = port_system_sleep b in
      let edge = has_edge (b.arrivals b.accesses) b in
      (c.tickint ≡ edge) × ((edge ≡ true) ⊎ (c.ms_ticks ≡ b.ms_ticks)) × (c.sleepdeep ≡ false)
unfolding port_system_sleep poll
port_system_sleep-Stands b =
    let asleep : Board = record b {
      tickint = false;
      pdds = false;
      lpds = true;
      sleepdeep = true;
      accesses = b.accesses + 1;
    } in
    let stands = serve_all-Stands (b.arrivals b.accesses) asleep refl in
    let same = has_edge-irq_on (b.arrivals b.accesses) b asleep refl in ground (arith, stands, same)
