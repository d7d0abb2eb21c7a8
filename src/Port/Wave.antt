-- ===== src/Port/Wave.antt =====
-- A wave at the receiver's pin: the interrupts that it raises, and what the service routine of
-- port_rx.c (port/nucleo_stm32f446re/src) makes of them. The output of an infrared receiver is low
-- while there is a carrier.
use transmisor_receptor_ir.Common.{
  ℕ, ◌+◌, ◌*◌, ◌%◌, ◌≤◌, ◌<◌, ◌≡◌, refl, sym, ap, ◌∙◌, Bool, true, false, if◌then◌else◌, List, [],
  ◌∷◌, ◌++◌, arith, length, length-append, shl32,
}
use mathlib.Core.List.{append_assoc, append-nil}
use transmisor_receptor_ir.Tx.Wave.{AreNear, nominal_wave}
use transmisor_receptor_ir.Air.Sampled.{
  symbol_cycles, count_at, edge_counts, length-edge_counts, length-edge_counts_frame,
}
use transmisor_receptor_ir.Port.State.{Irq, systick, tim1_up, exti15_10, exti9_5}
use transmisor_receptor_ir.Port.Gpio.{bit_pos_to_mask}
use transmisor_receptor_ir.Port.Handlers.{ir_rx_0_pin, nec_frame_edges}
use transmisor_receptor_ir.Port.Edges.{capture, replay}

-- An edge of the receiver's pin, at a time: its bit is pending, and the port shows the level.
abbrev pub edge_irq : Bool → ℕ → Irq
edge_irq level t =
    exti9_5 (bit_pos_to_mask ir_rx_0_pin) (if level then bit_pos_to_mask ir_rx_0_pin else 0)
      (count_at t)

-- The interrupts of a wave that begins at the time `t`.
abbrev pub wave_irqs : ℕ → List (ℕ × ℕ) → List Irq
wave_irqs t [] = []
wave_irqs t ((on, off) ∷ ws) =
    edge_irq false t
    ∷ edge_irq true (t + symbol_cycles * on)
    ∷ wave_irqs (t + symbol_cycles * on + symbol_cycles * off) ws

-- The interrupts of the receiver's line among some interrupts.
abbrev pub line_irqs : List Irq → List Irq
line_irqs [] = []
line_irqs (exti9_5 pr idr cnt ∷ is) = exti9_5 pr idr cnt ∷ line_irqs is
line_irqs (i ∷ is) = line_irqs is

replay-line_irqs : (is : List Irq) (ticks : List ℕ) → replay (line_irqs is) ticks ≡ replay is ticks
replay-line_irqs [] ticks = refl
replay-line_irqs (systick ∷ is) ticks = replay-line_irqs is ticks
replay-line_irqs (tim1_up ∷ is) ticks = replay-line_irqs is ticks
replay-line_irqs (exti15_10 pr idr ∷ is) ticks = replay-line_irqs is ticks
replay-line_irqs (exti9_5 pr idr cnt ∷ is) ticks = replay-line_irqs is _

replay_edge :
    (level : Bool) (t : ℕ) (is : List Irq) (ticks : List ℕ)
    → replay (edge_irq level t ∷ is) ticks ≡ replay is (capture level (count_at t) ticks)
unfolding shl32
replay_edge true t is ticks = refl
replay_edge false t is ticks = refl

capture_turn :
    (level : Bool) (t : ℕ) (ticks : List ℕ)
    → length ticks % 2 ≡ (if level then 1 else 0)
    → length ticks < nec_frame_edges
    → capture level (count_at t) ticks ≡ ticks ++ count_at t ∷ []
capture_turn true t ticks turn room = ground arith
capture_turn false t ticks turn room = ground arith

-- The edges of a wave are captured, one after another.
replay-wave_irqs :
    (t : ℕ) (ws : List (ℕ × ℕ)) (ticks : List ℕ)
    → length ticks % 2 ≡ 0
    → length ticks + 2 * length ws ≤ nec_frame_edges
    → replay (wave_irqs t ws) ticks ≡ ticks ++ edge_counts t ws
replay-wave_irqs t [] ticks even room = sym (append-nil ticks)
replay-wave_irqs t ((on, off) ∷ ws) ticks even room =
    let t' = t + symbol_cycles * on in
    let one = ticks ++ count_at t ∷ [] in
    let two = one ++ count_at t' ∷ [] in
    let l₁ : length one ≡ length ticks + 1 = length-append ticks _ in
    let l₂ : length two ≡ length ticks + 2 = omega (arith, length-append one (count_at t' ∷ [])) in
    let rest = wave_irqs (t' + symbol_cycles * off) ws in
    replay_edge false t (edge_irq true t' ∷ rest) ticks
    ∙ ap (replay (edge_irq true t' ∷ rest)) (capture_turn false t ticks even (omega arith))
    ∙ replay_edge true t' rest one
    ∙ ap (replay rest) (capture_turn true t' one (omega arith) (omega arith))
    ∙ replay-wave_irqs (t' + symbol_cycles * off) ws two (omega arith) (omega arith)
    ∙ append_assoc one (count_at t' ∷ []) _
    ∙ append_assoc ticks (count_at t ∷ []) _

-- A frame that begins when nothing is captured is captured whole, whatever other interrupts come
-- between its edges.
pub replay_frame :
    (code t : ℕ) (ws : List (ℕ × ℕ)) (is : List Irq)
    → AreNear (nominal_wave code) ws
    → line_irqs is ≡ wave_irqs t ws
    → replay is [] ≡ edge_counts t ws
replay_frame code t ws is n e =
    let few = length-edge_counts_frame code t n in
    sym (replay-line_irqs is [])
    ∙ ap (λ (l : List Irq). replay l []) e
    ∙ replay-wave_irqs t ws [] refl (omega (arith, length-edge_counts t ws))
