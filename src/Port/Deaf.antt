-- ===== src/Port/Deaf.antt =====
-- The boards of port/nucleo_stm32f446re/src that do not hear: the line of the receiver's pin is off,
-- and its timer stands still.
use transmisor_receptor_ir.Common.{ℕ, ◌+◌, ◌≡◌, refl, ◌∙◌, Bool, true, false, List, [], ◌∷◌, arith}
use transmisor_receptor_ir.Port.State.{
  Irq, systick, tim1_up, exti15_10, exti9_5, Board, exti9_5_irqn,
}
use transmisor_receptor_ir.Port.Handlers.{store_edge_tick, reset_edge_ticks_idx}
use transmisor_receptor_ir.Port.Interrupts.{serve, serve_all, poll}
use transmisor_receptor_ir.Port.Hearing.{poll-cen}
use transmisor_receptor_ir.Port.Rx.{port_rx_en, port_rx_tmr_stop}
use transmisor_receptor_ir.Port.Rgb.{port_rgb_set_color}
use transmisor_receptor_ir.Port.Sleep.{port_system_sleep}

pub record IsDeaf (b : Board) : Type 0 where
  pub off : b.irq_on exti9_5_irqn ≡ false
  pub stopped : b.tim3.cen ≡ false

serve_all-irq_on :
    (is : List Irq) (b : Board) → (serve_all is b).irq_on exti9_5_irqn ≡ b.irq_on exti9_5_irqn
unfolding serve_all serve store_edge_tick
serve_all-irq_on [] b = refl
serve_all-irq_on (systick ∷ is) b = serve_all-irq_on is _ ∙ ground arith
serve_all-irq_on (tim1_up ∷ is) b = serve_all-irq_on is _ ∙ ground arith
serve_all-irq_on (exti15_10 pr idr ∷ is) b = serve_all-irq_on is _ ∙ ground arith
serve_all-irq_on (exti9_5 pr idr cnt ∷ is) b = serve_all-irq_on is _ ∙ ground arith

poll-IsDeaf : (b : Board) → IsDeaf b → IsDeaf (poll b)
unfolding poll
poll-IsDeaf b d = record {
  off = serve_all-irq_on (b.arrivals b.accesses) (record b { accesses = b.accesses + 1 }) ∙ d.off;
  stopped = poll-cen b ∙ d.stopped;
}

-- The end of the reception.
pub stopped-IsDeaf : (id : ℕ) (b : Board) → IsDeaf (port_rx_en id false (port_rx_tmr_stop b))
unfolding port_rx_en port_rx_tmr_stop reset_edge_ticks_idx
stopped-IsDeaf id b =
    let c : Board = record b { tim3 = record (b.tim3) { cen = false } } in
    record { off = refl; stopped = poll-cen c }

pub rgb_set_color-IsDeaf :
    (id : ℕ) (r g b : Bool) (d : Board) → IsDeaf d → IsDeaf (port_rgb_set_color id r g b d)
unfolding port_rgb_set_color
rgb_set_color-IsDeaf id r g b d h = record { off = h.off; stopped = h.stopped }

pub system_sleep-IsDeaf : (b : Board) → IsDeaf b → IsDeaf (port_system_sleep b)
unfolding port_system_sleep
system_sleep-IsDeaf b d =
    let c : Board = record b { tickint = false; pdds = false; lpds = true; sleepdeep = true } in
    let e = poll-IsDeaf c (record { off = d.off; stopped = d.stopped }) in
    record { off = e.off; stopped = e.stopped }
