-- ===== src/Port/Keeps.antt =====
-- What the functions of the board leave of the symbol timer's interrupt
-- (port/nucleo_stm32f446re/src).
use transmisor_receptor_ir.Common.{ℕ, ◌≡◌, ◌∙◌, Bool, true, false, arith}
use transmisor_receptor_ir.Port.State.{Board, tim1_up_tim10_irqn}
use transmisor_receptor_ir.Port.Interrupts.{poll}
use transmisor_receptor_ir.Port.Handlers.{reset_edge_ticks_idx}
use transmisor_receptor_ir.Port.Button.{port_button_init}
use transmisor_receptor_ir.Port.Rx.{
  port_rx_init, port_rx_en, port_rx_tmr_start, port_rx_tmr_stop, port_rx_clean_buffer,
}
use transmisor_receptor_ir.Port.Rgb.{port_rgb_init, port_rgb_set_color}
use transmisor_receptor_ir.Port.Sleep.{port_system_sleep}
use transmisor_receptor_ir.Port.ForTx.{poll-IsKept}

-- The interrupt's switches, and the interrupts that are to come.
pub record Keeps (b c : Board) : Type 0 where
  pub uie : c.tim1.uie ≡ b.tim1.uie
  pub irq : c.irq_on tim1_up_tim10_irqn ≡ b.irq_on tim1_up_tim10_irqn
  pub arrivals : c.arrivals ≡ b.arrivals

Keeps-trans : {b c d : Board} → Keeps b c → Keeps c d → Keeps b d
Keeps-trans p q = record {
  uie = q.uie ∙ p.uie;
  irq = q.irq ∙ p.irq;
  arrivals = q.arrivals ∙ p.arrivals;
}

pub poll-Keeps : (b : Board) → Keeps b (poll b)
poll-Keeps b = ground (arith, poll-IsKept b)

reset_edge_ticks_idx-Keeps : (b : Board) → Keeps b (reset_edge_ticks_idx b)
unfolding reset_edge_ticks_idx
reset_edge_ticks_idx-Keeps b = ground arith

pub port_button_init-Keeps : (id : ℕ) (b : Board) → Keeps b (port_button_init id b)
unfolding port_button_init
port_button_init-Keeps id b = ground arith

pub port_rx_en-Keeps : (id : ℕ) (on : Bool) (b : Board) → Keeps b (port_rx_en id on b)
unfolding port_rx_en reset_edge_ticks_idx
port_rx_en-Keeps id on b = ground (arith, poll-Keeps b)

pub port_rx_clean_buffer-Keeps : (id : ℕ) (b : Board) → Keeps b (port_rx_clean_buffer id b)
unfolding port_rx_clean_buffer reset_edge_ticks_idx
port_rx_clean_buffer-Keeps id b = ground (arith, poll-Keeps b)

pub port_rx_tmr_start-Keeps : (b : Board) → Keeps b (port_rx_tmr_start b)
unfolding port_rx_tmr_start
port_rx_tmr_start-Keeps b = ground arith

pub port_rx_tmr_stop-Keeps : (b : Board) → Keeps b (port_rx_tmr_stop b)
unfolding port_rx_tmr_stop
port_rx_tmr_stop-Keeps b = ground arith

pub port_rx_init-Keeps : (id : ℕ) (b : Board) → Keeps b (port_rx_init id b)
unfolding port_rx_init
port_rx_init-Keeps id b =
    Keeps-trans (Keeps-trans (ground arith) (poll-Keeps _)) (reset_edge_ticks_idx-Keeps _)

pub port_rgb_init-Keeps : (id : ℕ) (b : Board) → Keeps b (port_rgb_init id b)
unfolding port_rgb_init
port_rgb_init-Keeps id b = ground arith

pub port_rgb_set_color-Keeps :
    (id : ℕ) (r g b : Bool) (d : Board) → Keeps d (port_rgb_set_color id r g b d)
unfolding port_rgb_set_color
port_rgb_set_color-Keeps id r g b d = ground arith

pub port_system_sleep-Keeps : (b : Board) → Keeps b (port_system_sleep b)
unfolding port_system_sleep
port_system_sleep-Keeps b =
    let b' : Board = record b { tickint = false; pdds = false; lpds = true; sleepdeep = true } in
    ground (arith, poll-Keeps b')
