-- ===== src/Port/Hearing.antt =====
-- The boards of port/nucleo_stm32f446re/src that hear: the line of the receiver's pin is on, and
-- its timer runs.
use transmisor_receptor_ir.Common.{ℕ, ◌+◌, ◌∙◌, ◌≡◌, refl, Bool, true, false, List, [], ◌∷◌, arith}
use transmisor_receptor_ir.Port.State.{
  Irq, systick, tim1_up, exti15_10, exti9_5, Board, exti9_5_irqn,
}
use transmisor_receptor_ir.Port.Handlers.{store_edge_tick, reset_edge_ticks_idx}
use transmisor_receptor_ir.Port.Interrupts.{serve, serve_all, poll}
use transmisor_receptor_ir.Port.Button.{
  port_button_is_pressed, port_button_get_tick, port_system_get_millis,
}
use transmisor_receptor_ir.Port.Tx.{
  port_tx_symbol_tmr_start, port_tx_symbol_tmr_stop, port_tx_pwm_timer_set, port_tx_tmr_get_tick,
}
use transmisor_receptor_ir.Port.Rx.{
  port_rx_en, port_rx_clean_buffer, port_rx_tmr_start, port_rx_get_num_edges,
}
use transmisor_receptor_ir.Port.Rgb.{port_rgb_set_color}
use transmisor_receptor_ir.Port.Sleep.{port_system_sleep}

pub record IsHearing (b : Board) : Type 0 where
  pub on : b.irq_on exti9_5_irqn ≡ true
  pub timed : b.tim3.cen ≡ true

serve-IsHearing : (i : Irq) (b : Board) → IsHearing b → IsHearing (serve i b)
unfolding serve store_edge_tick
serve-IsHearing systick b h = ground arith
serve-IsHearing tim1_up b h = ground arith
serve-IsHearing (exti15_10 pr idr) b h = ground arith
serve-IsHearing (exti9_5 pr idr cnt) b h = ground arith

serve_all-IsHearing : (is : List Irq) (b : Board) → IsHearing b → IsHearing (serve_all is b)
unfolding serve_all
serve_all-IsHearing [] b h = h
serve_all-IsHearing (i ∷ is) b h = serve_all-IsHearing is (serve i b) (serve-IsHearing i b h)

poll-IsHearing : (b : Board) → IsHearing b → IsHearing (poll b)
unfolding poll
poll-IsHearing b h =
    serve_all-IsHearing (b.arrivals b.accesses) (record b { accesses = b.accesses + 1 })
      (record { on = h.on; timed = h.timed })

pub is_pressed-IsHearing :
    (id : ℕ) (b : Board) → IsHearing b → IsHearing (port_button_is_pressed id b).1
unfolding port_button_is_pressed
is_pressed-IsHearing id b h = poll-IsHearing b h

pub get_tick-IsHearing : (b : Board) → IsHearing b → IsHearing (port_button_get_tick b).1
unfolding port_button_get_tick
get_tick-IsHearing b h = poll-IsHearing b h

pub get_millis-IsHearing : (b : Board) → IsHearing b → IsHearing (port_system_get_millis b).1
unfolding port_system_get_millis
get_millis-IsHearing b h = poll-IsHearing b h

pub symbol_tmr_start-IsHearing : (b : Board) → IsHearing b → IsHearing (port_tx_symbol_tmr_start b)
unfolding port_tx_symbol_tmr_start
symbol_tmr_start-IsHearing b h =
    let b' : Board = record b { tim1 = record (b.tim1) { cnt = 0; cen = true } } in
    let h' = poll-IsHearing b' (record { on = h.on; timed = h.timed }) in
    record { on = h'.on; timed = h'.timed }

pub symbol_tmr_stop-IsHearing : (b : Board) → IsHearing b → IsHearing (port_tx_symbol_tmr_stop b)
unfolding port_tx_symbol_tmr_stop
symbol_tmr_stop-IsHearing b h = record { on = h.on; timed = h.timed }

pub pwm_timer_set-IsHearing :
    (id : ℕ) (on : Bool) (b : Board) → IsHearing b → IsHearing (port_tx_pwm_timer_set id on b)
unfolding port_tx_pwm_timer_set
pwm_timer_set-IsHearing id on b h = ground arith

pub tmr_get_tick-IsHearing : (b : Board) → IsHearing b → IsHearing (port_tx_tmr_get_tick b).1
unfolding port_tx_tmr_get_tick
tmr_get_tick-IsHearing b h = poll-IsHearing b h

pub get_num_edges-IsHearing :
    (id : ℕ) (b : Board) → IsHearing b → IsHearing (port_rx_get_num_edges id b).1
unfolding port_rx_get_num_edges
get_num_edges-IsHearing id b h = poll-IsHearing b h

pub clean_buffer-IsHearing :
    (id : ℕ) (b : Board) → IsHearing b → IsHearing (port_rx_clean_buffer id b)
unfolding port_rx_clean_buffer reset_edge_ticks_idx
clean_buffer-IsHearing id b h =
    let h' = poll-IsHearing b h in record { on = h'.on; timed = h'.timed }

-- The timer runs on, whether or not the line is on.
serve_all-cen : (is : List Irq) (b : Board) → (serve_all is b).tim3.cen ≡ b.tim3.cen
unfolding serve_all serve store_edge_tick
serve_all-cen [] b = refl
serve_all-cen (systick ∷ is) b = serve_all-cen is _ ∙ ground arith
serve_all-cen (tim1_up ∷ is) b = serve_all-cen is _ ∙ ground arith
serve_all-cen (exti15_10 pr idr ∷ is) b = serve_all-cen is _ ∙ ground arith
serve_all-cen (exti9_5 pr idr cnt ∷ is) b = serve_all-cen is _ ∙ ground arith

pub poll-cen : (b : Board) → (poll b).tim3.cen ≡ b.tim3.cen
unfolding poll
poll-cen b = serve_all-cen (b.arrivals b.accesses) (record b { accesses = b.accesses + 1 })

-- The start of the reception.
pub started-IsHearing :
    (id : ℕ) (b : Board)
    → IsHearing (port_rx_en id true (port_rx_clean_buffer id (port_rx_tmr_start b)))
unfolding port_rx_en port_rx_clean_buffer port_rx_tmr_start reset_edge_ticks_idx
started-IsHearing id b =
    let b' : Board = record b { tim3 = record (b.tim3) { cnt = 0; cen = true } } in
    record { on = refl; timed = poll-cen (reset_edge_ticks_idx (poll b')) ∙ poll-cen b' }

pub rgb_set_color-IsHearing :
    (id : ℕ) (r g b : Bool) (d : Board) → IsHearing d → IsHearing (port_rgb_set_color id r g b d)
unfolding port_rgb_set_color
rgb_set_color-IsHearing id r g b d h = record { on = h.on; timed = h.timed }

pub system_sleep-IsHearing : (b : Board) → IsHearing b → IsHearing (port_system_sleep b)
unfolding port_system_sleep
system_sleep-IsHearing b h =
    let b' : Board = record b { tickint = false; pdds = false; lpds = true; sleepdeep = true } in
    let h' = poll-IsHearing b' (record { on = h.on; timed = h.timed }) in
    record { on = h'.on; timed = h'.timed }
