-- ===== src/Port/Later.antt =====
-- What the functions of port/nucleo_stm32f446re/src do to the time and to the LED: the clock does not
-- run back, and none but those of port_rgb.c drives the LED.
use transmisor_receptor_ir.Common.{
  ℕ, ◌+◌, ◌≤◌, ◌≡◌, refl, ◌∙◌, Bool, true, false, List, [], ◌∷◌, arith,
}
use transmisor_receptor_ir.Port.State.{Irq, systick, tim1_up, exti15_10, exti9_5, Board}
use transmisor_receptor_ir.Port.Handlers.{store_edge_tick, reset_edge_ticks_idx}
use transmisor_receptor_ir.Port.Interrupts.{serve, serve_all, poll}
use transmisor_receptor_ir.Port.Valid.{systicks-le-poll}
use transmisor_receptor_ir.Port.Button.{
  port_button_is_pressed, port_button_get_tick, port_system_get_millis,
}
use transmisor_receptor_ir.Port.Tx.{
  port_tx_symbol_tmr_start, port_tx_symbol_tmr_stop, port_tx_pwm_timer_set, port_tx_tmr_get_tick,
}
use transmisor_receptor_ir.Port.Rx.{
  port_rx_en, port_rx_clean_buffer, port_rx_tmr_start, port_rx_tmr_stop, port_rx_get_num_edges,
}
use transmisor_receptor_ir.Port.Sleep.{port_system_sleep}

pub record IsLater (b c : Board) : Type 0 where
  pub time : b.systicks ≤ c.systicks
  pub led : c.bsrr ≡ b.bsrr

pub IsLater-refl : (b : Board) → IsLater b b
IsLater-refl b = record { time = omega arith; led = refl }

pub IsLater-trans : {b c d : Board} → IsLater b c → IsLater c d → IsLater b d
IsLater-trans p q = record { time = omega (arith, p.time, q.time); led = q.led ∙ p.led }

serve-bsrr : (i : Irq) (b : Board) → (serve i b).bsrr ≡ b.bsrr
unfolding serve store_edge_tick
serve-bsrr systick b = ground arith
serve-bsrr tim1_up b = ground arith
serve-bsrr (exti15_10 pr idr) b = ground arith
serve-bsrr (exti9_5 pr idr cnt) b = ground arith

serve_all-bsrr : (is : List Irq) (b : Board) → (serve_all is b).bsrr ≡ b.bsrr
unfolding serve_all
serve_all-bsrr [] b = refl
serve_all-bsrr (i ∷ is) b = serve_all-bsrr is (serve i b) ∙ serve-bsrr i b

poll-IsLater : (b : Board) → IsLater b (poll b)
unfolding poll
poll-IsLater b = record {
  time = systicks-le-poll b;
  led = serve_all-bsrr (b.arrivals b.accesses) (record b { accesses = b.accesses + 1 });
}

-- The board that polls may differ from the one before in all but the time and the LED.
poll-IsLater_from : (b c : Board) → b.systicks ≡ c.systicks → c.bsrr ≡ b.bsrr → IsLater b (poll c)
poll-IsLater_from b c t l =
    let p = poll-IsLater c in record { time = omega (arith, p.time); led = p.led ∙ l }

-- Each function, on a board that is later than some board, leaves one that is.
module _ {a : Board} where
  pub is_pressed-IsLater :
      (id : ℕ) (b : Board) → IsLater a b → IsLater a (port_button_is_pressed id b).1
  unfolding port_button_is_pressed
  is_pressed-IsLater id b p = IsLater-trans p (poll-IsLater b)

  pub get_tick-IsLater : (b : Board) → IsLater a b → IsLater a (port_button_get_tick b).1
  unfolding port_button_get_tick
  get_tick-IsLater b p = IsLater-trans p (poll-IsLater b)

  pub get_millis-IsLater : (b : Board) → IsLater a b → IsLater a (port_system_get_millis b).1
  unfolding port_system_get_millis
  get_millis-IsLater b p = IsLater-trans p (poll-IsLater b)

  pub symbol_tmr_start-IsLater : (b : Board) → IsLater a b → IsLater a (port_tx_symbol_tmr_start b)
  unfolding port_tx_symbol_tmr_start
  symbol_tmr_start-IsLater b p =
      let c : Board = record b { tim1 = record (b.tim1) { cnt = 0; cen = true } } in
      let q = IsLater-trans p (poll-IsLater_from b c refl refl) in
      record { time = q.time; led = q.led }

  pub symbol_tmr_stop-IsLater : (b : Board) → IsLater a b → IsLater a (port_tx_symbol_tmr_stop b)
  unfolding port_tx_symbol_tmr_stop
  symbol_tmr_stop-IsLater b p = record { time = p.time; led = p.led }

  pub pwm_timer_set-IsLater :
      (id : ℕ) (on : Bool) (b : Board) → IsLater a b → IsLater a (port_tx_pwm_timer_set id on b)
  unfolding port_tx_pwm_timer_set
  pwm_timer_set-IsLater id on b p = ground (arith, p.time, p.led)

  pub tmr_get_tick-IsLater : (b : Board) → IsLater a b → IsLater a (port_tx_tmr_get_tick b).1
  unfolding port_tx_tmr_get_tick
  tmr_get_tick-IsLater b p = IsLater-trans p (poll-IsLater b)

  pub get_num_edges-IsLater :
      (id : ℕ) (b : Board) → IsLater a b → IsLater a (port_rx_get_num_edges id b).1
  unfolding port_rx_get_num_edges
  get_num_edges-IsLater id b p = IsLater-trans p (poll-IsLater b)

  pub clean_buffer-IsLater :
      (id : ℕ) (b : Board) → IsLater a b → IsLater a (port_rx_clean_buffer id b)
  unfolding port_rx_clean_buffer reset_edge_ticks_idx
  clean_buffer-IsLater id b p =
      let q = IsLater-trans p (poll-IsLater b) in record { time = q.time; led = q.led }

  pub rx_tmr_start-IsLater : (b : Board) → IsLater a b → IsLater a (port_rx_tmr_start b)
  unfolding port_rx_tmr_start
  rx_tmr_start-IsLater b p = record { time = p.time; led = p.led }

  pub rx_tmr_stop-IsLater : (b : Board) → IsLater a b → IsLater a (port_rx_tmr_stop b)
  unfolding port_rx_tmr_stop
  rx_tmr_stop-IsLater b p = record { time = p.time; led = p.led }

  pub rx_en-IsLater :
      (id : ℕ) (on : Bool) (b : Board) → IsLater a b → IsLater a (port_rx_en id on b)
  unfolding port_rx_en reset_edge_ticks_idx
  rx_en-IsLater id on b p =
      let q = IsLater-trans p (poll-IsLater b) in ground (arith, q.time, q.led)

  pub system_sleep-IsLater : (b : Board) → IsLater a b → IsLater a (port_system_sleep b)
  unfolding port_system_sleep
  system_sleep-IsLater b p =
      let c : Board = record b { tickint = false; pdds = false; lpds = true; sleepdeep = true } in
      let q = IsLater-trans p (poll-IsLater_from b c refl refl) in
      record { time = q.time; led = q.led }
