-- ===== src/Port/ForMain.antt =====
-- The board (port/nucleo_stm32f446re/src) serves all machines at once: on the boards that can occur
-- once the transmitter is initialised, every function that a machine calls leaves such a board.
use transmisor_receptor_ir.Common.{ℕ, ◌∙◌, sym, subst, Bool, true, false, arith}
use transmisor_receptor_ir.Port.State.{Board}
use transmisor_receptor_ir.Port.Interrupts.{poll}
use transmisor_receptor_ir.Port.Valid.{IsValid, poll-IsValid}
use transmisor_receptor_ir.Port.Keeps.{
  Keeps, poll-Keeps, port_button_init-Keeps, port_rx_en-Keeps, port_rx_clean_buffer-Keeps,
  port_rx_tmr_start-Keeps, port_rx_tmr_stop-Keeps, port_rx_init-Keeps, port_rgb_init-Keeps,
  port_rgb_set_color-Keeps, port_system_sleep-Keeps,
}
use transmisor_receptor_ir.Port.Button.{
  port_button_init, port_button_is_pressed, port_button_get_tick, port_system_get_millis,
}
use transmisor_receptor_ir.Port.Rx.{
  port_rx_init, port_rx_en, port_rx_tmr_start, port_rx_tmr_stop, port_rx_get_num_edges,
  port_rx_get_buffer_edges, port_rx_clean_buffer,
}
use transmisor_receptor_ir.Port.Rgb.{port_rgb_init, port_rgb_set_color}
use transmisor_receptor_ir.Port.Tx.{port_tx_init}
use transmisor_receptor_ir.Port.Sleep.{port_system_sleep}
use transmisor_receptor_ir.Port.ForTx.{IsPaced, CanSend}
use transmisor_receptor_ir.Button.Port.{ButtonPort}
use transmisor_receptor_ir.Rx.Port.{RxPort}
use transmisor_receptor_ir.Port.ForButton.{
  board_button, port_button_init-IsValid, port_button_get_tick-eq-systicks, systicks-le-is_pressed,
  systicks-le-get_tick,
}
use transmisor_receptor_ir.Port.ForRx.{
  board_rx, port_rx_clean_buffer-IsValid, port_rx_tmr_start-IsValid, port_rx_tmr_stop-IsValid,
  num_edges-le-buffer, num_edges-lt-word, port_rx_en-IsValid, port_rx_init-IsValid,
}

pub port_rgb_init-IsValid : (id : ℕ) (b : Board) → IsValid b → IsValid (port_rgb_init id b)
unfolding port_rgb_init
port_rgb_init-IsValid id b v = ground arith

pub port_rgb_set_color-IsValid :
    (id : ℕ) (r g b : Bool) (d : Board) → IsValid d → IsValid (port_rgb_set_color id r g b d)
unfolding port_rgb_set_color
port_rgb_set_color-IsValid id r g b d v = ground arith

pub port_system_sleep-IsValid : (b : Board) → IsValid b → IsValid (port_system_sleep b)
unfolding port_system_sleep
port_system_sleep-IsValid b v =
    let b' : Board = record b { tickint = false; pdds = false; lpds = true; sleepdeep = true } in
    let v' : IsValid b' = ground arith in ground (arith, poll-IsValid b' v')

module _ (until : ℕ → ℕ) (period : ℕ) where
  Keeps-CanSend :
      {b c : Board} → Keeps b c → IsValid c → CanSend until period b → CanSend until period c
  Keeps-CanSend k v r = record {
    valid = v;
    uie = k.uie ∙ r.uie;
    irq = k.irq ∙ r.irq;
    paced = subst (IsPaced until period) (sym k.arrivals) r.paced;
  }

  pub button_init-CanSend :
      (id : ℕ) (b : Board) → CanSend until period b → CanSend until period (port_button_init id b)
  button_init-CanSend id b r =
      Keeps-CanSend (port_button_init-Keeps id b) (port_button_init-IsValid id b r.valid) r

  poll-CanSend : (b : Board) → CanSend until period b → CanSend until period (poll b)
  poll-CanSend b r = Keeps-CanSend (poll-Keeps b) (poll-IsValid b r.valid) r

  pub is_pressed-CanSend :
      (id : ℕ) (b : Board)
      → CanSend until period b
      → CanSend until period (port_button_is_pressed id b).1
  unfolding port_button_is_pressed
  is_pressed-CanSend id b r = poll-CanSend b r

  pub get_tick-CanSend :
      (b : Board) → CanSend until period b → CanSend until period (port_button_get_tick b).1
  unfolding port_button_get_tick
  get_tick-CanSend b r = poll-CanSend b r

  pub get_millis-CanSend :
      (b : Board) → CanSend until period b → CanSend until period (port_system_get_millis b).1
  unfolding port_system_get_millis
  get_millis-CanSend b r = poll-CanSend b r

  pub get_num_edges-CanSend :
      (id : ℕ) (b : Board)
      → CanSend until period b
      → CanSend until period (port_rx_get_num_edges id b).1
  unfolding port_rx_get_num_edges
  get_num_edges-CanSend id b r = poll-CanSend b r

  pub rx_init-CanSend :
      (id : ℕ) (b : Board) → CanSend until period b → CanSend until period (port_rx_init id b)
  rx_init-CanSend id b r =
      Keeps-CanSend (port_rx_init-Keeps id b) (port_rx_init-IsValid id b r.valid) r

  pub rx_en-CanSend :
      (id : ℕ) (on : Bool) (b : Board)
      → CanSend until period b
      → CanSend until period (port_rx_en id on b)
  rx_en-CanSend id on b r =
      Keeps-CanSend (port_rx_en-Keeps id on b) (port_rx_en-IsValid id on b r.valid) r

  pub rx_clean_buffer-CanSend :
      (id : ℕ) (b : Board)
      → CanSend until period b
      → CanSend until period (port_rx_clean_buffer id b)
  rx_clean_buffer-CanSend id b r =
      Keeps-CanSend (port_rx_clean_buffer-Keeps id b) (port_rx_clean_buffer-IsValid id b r.valid) r

  pub rx_tmr_start-CanSend :
      (b : Board) → CanSend until period b → CanSend until period (port_rx_tmr_start b)
  rx_tmr_start-CanSend b r =
      Keeps-CanSend (port_rx_tmr_start-Keeps b) (port_rx_tmr_start-IsValid b r.valid) r

  pub rx_tmr_stop-CanSend :
      (b : Board) → CanSend until period b → CanSend until period (port_rx_tmr_stop b)
  rx_tmr_stop-CanSend b r =
      Keeps-CanSend (port_rx_tmr_stop-Keeps b) (port_rx_tmr_stop-IsValid b r.valid) r

  pub rgb_set_color-CanSend :
      (id : ℕ) (r g b : Bool) (d : Board)
      → CanSend until period d
      → CanSend until period (port_rgb_set_color id r g b d)
  rgb_set_color-CanSend id r g b d c =
      Keeps-CanSend (port_rgb_set_color-Keeps id r g b d)
        (port_rgb_set_color-IsValid id r g b d c.valid) c

  pub rgb_init-CanSend :
      (id : ℕ) (b : Board) → CanSend until period b → CanSend until period (port_rgb_init id b)
  rgb_init-CanSend id b r =
      Keeps-CanSend (port_rgb_init-Keeps id b) (port_rgb_init-IsValid id b r.valid) r

  pub system_sleep-CanSend :
      (b : Board) → CanSend until period b → CanSend until period (port_system_sleep b)
  system_sleep-CanSend b r =
      Keeps-CanSend (port_system_sleep-Keeps b) (port_system_sleep-IsValid b r.valid) r

  -- The initialisation of the transmitter turns its interrupt on.
  pub port_tx_init-CanSend :
      (b : Board)
      → IsValid b
      → IsPaced until period b.arrivals
      → CanSend until period (port_tx_init 0 false b)
  unfolding port_tx_init
  port_tx_init-CanSend b v p = ground arith

  -- The interfaces of the button and of the receiver, on these boards.
  abbrev pub paced_button : ButtonPort Board
  paced_button = record {
    init = port_button_init;
    is_pressed = port_button_is_pressed;
    get_tick = port_button_get_tick;
    IsBoard = CanSend until period;
    elapsed = λ b. b.systicks;
    init-IsBoard = button_init-CanSend;
    is_pressed-IsBoard = is_pressed-CanSend;
    get_tick-IsBoard = get_tick-CanSend;
    get_tick-eq-elapsed = λ b r. port_button_get_tick-eq-systicks b r.valid;
    elapsed-le-is_pressed = systicks-le-is_pressed;
    elapsed-le-get_tick = systicks-le-get_tick;
  }

  abbrev pub paced_rx : RxPort Board
  paced_rx = record {
    init = port_rx_init;
    en = port_rx_en;
    tmr_start = port_rx_tmr_start;
    tmr_stop = port_rx_tmr_stop;
    get_num_edges = port_rx_get_num_edges;
    get_buffer_edges = port_rx_get_buffer_edges;
    clean_buffer = port_rx_clean_buffer;
    get_millis = port_system_get_millis;
    IsBoard = CanSend until period;
    init-IsBoard = rx_init-CanSend;
    en-IsBoard = rx_en-CanSend;
    tmr_start-IsBoard = rx_tmr_start-CanSend;
    tmr_stop-IsBoard = rx_tmr_stop-CanSend;
    get_num_edges-IsBoard = get_num_edges-CanSend;
    clean_buffer-IsBoard = rx_clean_buffer-CanSend;
    get_millis-IsBoard = get_millis-CanSend;
    num_edges-le-length = λ id b r. num_edges-le-buffer id b r.valid;
    num_edges-lt = λ id b r. num_edges-lt-word id b r.valid;
  }
