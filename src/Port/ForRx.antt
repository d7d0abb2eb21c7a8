-- ===== src/Port/ForRx.antt =====
-- The board (port/nucleo_stm32f446re/src) gives the receiver's machine what it relies on.
use transmisor_receptor_ir.Common.{ℕ, ◌≤◌, ◌<◌, ◌^◌, Bool, arith, length, length-replicate}
use transmisor_receptor_ir.Rx.Port.{RxPort}
use transmisor_receptor_ir.Port.State.{Board}
use transmisor_receptor_ir.Port.Handlers.{nec_frame_edges, reset_edge_ticks_idx}
use transmisor_receptor_ir.Port.Interrupts.{poll}
use transmisor_receptor_ir.Port.Valid.{IsValid, poll-IsValid}
use transmisor_receptor_ir.Port.Button.{port_system_get_millis}
use transmisor_receptor_ir.Port.Rx.{
  port_rx_init, port_rx_en, port_rx_tmr_start, port_rx_tmr_stop, port_rx_get_num_edges,
  port_rx_get_buffer_edges, port_rx_clean_buffer,
}

reset_edge_ticks_idx-IsValid : (b : Board) → IsValid b → IsValid (reset_edge_ticks_idx b)
unfolding reset_edge_ticks_idx
reset_edge_ticks_idx-IsValid b v = record {
  clock = v.clock;
  symbol_clock = v.symbol_clock;
  buffer = length-replicate {A = ℕ} nec_frame_edges 0;
  index = omega arith;
}

pub port_rx_clean_buffer-IsValid :
    (id : ℕ) (b : Board) → IsValid b → IsValid (port_rx_clean_buffer id b)
unfolding port_rx_clean_buffer
port_rx_clean_buffer-IsValid id b v = reset_edge_ticks_idx-IsValid (poll b) (poll-IsValid b v)

pub port_rx_tmr_start-IsValid : (b : Board) → IsValid b → IsValid (port_rx_tmr_start b)
unfolding port_rx_tmr_start
port_rx_tmr_start-IsValid b v = ground arith

pub port_rx_tmr_stop-IsValid : (b : Board) → IsValid b → IsValid (port_rx_tmr_stop b)
unfolding port_rx_tmr_stop
port_rx_tmr_stop-IsValid b v = ground arith

pub port_rx_get_num_edges-IsValid :
    (id : ℕ) (b : Board) → IsValid b → IsValid (port_rx_get_num_edges id b).1
unfolding port_rx_get_num_edges
port_rx_get_num_edges-IsValid id b v = poll-IsValid b v

pub port_system_get_millis-IsValid : (b : Board) → IsValid b → IsValid (port_system_get_millis b).1
unfolding port_system_get_millis
port_system_get_millis-IsValid b v = poll-IsValid b v

pub num_edges-le-buffer :
    (id : ℕ) (b : Board)
    → IsValid b
    → let (n, c) = port_rx_get_num_edges id b in n ≤ length (port_rx_get_buffer_edges id c)
unfolding port_rx_get_num_edges port_rx_get_buffer_edges
num_edges-le-buffer id b v = omega (arith, poll-IsValid b v)

pub num_edges-lt-word : (id : ℕ) (b : Board) → IsValid b → (port_rx_get_num_edges id b).0 < 2 ^ 32
unfolding port_rx_get_num_edges
num_edges-lt-word id b v = omega (arith, poll-IsValid b v)

pub port_rx_en-IsValid : (id : ℕ) (on : Bool) (b : Board) → IsValid b → IsValid (port_rx_en id on b)
unfolding port_rx_en
port_rx_en-IsValid id on b v =
    ground (arith, reset_edge_ticks_idx-IsValid (poll b) (poll-IsValid b v))

pub port_rx_init-IsValid : (id : ℕ) (b : Board) → IsValid b → IsValid (port_rx_init id b)
unfolding port_rx_init
port_rx_init-IsValid id b v = reset_edge_ticks_idx-IsValid (poll _) (poll-IsValid _ (ground arith))

-- port_rx.c fills the receiver's interface.
instance abbrev pub board_rx : RxPort Board
board_rx = record {
  init = port_rx_init;
  en = port_rx_en;
  tmr_start = port_rx_tmr_start;
  tmr_stop = port_rx_tmr_stop;
  get_num_edges = port_rx_get_num_edges;
  get_buffer_edges = port_rx_get_buffer_edges;
  clean_buffer = port_rx_clean_buffer;
  get_millis = port_system_get_millis;
  IsBoard = IsValid;
  init-IsBoard = port_rx_init-IsValid;
  en-IsBoard = port_rx_en-IsValid;
  tmr_start-IsBoard = port_rx_tmr_start-IsValid;
  tmr_stop-IsBoard = port_rx_tmr_stop-IsValid;
  get_num_edges-IsBoard = port_rx_get_num_edges-IsValid;
  clean_buffer-IsBoard = port_rx_clean_buffer-IsValid;
  get_millis-IsBoard = port_system_get_millis-IsValid;
  num_edges-le-length = num_edges-le-buffer;
  num_edges-lt = num_edges-lt-word;
}
