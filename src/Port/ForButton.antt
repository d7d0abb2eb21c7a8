-- ===== src/Port/ForButton.antt =====
-- The board (port/nucleo_stm32f446re/src) gives the button's machine what it relies on.
use transmisor_receptor_ir.Common.{ℕ, ◌≤◌, ◌≡◌, arith, u32}
use transmisor_receptor_ir.Button.Port.{ButtonPort}
use transmisor_receptor_ir.Port.State.{Board}
use transmisor_receptor_ir.Port.Valid.{IsValid, poll-IsValid, systicks-le-poll}
use transmisor_receptor_ir.Port.Button.{
  port_button_init, port_button_is_pressed, port_button_get_tick,
}

pub port_button_init-IsValid : (id : ℕ) (b : Board) → IsValid b → IsValid (port_button_init id b)
unfolding port_button_init
port_button_init-IsValid id b v = ground arith

pub port_button_is_pressed-IsValid :
    (id : ℕ) (b : Board) → IsValid b → IsValid (port_button_is_pressed id b).1
unfolding port_button_is_pressed
port_button_is_pressed-IsValid id b v = poll-IsValid b v

pub port_button_get_tick-IsValid : (b : Board) → IsValid b → IsValid (port_button_get_tick b).1
unfolding port_button_get_tick
port_button_get_tick-IsValid b v = poll-IsValid b v

pub port_button_get_tick-eq-systicks :
    (b : Board) → IsValid b → (port_button_get_tick b).0 ≡ u32 (port_button_get_tick b).1.systicks
unfolding port_button_get_tick
port_button_get_tick-eq-systicks b v = (poll-IsValid b v).clock

pub systicks-le-is_pressed :
    (id : ℕ) (b : Board) → b.systicks ≤ (port_button_is_pressed id b).1.systicks
unfolding port_button_is_pressed
systicks-le-is_pressed id b = systicks-le-poll b

pub systicks-le-get_tick : (b : Board) → b.systicks ≤ (port_button_get_tick b).1.systicks
unfolding port_button_get_tick
systicks-le-get_tick b = systicks-le-poll b

-- port_button.c fills the interface of the button's machine.
instance abbrev pub board_button : ButtonPort Board
board_button = record {
  init = port_button_init;
  is_pressed = port_button_is_pressed;
  get_tick = port_button_get_tick;
  IsBoard = IsValid;
  elapsed = λ b. b.systicks;
  init-IsBoard = port_button_init-IsValid;
  is_pressed-IsBoard = port_button_is_pressed-IsValid;
  get_tick-IsBoard = port_button_get_tick-IsValid;
  get_tick-eq-elapsed = port_button_get_tick-eq-systicks;
  elapsed-le-is_pressed = systicks-le-is_pressed;
  elapsed-le-get_tick = systicks-le-get_tick;
}
