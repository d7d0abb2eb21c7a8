-- ===== src/Main/Lit.antt =====
-- The LED on the board (port/nucleo_stm32f446re/src/port_rgb.c), and what the acts of the governing
-- machine of common/src/fsm_retina.c do to it.
use transmisor_receptor_ir.Common.{ℕ, ◌≡◌, ap, ◌∙◌, Option, some, none, arith}
use transmisor_receptor_ir.Retina.{System}
use transmisor_receptor_ir.Retina.Codes.{Color, colors, color_of, show}
use transmisor_receptor_ir.Retina.Remote.{
  Act, rest, doze, forget, stop_receiving, send, start_receiving, show_code, perform,
}
use transmisor_receptor_ir.Retina.Life.{off, or_kept, lit}
use transmisor_receptor_ir.Port.State.{Board, gpiob, gpioc}
use transmisor_receptor_ir.Port.Rgb.{
  port_rgb_set_color, port_rgb_init, rgb_r_0_pin, rgb_g_0_pin, rgb_b_0_pin,
}
use transmisor_receptor_ir.Port.Led.{driven, rgb_set_color-driven}
use transmisor_receptor_ir.Port.Later.{IsLater-refl, system_sleep-IsLater}
use transmisor_receptor_ir.Port.ForRetina.{board_retina}

-- The pins of the LED are driven with the colour.
pub record IsLit (c : Color) (b : Board) : Type 0 where
  pub red : driven gpiob rgb_r_0_pin b.bsrr ≡ some c.red
  pub green : driven gpioc rgb_g_0_pin b.bsrr ≡ some c.green
  pub blue : driven gpiob rgb_b_0_pin b.bsrr ≡ some c.blue

pub IsLit-kept : (c : Color) (b d : Board) → d.bsrr ≡ b.bsrr → IsLit c b → IsLit c d
IsLit-kept c b d e l = record {
  red = ap (driven gpiob rgb_r_0_pin) e ∙ l.red;
  green = ap (driven gpioc rgb_g_0_pin) e ∙ l.green;
  blue = ap (driven gpiob rgb_b_0_pin) e ∙ l.blue;
}

pub rgb_set_color-IsLit :
    (id : ℕ) (c : Color) (b : Board) → IsLit c (port_rgb_set_color id c.red c.green c.blue b)
rgb_set_color-IsLit id c b = record {
  red = rgb_set_color-driven id gpiob rgb_r_0_pin c.red c.green c.blue b (omega arith);
  green = rgb_set_color-driven id gpioc rgb_g_0_pin c.red c.green c.blue b (omega arith);
  blue = rgb_set_color-driven id gpiob rgb_b_0_pin c.red c.green c.blue b (omega arith);
}

show-IsLit :
    (id : ℕ) (o : Option Color) (c : Color) (b : Board)
    → IsLit c b
    → IsLit (or_kept o c) (show ⦃port = board_retina⦄ id o b)
show-IsLit id none c b l = l
show-IsLit id (some d) c b l = rgb_set_color-IsLit id d b

-- An act does to the LED and to what is printed what it says.
pub perform-IsLit :
    (act : Act) (c : Color) (s : System Board)
    → IsLit c s.board
    → IsLit (lit act c) (perform ⦃port = board_retina⦄ act s).board
perform-IsLit rest c s l = l
perform-IsLit doze c s l =
    IsLit-kept c s.board _ (system_sleep-IsLater s.board (IsLater-refl s.board)).led l
perform-IsLit forget c s l = l
perform-IsLit (send code) c s l = l
perform-IsLit (show_code code) c s l = show-IsLit s.retina.rgb_id (color_of colors code) c s.board l
perform-IsLit (start_receiving found) c s l =
    show-IsLit s.retina.rgb_id (color_of colors found) c s.board l
perform-IsLit stop_receiving c s l = rgb_set_color-IsLit s.retina.rgb_id off s.board

pub port_rgb_init-IsLit : (id : ℕ) (b : Board) → IsLit off (port_rgb_init id b)
unfolding port_rgb_init
port_rgb_init-IsLit id b = rgb_set_color-IsLit id off _
