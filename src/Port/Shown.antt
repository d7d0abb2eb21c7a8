-- ===== src/Port/Shown.antt =====
-- From a code that is received to the LED (common/src/fsm_retina.c on the board of
-- port/nucleo_stm32f446re/src).
use transmisor_receptor_ir.Common.{ℕ, ◌≡◌, ◌≢◌, some, arith}
use transmisor_receptor_ir.Retina.{System, wait_rx, retina_fire}
use transmisor_receptor_ir.Retina.Codes.{Color, colors, color_of, code_executed}
use transmisor_receptor_ir.Port.State.{Board, gpiob, gpioc}
use transmisor_receptor_ir.Port.Rgb.{rgb_r_0_pin, rgb_g_0_pin, rgb_b_0_pin}
use transmisor_receptor_ir.Port.Led.{driven, rgb_set_color-driven}
use transmisor_receptor_ir.Port.ForRetina.{board_retina}

-- In the receiving mode, a code of the remote control that was received drives the three pins of
-- the LED with its colour.
pub code_shown :
    (s t : System Board) (c : Color)
    → s.retina.current_state ≡ wait_rx
    → s.rx.code ≢ 0
    → color_of colors s.rx.code ≡ some c
    → retina_fire s ≡ some t
    → (driven gpiob rgb_r_0_pin t.board.bsrr ≡ some c.red)
      × (driven gpioc rgb_g_0_pin t.board.bsrr ≡ some c.green)
      × (driven gpiob rgb_b_0_pin t.board.bsrr ≡ some c.blue)
code_shown s t c q some_code known e =
    let shown = (code_executed s t q some_code e).0 in
    let drives =
      λ (p pin : ℕ). rgb_set_color-driven s.retina.rgb_id p pin c.red c.green c.blue s.board in
    ground (
      arith,
      shown,
      known,
      drives gpiob rgb_r_0_pin,
      drives gpioc rgb_g_0_pin,
      drives gpiob rgb_b_0_pin,
    )
