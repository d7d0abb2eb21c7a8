-- ===== src/Port/ForRetina.antt =====
-- The board (port/nucleo_stm32f446re/src) gives the governing machine what it asks for.
use transmisor_receptor_ir.Retina.Port.{RetinaPort}
use transmisor_receptor_ir.Port.State.{Board}
use transmisor_receptor_ir.Port.Rgb.{port_rgb_init, port_rgb_set_color}
use transmisor_receptor_ir.Port.Sleep.{port_system_sleep}

instance abbrev pub board_retina : RetinaPort Board
board_retina = record {
  rgb_init = port_rgb_init;
  rgb_set_color = port_rgb_set_color;
  system_sleep = port_system_sleep;
}
