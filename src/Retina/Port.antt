-- ===== src/Retina/Port.antt =====
-- What common/src/fsm_retina.c asks of a board: `port_rgb_init` and `port_rgb_set_color` of
-- port/nucleo_stm32f446re/include/port_rgb.h, and `port_system_sleep` of port_system.h.
use transmisor_receptor_ir.Common.{ℕ, Bool}

pub record RetinaPort (B : Type 0) : Type 0 where
  pub rgb_init : ℕ → B → B
  pub rgb_set_color : ℕ → Bool → Bool → Bool → B → B
  pub system_sleep : B → B
