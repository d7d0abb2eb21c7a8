-- ===== src/Rx/Port.antt =====
-- What common/src/fsm_rx.c asks of a board: the functions that
-- port/nucleo_stm32f446re/include/port_rx.h declares and `port_system_get_millis`, and what the
-- receiver relies on. A call returns the board as the interrupts taken meanwhile leave it.
use transmisor_receptor_ir.Common.{ℕ, ◌≤◌, ◌<◌, ◌^◌, Bool, List, length}

pub record RxPort (B : Type 0) : Type 1 where
  pub init : ℕ → B → B
  pub en : ℕ → Bool → B → B
  pub tmr_start : B → B
  pub tmr_stop : B → B
  pub get_num_edges : ℕ → B → ℕ × B
  pub get_buffer_edges : ℕ → B → List ℕ
  pub clean_buffer : ℕ → B → B
  pub get_millis : B → ℕ × B
  -- The boards that can occur.
  pub IsBoard : B → Type 0
  pub init-IsBoard : (id : ℕ) (b : B) → IsBoard b → IsBoard (init id b)
  pub en-IsBoard : (id : ℕ) (on : Bool) (b : B) → IsBoard b → IsBoard (en id on b)
  pub tmr_start-IsBoard : (b : B) → IsBoard b → IsBoard (tmr_start b)
  pub tmr_stop-IsBoard : (b : B) → IsBoard b → IsBoard (tmr_stop b)
  pub get_num_edges-IsBoard : (id : ℕ) (b : B) → IsBoard b → IsBoard (get_num_edges id b).1
  pub clean_buffer-IsBoard : (id : ℕ) (b : B) → IsBoard b → IsBoard (clean_buffer id b)
  pub get_millis-IsBoard : (b : B) → IsBoard b → IsBoard (get_millis b).1
  -- The edges that are counted are in the buffer.
  pub num_edges-le-length :
      (id : ℕ) (b : B)
      → IsBoard b
      → (get_num_edges id b).0 ≤ length (get_buffer_edges id (get_num_edges id b).1)
  pub num_edges-lt : (id : ℕ) (b : B) → IsBoard b → (get_num_edges id b).0 < 2 ^ 32
