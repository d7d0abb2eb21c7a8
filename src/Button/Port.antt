-- ===== src/Button/Port.antt =====
-- What common/src/fsm_button.c asks of a board: the functions that
-- port/nucleo_stm32f446re/include/port_button.h declares, and what the machine relies on. A call
-- returns the board as the interrupts taken meanwhile leave it.
use transmisor_receptor_ir.Common.{ℕ, ◌≤◌, ◌≡◌, Bool, u32}

pub record ButtonPort (B : Type 0) : Type 1 where
  pub init : ℕ → B → B
  pub is_pressed : ℕ → B → Bool × B
  pub get_tick : B → ℕ × B
  -- The boards that can occur, and how many milliseconds have passed on one since its start.
  pub IsBoard : B → Type 0
  pub elapsed : B → ℕ
  pub init-IsBoard : (id : ℕ) (b : B) → IsBoard b → IsBoard (init id b)
  pub is_pressed-IsBoard : (id : ℕ) (b : B) → IsBoard b → IsBoard (is_pressed id b).1
  pub get_tick-IsBoard : (b : B) → IsBoard b → IsBoard (get_tick b).1
  -- The tick is the time in 32 bits, and time does not run back.
  pub get_tick-eq-elapsed : (b : B) → IsBoard b → (get_tick b).0 ≡ u32 (elapsed (get_tick b).1)
  pub elapsed-le-is_pressed : (id : ℕ) (b : B) → elapsed b ≤ elapsed (is_pressed id b).1
  pub elapsed-le-get_tick : (b : B) → elapsed b ≤ elapsed (get_tick b).1
