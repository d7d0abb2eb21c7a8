-- ===== src/Tx/Port.antt =====
-- What common/src/fsm_tx.c asks of a board: the functions that
-- port/nucleo_stm32f446re/include/port_tx.h declares, and what the transmitter relies on. A call
-- returns the board as the interrupts taken meanwhile leave it.
use transmisor_receptor_ir.Common.{ℕ, ◌+◌, ◌<◌, ◌≡◌, ◌⊎◌, Bool, List, ◌++◌, replicate, u32}

pub record TxPort (B : Type 0) : Type 1 where
  pub init : ℕ → Bool → B → B
  pub pwm_timer_set : ℕ → Bool → B → B
  pub symbol_tmr_start : B → B
  pub symbol_tmr_stop : B → B
  pub tmr_get_tick : B → ℕ × B
  -- The boards that can occur, and those on which the symbol timer runs.
  pub IsBoard : B → Type 0
  pub IsRunning : B → Type 0
  -- Whether the carrier is on; the ticks of the symbol timer since it was started; how often the
  -- tick can still be read before the next one comes, and a bound of that.
  pub carrier : B → Bool
  -- Whether the carrier was on, at each tick of the symbol timer up to now.
  pub on_air : B → List Bool
  pub symbols : B → ℕ
  pub until_tick : B → ℕ
  pub period : ℕ
  pub symbol_tmr_start-IsRunning : (b : B) → IsBoard b → IsRunning (symbol_tmr_start b)
  pub pwm_timer_set-IsRunning :
      (id : ℕ) (on : Bool) (b : B) → IsRunning b → IsRunning (pwm_timer_set id on b)
  pub tmr_get_tick-IsRunning : (b : B) → IsRunning b → IsRunning (tmr_get_tick b).1
  pub symbol_tmr_stop-IsBoard : (b : B) → IsRunning b → IsBoard (symbol_tmr_stop b)
  pub carrier-pwm_timer_set : (on : Bool) (b : B) → carrier (pwm_timer_set 0 on b) ≡ on
  pub carrier-tmr_get_tick : (b : B) → carrier (tmr_get_tick b).1 ≡ carrier b
  pub on_air-pwm_timer_set :
      (id : ℕ) (on : Bool) (b : B) → on_air (pwm_timer_set id on b) ≡ on_air b
  pub on_air-symbol_tmr_stop : (b : B) → on_air (symbol_tmr_stop b) ≡ on_air b
  -- The ticks that come with a read find the carrier as it is.
  pub on_air-tmr_get_tick :
      (b : B)
      → IsRunning b
      → let c = (tmr_get_tick b).1 in
        (n : ℕ) × (symbols c ≡ symbols b + n) × (on_air c ≡ on_air b ++ replicate n (carrier b))
  pub symbols-pwm_timer_set :
      (id : ℕ) (on : Bool) (b : B) → symbols (pwm_timer_set id on b) ≡ symbols b
  -- The tick is the number of ticks in 32 bits.
  pub tick-eq-symbols :
      (b : B) → IsRunning b → (tmr_get_tick b).0 ≡ u32 (symbols (tmr_get_tick b).1)
  -- Reading the tick is fast: at most one tick comes with each read, and the next one after a
  -- bounded number of reads.
  pub until_tick-lt-period : (b : B) → IsRunning b → until_tick b < period
  pub pace :
      (b : B)
      → IsRunning b
      → (symbols (tmr_get_tick b).1 ≡ symbols b + 1)
        ⊎ ((symbols (tmr_get_tick b).1 ≡ symbols b)
            × (until_tick (tmr_get_tick b).1 < until_tick b))
