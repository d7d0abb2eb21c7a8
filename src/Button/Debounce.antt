-- ===== src/Button/Debounce.antt =====
-- How long a press is reported to be (common/src/fsm_button.c).
use transmisor_receptor_ir.Common.{◌+◌, ◌≤◌, ◌<◌, ◌^◌, ◌≡◌, ◌⊎◌, some, arith}
use transmisor_receptor_ir.Button.Port.{ButtonPort}
use transmisor_receptor_ir.Button.{ButtonOn, button_fire, button_released_wait, button_pressed}

module _ {B : Type 0} ⦃port : ButtonPort B⦄ where
  -- Between two calls of `fsm_fire`, while the 32-bit clock has not wrapped.
  pub record IsTimed (s : ButtonOn B) : Type 0 where
    pub on_board : port.IsBoard s.board
    pub waiting :
        s.fsm.current_state ≡ button_released_wait
        → s.fsm.tick_pressed + s.fsm.debounce_time ≤ s.fsm.next_timeout
    pub pressed :
        s.fsm.current_state ≡ button_pressed
        → s.fsm.tick_pressed + s.fsm.debounce_time < port.elapsed s.board
    pub reported : (s.fsm.duration ≡ 0) ⊎ (s.fsm.debounce_time < s.fsm.duration)

  -- A call of `fsm_fire` keeps the machine timed, as long as the clock and the debounce time together
  -- stay within 32 bits.
  pub button_fire-IsTimed :
      (s : ButtonOn B) (t : ButtonOn B)
      → IsTimed s
      → button_fire s ≡ some t
      → port.elapsed t.board + s.fsm.debounce_time < 2 ^ 32
      → IsTimed t
  unfolding button_fire
  button_fire-IsTimed s t inv e early = grind (
    arith, port.init-IsBoard, port.is_pressed-IsBoard, port.get_tick-IsBoard,
    port.get_tick-eq-elapsed, port.elapsed-le-get_tick, port.elapsed-le-is_pressed,
  )
