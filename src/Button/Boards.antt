-- ===== src/Button/Boards.antt =====
-- What the button's machine leaves of the board (common/src/fsm_button.c): what both its calls keep.
use transmisor_receptor_ir.Common.{ℕ, ◌≡◌, some, arith}
use transmisor_receptor_ir.Button.Port.{ButtonPort}
use transmisor_receptor_ir.Button.{ButtonOn, button_fire}

module _ {B : Type 0} ⦃port : ButtonPort B⦄ (IsBoard : B → Type 0)
    (is_pressed : (id : ℕ) (b : B) → IsBoard b → IsBoard (port.is_pressed id b).1)
    (get_tick : (b : B) → IsBoard b → IsBoard (port.get_tick b).1) where
  pub button_fire_keeps :
      (s t : ButtonOn B) → IsBoard s.board → button_fire s ≡ some t → IsBoard t.board
  unfolding button_fire
  button_fire_keeps s t v e = grind (arith, is_pressed, get_tick)
