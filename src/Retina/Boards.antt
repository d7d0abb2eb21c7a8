-- ===== src/Retina/Boards.antt =====
-- What the governing machine does to the board, and what it leaves of the machines below
-- (common/src/fsm_retina.c).
use transmisor_receptor_ir.Common.{ℕ, ◌≡◌, Bool, false, some, arith}
use transmisor_receptor_ir.Retina.Port.{RetinaPort}
use transmisor_receptor_ir.Retina.{System, retina_fire, process_rgb_code}

-- What a call leaves of the receiver and of the transmitter.
pub record IsLeft {B : Type 0} (s t : System B) : Type 0 where
  pub state : t.rx.current_state ≡ s.rx.current_state
  pub parser : t.rx.p_fsm_rx_nec ≡ s.rx.p_fsm_rx_nec
  pub mallocs : t.mallocs ≡ s.mallocs
  pub frees : t.frees ≡ s.frees
  pub tx_state : t.tx.current_state ≡ s.tx.current_state
  pub tx_id : t.tx.tx_id ≡ s.tx.tx_id

module _ {B : Type 0} ⦃port : RetinaPort B⦄ where
  pub retina_fire-IsLeft : (s t : System B) → retina_fire s ≡ some t → IsLeft s t
  unfolding retina_fire
  retina_fire-IsLeft s t e = ground arith

  -- A set of boards that the calls of the governing machine do not leave.
  module _ (IsBoard : B → Type 0)
      (rgb_set_color-IsBoard : (id : ℕ) (r g b : Bool) (d : B)
        → IsBoard d
        → IsBoard (port.rgb_set_color id r g b d))
      (system_sleep-IsBoard : (d : B) → IsBoard d → IsBoard (port.system_sleep d)) where
    process_rgb_code-IsBoard :
        (id code : ℕ) (d : B) → IsBoard d → IsBoard (process_rgb_code id code d)
    unfolding process_rgb_code
    process_rgb_code-IsBoard id code d v = grind (arith, rgb_set_color-IsBoard)

    pub retina_fire-IsBoard :
        (s t : System B) → IsBoard s.board → retina_fire s ≡ some t → IsBoard t.board
    unfolding retina_fire
    retina_fire-IsBoard s t v e = ground (
      arith,
      rgb_set_color-IsBoard s.retina.rgb_id false false false s.board,
      system_sleep-IsBoard s.board,
      process_rgb_code-IsBoard s.retina.rgb_id s.retina.rx_code s.board,
      process_rgb_code-IsBoard s.retina.rgb_id s.rx.code s.board,
    )
