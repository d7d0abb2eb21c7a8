-- ===== src/Retina/Codes.antt =====
-- What the governing machine does with presses of the button and with what is received
-- (common/src/fsm_retina.c).
use transmisor_receptor_ir.Common.{
  ℕ, ◌+◌, ◌%◌, ◌≡◌, ◌≢◌, ◌⊎◌, ◌≤◌, ◌<◌, Bool, true, false, Option, none, some, List, [], ◌∷◌, arith,
  ◌==◌, if◌then◌else◌,
}
use transmisor_receptor_ir.Button.{fsm_button_get_duration}
use transmisor_receptor_ir.Retina.Port.{RetinaPort}
use transmisor_receptor_ir.Retina.{
  System, wait_tx, wait_rx, retina_fire, process_rgb_code, lil_off_button, lil_red_button,
  lil_green_button, lil_blue_button, lil_white_button, lil_yellow_button, lil_cyan_button,
  lil_magenta_button,
}
use transmisor_receptor_ir.Retina.Modes.{IsReady, message, get_elem?-messages, message-ne-zero}

-- The levels of the LED's three parts.
pub record Color : Type 0 where
  pub red : Bool
  pub green : Bool
  pub blue : Bool

abbrev pub rgb : Bool → Bool → Bool → Color
rgb red green blue = record { red = red; green = green; blue = blue }

-- The remote control's commands, each with the colour that it stands for.
abbrev pub colors : List (ℕ × Color)
colors =
    (lil_off_button, rgb false false false)
    ∷ (lil_red_button, rgb true false false)
    ∷ (lil_green_button, rgb false true false)
    ∷ (lil_blue_button, rgb false false true)
    ∷ (lil_yellow_button, rgb true true false)
    ∷ (lil_magenta_button, rgb true false true)
    ∷ (lil_cyan_button, rgb false true true)
    ∷ (lil_white_button, rgb true true true)
    ∷ []

abbrev pub color_of : List (ℕ × Color) → ℕ → Option Color
color_of [] code = none
color_of ((c, color) ∷ cs) code = if code == c then some color else color_of cs code

module _ {B : Type 0} ⦃port : RetinaPort B⦄ where
  -- The LED takes a colour, if there is one.
  abbrev pub show : ℕ → Option Color → B → B
  show rgb_id none b = b
  show rgb_id (some c) b = port.rgb_set_color rgb_id c.red c.green c.blue b

  -- The LED takes the colour of the table's command, and keeps its own on any other code.
  pub process_rgb_code-color :
      (rgb_id code : ℕ) (b : B)
      → process_rgb_code rgb_id code b ≡ show rgb_id (color_of colors code) b
  unfolding process_rgb_code
  process_rgb_code-color id code b = ground arith

  -- In the receiving mode, a code that was received is executed by the next call, and is gone.
  pub code_executed :
      (s t : System B)
      → s.retina.current_state ≡ wait_rx
      → s.rx.code ≢ 0
      → retina_fire s ≡ some t
      → (t.board ≡ show s.retina.rgb_id (color_of colors s.rx.code) s.board)
        × (t.rx.code ≡ 0)
        × (t.rx.is_repetition ≡ false)
        × (t.rx.is_error ≡ false)
        × (t.retina.current_state ≡ wait_rx)
        × (t.button ≡ s.button)
        × (t.tx ≡ s.tx)
  unfolding retina_fire
  code_executed s t q c e = ground (arith, process_rgb_code-color s.retina.rgb_id s.rx.code s.board)

  -- In the receiving mode, a repetition or an error that comes without a code is dropped, and the LED stays as it is.
  uncoded_dropped :
      (s t : System B)
      → s.retina.current_state ≡ wait_rx
      → s.rx.code ≡ 0
      → (s.rx.is_repetition ≡ true) ⊎ (s.rx.is_error ≡ true)
      → retina_fire s ≡ some t
      → (t.board ≡ s.board)
        × (t.rx.code ≡ 0)
        × (t.rx.is_repetition ≡ false)
        × (t.rx.is_error ≡ false)
        × (t.retina ≡ s.retina)
  unfolding retina_fire
  uncoded_dropped s t q z k e = ground arith

  -- In the sending mode, a short press sends the next of the three messages, and the index goes
  -- round.
  pub short_press_sends :
      (s t : System B)
      → IsReady s
      → s.retina.current_state ≡ wait_tx
      → fsm_button_get_duration s.button ≢ 0
      → fsm_button_get_duration s.button < s.retina.long_button_press_ms
      → retina_fire s ≡ some t
      → (t.tx.code ≡ message s.retina.tx_codes_index)
        × (t.retina.tx_codes_index ≡ (s.retina.tx_codes_index + 1) % 3)
        × (fsm_button_get_duration t.button ≡ 0)
        × (t.retina.current_state ≡ wait_tx)
        × (t.board ≡ s.board)
        × (t.rx ≡ s.rx)
  unfolding retina_fire fsm_button_get_duration
  short_press_sends s t r q some_ms short e =
      ground
        (arith, get_elem?-messages s.retina.tx_codes_index, message-ne-zero s.retina.tx_codes_index)

  -- A long press in the sending mode goes to the receiving mode, with the receiver switched on: the
  -- LED takes the colour of the last code that was found.
  pub long_press_receives :
      (s t : System B)
      → s.retina.current_state ≡ wait_tx
      → fsm_button_get_duration s.button ≢ 0
      → s.retina.long_button_press_ms ≤ fsm_button_get_duration s.button
      → retina_fire s ≡ some t
      → (t.retina.current_state ≡ wait_rx)
        × (t.rx.status ≡ true)
        × (fsm_button_get_duration t.button ≡ 0)
        × (t.board ≡ show s.retina.rgb_id (color_of colors s.retina.rx_code) s.board)
  unfolding retina_fire fsm_button_get_duration
  long_press_receives s t q some_ms long e =
      ground (arith, process_rgb_code-color s.retina.rgb_id s.retina.rx_code s.board)

  -- A long press in the receiving mode, with nothing received that is to be handled, goes to the
  -- sending mode, with the receiver and the LED switched off.
  pub long_press_sends :
      (s t : System B)
      → s.retina.current_state ≡ wait_rx
      → s.rx.code ≡ 0
      → s.rx.is_repetition ≡ false
      → s.rx.is_error ≡ false
      → fsm_button_get_duration s.button ≢ 0
      → s.retina.long_button_press_ms ≤ fsm_button_get_duration s.button
      → retina_fire s ≡ some t
      → (t.retina.current_state ≡ wait_tx)
        × (t.rx.status ≡ false)
        × (fsm_button_get_duration t.button ≡ 0)
        × (t.board ≡ port.rgb_set_color s.retina.rgb_id false false false s.board)
  unfolding retina_fire fsm_button_get_duration
  long_press_sends s t q z r x some_ms long e = ground arith
