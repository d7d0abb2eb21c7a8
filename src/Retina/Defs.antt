-- ===== src/Retina/Defs.antt =====
-- The state and the functions of the governing machine (common/src/fsm_retina.c).
use transmisor_receptor_ir.Common.{
  ℕ, ◌+◌, refl, Bool, true, false, not, ◌&&◌, ◌||◌, Option, some, List, ◌∷◌, ℤ, pos, ltb, leb, ◌==◌,
  if◌then◌else◌, ◌>>=◌, get_elem?, u8,
}
use transmisor_receptor_ir.Fsm.{Machine}
use transmisor_receptor_ir.Button.{
  FsmButton, fsm_button_get_duration, fsm_button_reset_duration, fsm_button_check_activity,
}
use transmisor_receptor_ir.Tx.{FsmTx, fsm_tx_set_code, fsm_tx_check_activity}
use transmisor_receptor_ir.Rx.{
  FsmRx, fsm_rx_get_code, fsm_rx_get_repetition, fsm_rx_get_error_code, fsm_rx_set_rx_status,
  fsm_rx_reset_code, fsm_rx_check_activity,
}
use transmisor_receptor_ir.Retina.Port.{RetinaPort}

-- commands.h
abbrev pub lil_off_button : ℕ
lil_off_button = 16203967

abbrev pub lil_red_button : ℕ
lil_red_button = 0x00f720df

abbrev pub lil_green_button : ℕ
lil_green_button = 0x00f7a05f

abbrev pub lil_blue_button : ℕ
lil_blue_button = 0x00f7609f

abbrev pub lil_white_button : ℕ
lil_white_button = 16244767

abbrev pub lil_yellow_button : ℕ
lil_yellow_button = 16197847

abbrev pub lil_cyan_button : ℕ
lil_cyan_button = 16232527

abbrev pub lil_magenta_button : ℕ
lil_magenta_button = 16214167

-- `fsm_retina_t`; the first member is the `fsm_t`. The machines that its pointers lead to are the
-- other fields of `System`.
pub record FsmRetina : Type 0 where
  pub current_state : ℤ
  pub long_button_press_ms : ℕ  -- uint32_t
  pub tx_codes_arr : List ℕ  -- uint32_t
  pub tx_codes_index : ℕ  -- uint8_t
  pub rx_code : ℕ  -- uint32_t
  pub rgb_id : ℕ  -- uint8_t

-- All machines and the board, and what was printed, the newest first.
pub record System (B : Type 0) : Type 0 where
  pub button : FsmButton
  pub tx : FsmTx
  pub rx : FsmRx
  pub retina : FsmRetina
  pub board : B
  pub mallocs : ℕ
  pub frees : ℕ
  pub printed : List ℕ

instance abbrev pub retina_machine : {B : Type 0} → Machine (System B)
retina_machine = record {
  current_state = λ s. s.retina.current_state;
  set_state = λ q s. record s { retina = record (s.retina) { current_state = q } };
  current-set = λ q s. refl;
}

-- The enumeration of the states.
abbrev pub wait_tx : ℤ
wait_tx = pos 0

abbrev pub wait_rx : ℤ
wait_rx = pos 1

abbrev pub sleep_tx : ℤ
sleep_tx = pos 2

abbrev pub sleep_rx : ℤ
sleep_rx = pos 3

-- State machine input functions.

unfoldable pub check_short_pressed : {B : Type 0} → System B → Option Bool
unfolding fsm_button_get_duration
check_short_pressed s =
    let duration = fsm_button_get_duration s.button in
    some (ltb 0 duration && ltb duration s.retina.long_button_press_ms)

unfoldable pub check_long_pressed : {B : Type 0} → System B → Option Bool
unfolding fsm_button_get_duration
check_long_pressed s =
    let duration = fsm_button_get_duration s.button in
    some (not (duration == 0) && leb s.retina.long_button_press_ms duration)

-- This one stores the code that it finds.
unfoldable pub check_code : {B : Type 0} → System B → Option (Bool × System B)
unfolding fsm_rx_get_code
check_code s =
    if fsm_rx_get_code s.rx == 0
    then some (false, s)
    else some (true, record s { retina = record (s.retina) { rx_code = fsm_rx_get_code s.rx } })

unfoldable pub check_repetition : {B : Type 0} → System B → Option Bool
unfolding fsm_rx_get_repetition
check_repetition s = some (fsm_rx_get_repetition s.rx)

unfoldable pub check_error : {B : Type 0} → System B → Option Bool
unfolding fsm_rx_get_error_code
check_error s = some (fsm_rx_get_error_code s.rx)

unfoldable pub is_active : {B : Type 0} → System B → Bool
unfolding fsm_button_check_activity fsm_tx_check_activity fsm_rx_check_activity
is_active s =
    fsm_button_check_activity s.button || fsm_tx_check_activity s.tx || fsm_rx_check_activity s.rx

unfoldable pub check_activity : {B : Type 0} → System B → Option Bool
check_activity s = some (is_active s)

unfoldable pub check_no_activity : {B : Type 0} → System B → Option Bool
check_no_activity s = some (not (is_active s))

-- State machine output functions.

-- The index is a `uint8_t`; an index outside the array is a fault.
unfoldable pub do_send_next_msg : {B : Type 0} → System B → Option (System B)
unfolding fsm_tx_set_code fsm_button_reset_duration
do_send_next_msg s = do
  code ← get_elem? s.retina.tx_codes_arr s.retina.tx_codes_index
  some (record s {
    tx = fsm_tx_set_code s.tx code;
    button = fsm_button_reset_duration s.button;
    printed = code ∷ s.printed;
    retina = record (s.retina) {
      tx_codes_index =
          if ltb s.retina.tx_codes_index 2 then u8 (s.retina.tx_codes_index + 1) else 0;
    };
  })

unfoldable pub do_execute_repetition : {B : Type 0} → System B → Option (System B)
unfolding fsm_rx_reset_code
do_execute_repetition s = some (record s { rx = fsm_rx_reset_code s.rx })

unfoldable pub do_discard_rx_and_reset : {B : Type 0} → System B → Option (System B)
unfolding fsm_rx_reset_code
do_discard_rx_and_reset s = some (record s { rx = fsm_rx_reset_code s.rx })

module _ {B : Type 0} ⦃port : RetinaPort B⦄ where
  unfoldable pub process_rgb_code : ℕ → ℕ → B → B
  process_rgb_code rgb_id code b =
      if code == lil_red_button
      then port.rgb_set_color rgb_id true false false b
      else if code == lil_green_button
      then port.rgb_set_color rgb_id false true false b
      else if code == lil_blue_button
      then port.rgb_set_color rgb_id false false true b
      else if code == lil_cyan_button
      then port.rgb_set_color rgb_id false true true b
      else if code == lil_magenta_button
      then port.rgb_set_color rgb_id true false true b
      else if code == lil_yellow_button
      then port.rgb_set_color rgb_id true true false b
      else if code == lil_white_button
      then port.rgb_set_color rgb_id true true true b
      else if code == lil_off_button
      then port.rgb_set_color rgb_id false false false b
      else b

  unfoldable pub do_execute_code : System B → Option (System B)
  unfolding fsm_rx_reset_code
  do_execute_code s = some (record s {
    board = process_rgb_code s.retina.rgb_id s.retina.rx_code s.board;
    rx = fsm_rx_reset_code s.rx;
  })

  unfoldable pub do_tx_off_rx_on : System B → Option (System B)
  unfolding fsm_rx_set_rx_status fsm_button_reset_duration
  do_tx_off_rx_on s = some (record s {
    rx = fsm_rx_set_rx_status s.rx true;
    board = process_rgb_code s.retina.rgb_id s.retina.rx_code s.board;
    button = fsm_button_reset_duration s.button;
  })

  unfoldable pub do_rx_off_tx_on : System B → Option (System B)
  unfolding fsm_rx_set_rx_status fsm_button_reset_duration
  do_rx_off_tx_on s = some (record s {
    rx = fsm_rx_set_rx_status s.rx false;
    board = port.rgb_set_color s.retina.rgb_id false false false s.board;
    button = fsm_button_reset_duration s.button;
  })

  unfoldable pub do_sleep : System B → Option (System B)
  do_sleep s = some (record s { board = port.system_sleep s.board })
