-- ===== src/Retina/Remote.antt =====
-- What the governing machine of common/src/fsm_retina.c is to its user: a remote control that sends
-- or receives, with no table, no state's number and no other machine's struct.
use transmisor_receptor_ir.Common.{
  ℕ, ℤ, int_eq, ◌+◌, ◌%◌, ◌≡◌, inl, inr, Bool, true, false, not, ◌||◌, Option, some, ◌∷◌, arith,
  ltb, ◌==◌, if◌then◌else◌,
}
use transmisor_receptor_ir.Button.{fsm_button_get_duration}
use transmisor_receptor_ir.Retina.Port.{RetinaPort}
use transmisor_receptor_ir.Retina.{
  System, wait_tx, wait_rx, sleep_tx, sleep_rx, is_active, retina_fire,
}
use transmisor_receptor_ir.Retina.Modes.{IsReady, message, get_elem?-messages}
use transmisor_receptor_ir.Retina.Codes.{colors, color_of, show, process_rgb_code-color}

pub record Remote : Type 0 where
  pub receives : Bool
  pub asleep : Bool
  pub next : ℕ  -- of the three messages
  pub found : ℕ  -- the last code that was received

pub data Press : Type 0 where
  no_press short_press long_press : Press

-- What it sees.
pub record Seen : Type 0 where
  pub press : Press
  pub code : ℕ
  pub dropped : Bool  -- a repetition, or an error
  pub active : Bool

-- What it does.
pub data Act : Type 0 where
  rest doze forget stop_receiving : Act
  send start_receiving show_code : ℕ → Act

-- With nothing to do it sleeps, and wakes for any activity.
abbrev idle : Remote → Bool → Remote × Act
idle r true = (record r { asleep = false }, rest)
idle r false = (record r { asleep = true }, doze)

abbrev react_sending : Remote → Press → Bool → Remote × Act
react_sending r short_press active = (record r { next = (r.next + 1) % 3 }, send (message r.next))
react_sending r long_press active = (record r { receives = true }, start_receiving r.found)
react_sending r no_press active = idle r active

abbrev react_receiving : Remote → Press → Bool → Remote × Act
react_receiving r long_press active = (record r { receives = false }, stop_receiving)
react_receiving r _ active = idle r active

-- What is received comes before a press.
abbrev pub react : Remote → Seen → Remote × Act
react r s =
    if r.asleep
    then idle r s.active
    else if not r.receives
    then react_sending r s.press s.active
    else if not (s.code == 0)
    then (record r { found = s.code }, show_code s.code)
    else if s.dropped
    then (r, forget)
    else react_receiving r s.press s.active

-- What the machine stands for.
abbrev pub remote_of : {B : Type 0} → System B → Remote
remote_of s = record {
  receives = int_eq s.retina.current_state wait_rx || int_eq s.retina.current_state sleep_rx;
  asleep = int_eq s.retina.current_state sleep_tx || int_eq s.retina.current_state sleep_rx;
  next = s.retina.tx_codes_index;
  found = s.retina.rx_code;
}

abbrev pub press_of : ℕ → ℕ → Press
press_of long_ms duration =
    if duration == 0 then no_press else if ltb duration long_ms then short_press else long_press

abbrev pub seen_of : {B : Type 0} → System B → Seen
seen_of s = record {
  press = press_of s.retina.long_button_press_ms (fsm_button_get_duration s.button);
  code = s.rx.code;
  dropped = s.rx.is_repetition || s.rx.is_error;
  active = is_active s;
}

abbrev pub state_of : Remote → ℤ
state_of r =
    if r.asleep
    then (if r.receives then sleep_rx else sleep_tx)
    else if r.receives
    then wait_rx
    else wait_tx

-- The machine that stands for `r`, otherwise as it is.
abbrev pub enter : {B : Type 0} → Remote → System B → System B
enter r s = record s {
  retina = record (s.retina) {
    current_state = state_of r;
    tx_codes_index = r.next;
    rx_code = r.found;
  };
}

abbrev without_press : {B : Type 0} → System B → System B
without_press s = record s { button = record (s.button) { duration = 0 } }

abbrev without_code : {B : Type 0} → System B → System B
without_code s = record s {
  rx = record (s.rx) { code = 0; is_repetition = false; is_error = false };
}

module _ {B : Type 0} ⦃port : RetinaPort B⦄ where
  -- What an act does to the other machines and to the board.
  abbrev pub perform : Act → System B → System B
  perform rest s = s
  perform doze s = record s { board = port.system_sleep s.board }
  perform forget s = without_code s
  perform (send code) s = record (without_press s) {
    tx = record (s.tx) { code = code };
    printed = code ∷ s.printed;
  }
  perform (show_code code) s = record (without_code s) {
    board = show s.retina.rgb_id (color_of colors code) s.board;
  }
  perform (start_receiving found) s = record (without_press s) {
    rx = record (s.rx) { status = true };
    board = show s.retina.rgb_id (color_of colors found) s.board;
  }
  perform stop_receiving s = record (without_press s) {
    rx = record (s.rx) { status = false };
    board = port.rgb_set_color s.retina.rgb_id false false false s.board;
  }

  abbrev reacts : System B → Option (System B)
  reacts s = let (r, act) = react (remote_of s) (seen_of s) in some (enter r (perform act s))

  wait_tx-reacts :
      (s : System B) → IsReady s → s.retina.current_state ≡ wait_tx → retina_fire s ≡ reacts s
  unfolding retina_fire is_active fsm_button_get_duration
  wait_tx-reacts s r q = ground (
    arith,
    get_elem?-messages s.retina.tx_codes_index,
    process_rgb_code-color s.retina.rgb_id s.retina.rx_code s.board,
  )

  wait_rx-reacts : (s : System B) → s.retina.current_state ≡ wait_rx → retina_fire s ≡ reacts s
  unfolding retina_fire is_active fsm_button_get_duration
  wait_rx-reacts s q = ground (arith, process_rgb_code-color s.retina.rgb_id s.rx.code s.board)

  sleep_tx-reacts : (s : System B) → s.retina.current_state ≡ sleep_tx → retina_fire s ≡ reacts s
  unfolding retina_fire is_active fsm_button_get_duration
  sleep_tx-reacts s q = ground arith

  sleep_rx-reacts : (s : System B) → s.retina.current_state ≡ sleep_rx → retina_fire s ≡ reacts s
  unfolding retina_fire is_active fsm_button_get_duration
  sleep_rx-reacts s q = ground arith

  -- A ready machine that is fired does what the remote control does, and stands for what it comes
  -- to: the call returns, and nothing else changes.
  pub retina_fire_refines :
      (s : System B)
      → IsReady s
      → let (r, act) = react (remote_of s) (seen_of s) in
        retina_fire s ≡ some (enter r (perform act s))
  retina_fire_refines s i = elim i.known [
    | inl q ↦ wait_tx-reacts s i q
    | inr (inl q) ↦ wait_rx-reacts s q
    | inr (inr (inl q)) ↦ sleep_tx-reacts s q
    | inr (inr (inr q)) ↦ sleep_rx-reacts s q
  ]
