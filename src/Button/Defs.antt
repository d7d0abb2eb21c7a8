-- ===== src/Button/Defs.antt =====
-- The state, the functions and the table of the button's machine (common/src/fsm_button.c).
use transmisor_receptor_ir.Common.{
  ℕ, ◌+◌, refl, Bool, true, false, not, Option, none, some, List, [], ◌∷◌, ℤ, pos, ltb, int_eq,
  if◌then◌else◌, ◌>>=◌, sub32, u32,
}
use transmisor_receptor_ir.Fsm.{FsmTrans, Machine, null_trans, fsm_fire, fsm_init}
use transmisor_receptor_ir.Button.Port.{ButtonPort}

-- `fsm_button_t`; the first member is the `fsm_t`.
pub record FsmButton : Type 0 where
  pub current_state : ℤ
  pub debounce_time : ℕ  -- uint32_t, as all below
  pub next_timeout : ℕ
  pub tick_pressed : ℕ
  pub duration : ℕ
  pub button_id : ℕ

-- The machine with the board that it runs on.
pub record ButtonOn (B : Type 0) : Type 0 where
  pub fsm : FsmButton
  pub board : B

instance abbrev pub button_machine : {B : Type 0} → Machine (ButtonOn B)
button_machine = record {
  current_state = λ s. s.fsm.current_state;
  set_state = λ q s. record s { fsm = record (s.fsm) { current_state = q } };
  current-set = λ q s. refl;
}

abbrev pub button_released : ℤ
button_released = pos 0

abbrev pub button_released_wait : ℤ
button_released_wait = pos 1

abbrev pub button_pressed : ℤ
button_pressed = pos 2

abbrev pub button_pressed_wait : ℤ
button_pressed_wait = pos 3

unfoldable pub fsm_button_get_duration : FsmButton → ℕ
fsm_button_get_duration p_fsm = p_fsm.duration

unfoldable pub fsm_button_reset_duration : FsmButton → FsmButton
fsm_button_reset_duration p_fsm = record p_fsm { duration = 0 }

unfoldable pub fsm_button_check_activity : FsmButton → Bool
fsm_button_check_activity p_fsm = if int_eq p_fsm.current_state button_released then false else true

module _ {B : Type 0} ⦃port : ButtonPort B⦄ where
  unfoldable pub check_button_pressed : ButtonOn B → Option (Bool × ButtonOn B)
  check_button_pressed s =
      let (pressed, b) = port.is_pressed s.fsm.button_id s.board in
      some (pressed, record s { board = b })

  unfoldable pub check_button_released : ButtonOn B → Option (Bool × ButtonOn B)
  check_button_released s =
      let (pressed, b) = port.is_pressed s.fsm.button_id s.board in
      some (not pressed, record s { board = b })

  unfoldable pub check_timeout : ButtonOn B → Option (Bool × ButtonOn B)
  check_timeout s =
      let (tick, b) = port.get_tick s.board in
      some (ltb s.fsm.next_timeout tick, record s { board = b })

  -- The tick is read twice, and may have moved on at the second time.
  unfoldable pub do_store_tick_pressed : ButtonOn B → Option (ButtonOn B)
  do_store_tick_pressed s =
      let (tick, b) = port.get_tick s.board in
      let (tick', b') = port.get_tick b in
      some (record {
        fsm = record (s.fsm) {
          tick_pressed = tick;
          next_timeout = u32 (tick' + s.fsm.debounce_time);
        };
        board = b';
      })

  unfoldable pub do_set_duration : ButtonOn B → Option (ButtonOn B)
  do_set_duration s =
      let (tick, b) = port.get_tick s.board in
      let (tick', b') = port.get_tick b in
      some (record {
        fsm = record (s.fsm) {
          duration = sub32 tick s.fsm.tick_pressed;
          next_timeout = u32 (tick' + s.fsm.debounce_time);
        };
        board = b';
      })

  unfoldable pub fsm_trans_button : List (FsmTrans (ButtonOn B))
  unfolding check_button_pressed check_button_released check_timeout do_store_tick_pressed
      do_set_duration
  fsm_trans_button =
      record {
        orig_state = button_released;
        input = some check_button_pressed;
        dest_state = button_released_wait;
        out = some do_store_tick_pressed;
      }
      ∷ record {
        orig_state = button_released_wait;
        input = some check_timeout;
        dest_state = button_pressed;
        out = none;
      }
      ∷ record {
        orig_state = button_pressed;
        input = some check_button_released;
        dest_state = button_pressed_wait;
        out = some do_set_duration;
      }
      ∷ record {
        orig_state = button_pressed_wait;
        input = some check_timeout;
        dest_state = button_released;
        out = none;
      }
      ∷ null_trans
      ∷ []

  -- `fsm_fire` on the button's machine.
  unfoldable pub button_fire : ButtonOn B → Option (ButtonOn B)
  unfolding fsm_fire fsm_trans_button
  button_fire = fsm_fire fsm_trans_button

  -- The member `next_timeout` keeps what the memory held.
  unfoldable pub fsm_button_init : ℕ → ℕ → ButtonOn B → Option (ButtonOn B)
  unfolding fsm_init fsm_trans_button
  fsm_button_init debounce_time button_id p_this = do
    s ← fsm_init (some fsm_trans_button) p_this
    some (record {
      fsm = record (s.fsm) {
        debounce_time = debounce_time;
        button_id = button_id;
        tick_pressed = 0;
        duration = 0;
      };
      board = port.init button_id s.board;
    })

  -- `memory` is what `malloc` gives; NULL is written through without a test.
  unfoldable pub fsm_button_new : Option FsmButton → ℕ → ℕ → B → Option (ButtonOn B)
  unfolding fsm_button_init
  fsm_button_new memory debounce_time button_id b = memory >>= λ p_fsm.
      fsm_button_init debounce_time button_id (record { fsm = p_fsm; board = b })
