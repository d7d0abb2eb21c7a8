-- ===== src/Retina/Table.antt =====
-- The table and the initialisation of the governing machine (common/src/fsm_retina.c).
use transmisor_receptor_ir.Common.{ℕ, Option, none, some, List, [], ◌∷◌, ◌>>=◌}
use transmisor_receptor_ir.Fsm.{FsmTrans, reads, null_trans, fsm_fire, fsm_init}
use transmisor_receptor_ir.Button.{FsmButton}
use transmisor_receptor_ir.Tx.{FsmTx}
use transmisor_receptor_ir.Rx.{RxOn}
use transmisor_receptor_ir.Retina.Port.{RetinaPort}
use transmisor_receptor_ir.Retina.Defs.{
  System, FsmRetina, retina_machine, wait_tx, wait_rx, sleep_tx, sleep_rx, check_short_pressed,
  check_long_pressed, check_code, check_repetition, check_error, check_activity, check_no_activity,
  do_send_next_msg, do_execute_repetition, do_discard_rx_and_reset, do_execute_code,
  do_tx_off_rx_on, do_rx_off_tx_on, do_sleep, lil_red_button, lil_green_button, lil_blue_button,
}

module _ {B : Type 0} ⦃port : RetinaPort B⦄ where
  unfoldable pub fsm_trans_retina : List (FsmTrans (System B))
  unfolding check_short_pressed check_long_pressed check_code check_repetition check_error
      check_activity check_no_activity do_send_next_msg do_execute_repetition
      do_discard_rx_and_reset do_execute_code do_tx_off_rx_on do_rx_off_tx_on do_sleep
  fsm_trans_retina =
      record {
        orig_state = wait_tx;
        input = reads check_short_pressed;
        dest_state = wait_tx;
        out = some do_send_next_msg;
      }
      ∷ record {
        orig_state = wait_tx;
        input = reads check_long_pressed;
        dest_state = wait_rx;
        out = some do_tx_off_rx_on;
      }
      ∷ record {
        orig_state = wait_tx;
        input = reads check_no_activity;
        dest_state = sleep_tx;
        out = some do_sleep;
      }
      ∷ record {
        orig_state = sleep_tx;
        input = reads check_no_activity;
        dest_state = sleep_tx;
        out = some do_sleep;
      }
      ∷ record {
        orig_state = sleep_tx;
        input = reads check_activity;
        dest_state = wait_tx;
        out = none;
      }
      ∷ record {
        orig_state = wait_rx;
        input = some check_code;
        dest_state = wait_rx;
        out = some do_execute_code;
      }
      ∷ record {
        orig_state = wait_rx;
        input = reads check_repetition;
        dest_state = wait_rx;
        out = some do_execute_repetition;
      }
      ∷ record {
        orig_state = wait_rx;
        input = reads check_error;
        dest_state = wait_rx;
        out = some do_discard_rx_and_reset;
      }
      ∷ record {
        orig_state = wait_rx;
        input = reads check_long_pressed;
        dest_state = wait_tx;
        out = some do_rx_off_tx_on;
      }
      ∷ record {
        orig_state = wait_rx;
        input = reads check_no_activity;
        dest_state = sleep_rx;
        out = some do_sleep;
      }
      ∷ record {
        orig_state = sleep_rx;
        input = reads check_no_activity;
        dest_state = sleep_rx;
        out = some do_sleep;
      }
      ∷ record {
        orig_state = sleep_rx;
        input = reads check_activity;
        dest_state = wait_rx;
        out = none;
      }
      ∷ null_trans
      ∷ []

  -- `fsm_fire` on the governing machine.
  unfoldable pub retina_fire : System B → Option (System B)
  unfolding fsm_fire fsm_trans_retina
  retina_fire = fsm_fire fsm_trans_retina

  unfoldable pub fsm_retina_init : ℕ → ℕ → System B → Option (System B)
  unfolding fsm_init fsm_trans_retina
  fsm_retina_init button_press_time rgb_id p_this = do
    s ← fsm_init (some fsm_trans_retina) p_this
    some (record s {
      retina = record (s.retina) {
        long_button_press_ms = button_press_time;
        tx_codes_index = 0;
        tx_codes_arr = lil_red_button ∷ lil_green_button ∷ lil_blue_button ∷ [];
        rx_code = 0;
        rgb_id = rgb_id;
      };
      board = port.rgb_init rgb_id s.board;
    })

  -- `memory` is what `malloc` gives; NULL is written through without a test. The pointers to the
  -- other machines are kept: they lead to these states.
  unfoldable pub fsm_retina_new :
      Option FsmRetina → FsmButton → ℕ → FsmTx → RxOn B → ℕ → Option (System B)
  unfolding fsm_retina_init
  fsm_retina_new memory button button_press_time tx rx rgb_id = memory >>= λ p_fsm.
      fsm_retina_init button_press_time rgb_id (record {
        button = button;
        tx = tx;
        rx = rx.fsm;
        retina = p_fsm;
        board = rx.board;
        mallocs = rx.mallocs;
        frees = rx.frees;
        printed = [];
      })
