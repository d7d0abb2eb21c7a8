-- ===== src/Tests/Retina.antt =====
-- The governing machine of common/src/fsm_retina.c on the board.
use transmisor_receptor_ir.Common.{ℕ, ◌≡◌, inl, inr, refl, true, false, some, [], arith, pos, ℤ}
use transmisor_receptor_ir.Button.{button_released, fsm_button_get_duration}
use transmisor_receptor_ir.Rx.{idle_rx}
use transmisor_receptor_ir.Retina.{
  System, wait_tx, wait_rx, is_active, retina_fire, lil_red_button, lil_cyan_button,
}
use transmisor_receptor_ir.Retina.Modes.{messages, IsReady, retina_fire_total}
use transmisor_receptor_ir.Retina.Remote.{retina_fire_refines}
use transmisor_receptor_ir.Port.State.{Board}
use transmisor_receptor_ir.Port.Rgb.{port_rgb_set_color}
use transmisor_receptor_ir.Port.ForRetina.{board_retina}
use transmisor_receptor_ir.Tests.Boards.{rest_at}
use transmisor_receptor_ir.Tests.Nec.{some_parser}

-- A system in a state of the governing machine, where the button has a duration to report and the
-- receiver has a code.
abbrev system_in : ℤ → ℕ → ℕ → System Board
system_in q duration code = record {
  button = record {
    current_state = button_released;
    debounce_time = 150;
    next_timeout = 0;
    tick_pressed = 0;
    duration = duration;
    button_id = 0;
  };
  tx = record { current_state = pos 0; code = 0; tx_id = 0 };
  rx = record {
    current_state = idle_rx;
    p_fsm_rx_nec = some some_parser;
    message_timeout_ms = 10;
    last_tick = 0;
    num_edges_detected = 0;
    code = code;
    is_repetition = false;
    is_error = false;
    status = true;
    rx_id = 0;
  };
  retina = record {
    current_state = q;
    long_button_press_ms = 1000;
    tx_codes_arr = messages;
    tx_codes_index = 1;
    rx_code = lil_red_button;
    rgb_id = 0;
  };
  board = rest_at 5 [];
  mallocs = 1;
  frees = 0;
  printed = [];
}

tx-IsReady : (duration code : ℕ) → IsReady (system_in wait_tx duration code)
tx-IsReady duration code = record {
  known = inl refl;
  codes = refl;
  index = omega arith;
  receiving = λ h. refl;
}

rx-IsReady : (duration code : ℕ) → IsReady (system_in wait_rx duration code)
rx-IsReady duration code = record {
  known = inr (inl refl);
  codes = refl;
  index = omega arith;
  receiving = λ h. refl;
}

-- A short press in the mode that sends.
abbrev short : System Board
short = system_in wait_tx 300 0

sent : (t : System Board) × (retina_fire short ≡ some t)
sent = retina_fire_total short (tx-IsReady 300 0)

-- A code has come.
abbrev coded : System Board
coded = system_in wait_rx 0 lil_cyan_button

retina_fire_refines_example :
    retina_fire coded
    ≡ some (record coded {
      rx = record (coded.rx) { code = 0 };
      retina = record (coded.retina) { rx_code = lil_cyan_button };
      board = port_rgb_set_color 0 false true true (rest_at 5 []);
    })
unfolding fsm_button_get_duration is_active
retina_fire_refines_example = retina_fire_refines coded (rx-IsReady 0 lil_cyan_button)
