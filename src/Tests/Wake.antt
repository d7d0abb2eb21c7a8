-- ===== src/Tests/Wake.antt =====
-- A program asleep, and a press.
use transmisor_receptor_ir.Common.{
  ℕ, ◌≡◌, ◌⊎◌, ◌==◌, if◌then◌else◌, refl, inl, inr, some, false, true, List, [], ◌∷◌, arith, bit_at,
  Bool-cases,
}
use transmisor_receptor_ir.Button.{button_released_wait}
use transmisor_receptor_ir.Retina.{System, wait_tx, wait_rx, sleep_tx, sleep_rx}
use transmisor_receptor_ir.Main.{main_round}
use transmisor_receptor_ir.Main.Board.{IsGoingOn}
use transmisor_receptor_ir.Main.Wake.{IsPressedNext, press_wakes}
use transmisor_receptor_ir.Port.State.{Board, Irq, tim1_up, systick, exti15_10}
use transmisor_receptor_ir.Port.Asleep.{port_system_sleep-Stands}
use transmisor_receptor_ir.Port.Sleep.{port_system_sleep}
use transmisor_receptor_ir.Port.ForTx.{IsPaced, board_tx}
use transmisor_receptor_ir.Port.ForRetina.{board_retina}
use transmisor_receptor_ir.Port.ForMain.{paced_button, paced_rx}
use transmisor_receptor_ir.Tests.Boards.{busy}
use transmisor_receptor_ir.Tests.Main.{parsers, pressed, pressed-IsGoing}

-- The press comes first, and then an interrupt of the symbol timer before each access.
abbrev press_first : ℕ → List Irq
press_first n = if n == 0 then exti15_10 0x2000 0 ∷ [] else tim1_up ∷ systick ∷ []

abbrev until : ℕ → ℕ
until n = if n == 0 then 1 else 0

press_first-IsPaced : IsPaced until 2 press_first
press_first-IsPaced = record {
  bounded = λ n. ground arith;
  next = λ n. elim (Bool-cases (n == 0)) [
    | inl first ↦ inr (ground arith)
    | inr later ↦ inl (ground arith)
  ];
}

abbrev pressed_board : Board
pressed_board = record busy { arrivals = press_first }

abbrev asleep : System Board
asleep = record pressed {
  button = record (pressed.button) { duration = 0 };
  retina = record (pressed.retina) { current_state = sleep_tx };
  board = pressed_board;
}

asleep-IsGoing : IsGoingOn until 2 asleep
asleep-IsGoing = record {
  sound = record {
    ready = record {
      known = inr (inr (inl refl));
      codes = refl;
      index = omega arith;
      receiving = λ z. refl;
    };
    owned = record {
      known = pressed-IsGoing.sound.owned.known;
      off = pressed-IsGoing.sound.owned.off;
      idle = pressed-IsGoing.sound.owned.idle;
      wait = pressed-IsGoing.sound.owned.wait;
      balance = refl;
    };
  };
  on_board = record {
    valid = record { clock = refl; symbol_clock = refl; buffer = refl; index = omega arith };
    uie = refl;
    irq = refl;
    paced = press_first-IsPaced;
  };
  waiting = pressed-IsGoing.waiting;
}

asleep-IsPressedNext : IsPressedNext asleep.board
unfolding bit_at
asleep-IsPressedNext = record {
  pr = 0x2000;
  idr = 0;
  arrives = refl;
  on = refl;
  pending = refl;
  low = refl;
}

press_wakes_example :
    (t : System Board) × (main_round ⦃button_port = paced_button until 2⦄
        ⦃tx_port = board_tx until 2⦄ ⦃rx_port = paced_rx until 2⦄ ⦃retina_port = board_retina⦄ 7142
        parsers asleep
      ≡ some t)
    × (t.button.current_state ≡ button_released_wait)
    × ((sleep_tx ≡ sleep_tx) × (t.retina.current_state ≡ wait_tx)
        ⊎ (sleep_tx ≡ sleep_rx) × (t.retina.current_state ≡ wait_rx))
press_wakes_example =
    press_wakes until 2 7142 parsers asleep (omega arith) (λ k e. absurd (ground arith))
      asleep-IsGoing (inl refl) refl asleep-IsPressedNext

port_system_sleep-Stands_example :
    ((port_system_sleep pressed_board).tickint ≡ true)
    × ((true ≡ true) ⊎ ((port_system_sleep pressed_board).ms_ticks ≡ 0))
    × ((port_system_sleep pressed_board).sleepdeep ≡ false)
port_system_sleep-Stands_example = port_system_sleep-Stands pressed_board
