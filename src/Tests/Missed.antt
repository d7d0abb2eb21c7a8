-- ===== src/Tests/Missed.antt =====
-- A program that misses a press.
use transmisor_receptor_ir.Common.{
  ℕ, ◌==◌, ◌≡◌, refl, inl, List, [], ◌∷◌, true, false, if◌then◌else◌, some, arith, bit_at,
}
use transmisor_receptor_ir.Retina.{System}
use transmisor_receptor_ir.Retina.Modes.{IsReady, IsAsleep}
use transmisor_receptor_ir.Main.Board.{board_round}
use transmisor_receptor_ir.Main.Missed.{IsIdle, IsPressedLate, press_missed}
use transmisor_receptor_ir.Port.State.{Irq, Board, exti15_10}
use transmisor_receptor_ir.Port.Interrupts.{poll}
use transmisor_receptor_ir.Tests.Boards.{busy}
use transmisor_receptor_ir.Tests.Main.{parsers, pressed, pressed-IsGoing}

-- The press before the second access, and the release before the third.
abbrev late : ℕ → List Irq
late n =
    if n == 1 then exti15_10 0x2000 0 ∷ [] else if n == 2 then exti15_10 0x2000 0x2000 ∷ [] else []

abbrev resting : System Board
resting = record pressed {
  button = record (pressed.button) { duration = 0 };
  board = record busy { arrivals = late };
}

resting-IsIdle : IsIdle resting
resting-IsIdle = record {
  button = refl;
  duration = refl;
  sent = refl;
  waiting = pressed-IsGoing.waiting;
  receiver = refl;
  status = refl;
  code = refl;
  repetition = refl;
  error = refl;
}

resting-IsReady : IsReady resting
resting-IsReady = record {
  known = inl refl;
  codes = refl;
  index = omega arith;
  receiving = λ z. refl;
}

resting-IsPressedLate : IsPressedLate resting.board
unfolding bit_at
resting-IsPressedLate = record {
  pr = 0x2000;
  idr = 0;
  pr' = 0x2000;
  idr' = 0x2000;
  quiet = refl;
  press = refl;
  release = refl;
  on = refl;
  up = refl;
  pending = refl;
  low = refl;
  pending' = refl;
  high = refl;
}

press_missed_example :
    (t : System Board) × (board_round (λ n. 0) 1 3571 parsers resting ≡ some t)
    × IsAsleep t
    × (t.button ≡ resting.button)
    × ((poll (poll resting.board)).flag_pressed ≡ true)
    × (t.board.flag_pressed ≡ false)
press_missed_example =
    press_missed (λ n. 0) 1 3571 parsers resting resting-IsReady resting-IsIdle refl
      resting-IsPressedLate
