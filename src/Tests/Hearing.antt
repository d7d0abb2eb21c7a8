-- ===== src/Tests/Hearing.antt =====
-- The receiver of a program that runs.
use transmisor_receptor_ir.Common.{◌≡◌, some, arith}
use transmisor_receptor_ir.Retina.{System}
use transmisor_receptor_ir.Main.Board.{IsGoingOn, main_start, main_loop, main_runs}
use transmisor_receptor_ir.Main.Hearing.{IsTuned, main_loop-IsTuned}
use transmisor_receptor_ir.Port.State.{Board}
use transmisor_receptor_ir.Tests.Boards.{busy}
use transmisor_receptor_ir.Tests.System.{cmsis, cmsis-IsDocumented}
use transmisor_receptor_ir.Tests.Main.{parsers, memory, memory-IsAllocated, busy-IsStart}

after :
    (s : System Board) × (t : System Board) × (main_start (λ n. 0) 1 cmsis 3571 parsers memory busy
      ≡ some s)
    × (main_loop (λ n. 0) 1 cmsis 3571 parsers 7 s ≡ some t)
    × IsGoingOn (λ n. 0) 1 t
after =
    main_runs (λ n. 0) 1 cmsis 3571 parsers memory busy 7 cmsis-IsDocumented (omega arith)
      (λ k e. absurd (ground arith)) memory-IsAllocated busy-IsStart

main_loop-IsTuned_example : IsTuned after.1
main_loop-IsTuned_example =
    main_loop-IsTuned (λ n. 0) 1 cmsis 3571 parsers memory busy 7 after.0 after.1 after.2 after.3
