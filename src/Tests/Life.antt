-- ===== src/Tests/Life.antt =====
-- The life of a program.
use transmisor_receptor_ir.Common.{◌≡◌, ◌⊎◌, some, true, length, arith}
use transmisor_receptor_ir.Retina.{System}
use transmisor_receptor_ir.Retina.Codes.{Color}
use transmisor_receptor_ir.Retina.Remote.{remote_of}
use transmisor_receptor_ir.Retina.Life.{Life, cycle, off}
use transmisor_receptor_ir.Main.Board.{IsGoingOn, main_start, main_loop, main_runs}
use transmisor_receptor_ir.Main.Lit.{IsLit}
use transmisor_receptor_ir.Main.Life.{main_loop_refines, main_loop_cycles}
use transmisor_receptor_ir.Port.State.{Board}
use transmisor_receptor_ir.Tests.Boards.{busy}
use transmisor_receptor_ir.Tests.System.{cmsis, cmsis-IsDocumented}
use transmisor_receptor_ir.Tests.Main.{parsers, memory, memory-IsAllocated, busy-IsStart}

run :
    (s : System Board) × (t : System Board) × (main_start (λ n. 0) 1 cmsis 3571 parsers memory busy
      ≡ some s)
    × (main_loop (λ n. 0) 1 cmsis 3571 parsers 90 s ≡ some t)
    × IsGoingOn (λ n. 0) 1 t
run =
    main_runs (λ n. 0) 1 cmsis 3571 parsers memory busy 90 cmsis-IsDocumented (omega arith)
      (λ k e. absurd (ground arith)) memory-IsAllocated busy-IsStart

main_loop_refines_example :
    (c : Color) × Life 90 (remote_of run.1) c run.1.printed × IsLit c run.1.board
main_loop_refines_example =
    main_loop_refines (λ n. 0) 1 cmsis 3571 parsers memory busy 90 run.0 run.1 memory-IsAllocated
      run.2 run.3

main_loop_cycles_example :
    (run.1.printed ≡ cycle (length run.1.printed))
    × (((remote_of run.1).receives ≡ true) ⊎ IsLit off run.1.board)
main_loop_cycles_example =
    main_loop_cycles (λ n. 0) 1 cmsis 3571 parsers memory busy 90 run.0 run.1 memory-IsAllocated
      run.2 run.3
