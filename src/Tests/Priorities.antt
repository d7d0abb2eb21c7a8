-- ===== src/Tests/Priorities.antt =====
-- The interrupts of a program that has started.
use transmisor_receptor_ir.Common.{◌≡◌, some, arith}
use transmisor_receptor_ir.Retina.{System}
use transmisor_receptor_ir.Main.Board.{main_start, main_runs}
use transmisor_receptor_ir.Main.Priorities.{start_priorities}
use transmisor_receptor_ir.Port.State.{
  Board, exti15_10_irqn, exti9_5_irqn, tim1_up_tim10_irqn, systick_irqn, plain, encoded,
}
use transmisor_receptor_ir.Port.System.{nvic_priority_group_4}
use transmisor_receptor_ir.Tests.Boards.{busy}
use transmisor_receptor_ir.Tests.System.{cmsis, cmsis-IsDocumented}
use transmisor_receptor_ir.Tests.Main.{parsers, memory, memory-IsAllocated, busy-IsStart}

begun : (s : System Board) × (main_start (λ n. 0) 1 cmsis 3571 parsers memory busy ≡ some s)
begun =
    let (s, t, e, _, _) =
      main_runs (λ n. 0) 1 cmsis 3571 parsers memory busy 0 cmsis-IsDocumented (omega arith)
        (λ k e. absurd (ground arith)) memory-IsAllocated busy-IsStart in
    (s, e)

start_priorities_example :
    (begun.0.board.priority exti15_10_irqn ≡ encoded nvic_priority_group_4 1 0)
    × (begun.0.board.priority tim1_up_tim10_irqn ≡ encoded nvic_priority_group_4 1 0)
    × (begun.0.board.priority exti9_5_irqn ≡ encoded nvic_priority_group_4 2 0)
    × (begun.0.board.priority systick_irqn ≡ plain 15)
start_priorities_example =
    start_priorities (λ n. 0) 1 cmsis 3571 parsers memory busy begun.0 cmsis-IsDocumented begun.1
