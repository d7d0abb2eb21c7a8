-- ===== src/Port/Interrupts.antt =====
-- Interrupts between the program's accesses to what the service routines share. A routine runs as
-- a whole.
use transmisor_receptor_ir.Common.{◌+◌, Bool, ◌&&◌, List, [], ◌∷◌, if◌then◌else◌}
use transmisor_receptor_ir.Port.State.{
  Irq, systick, tim1_up, exti15_10, exti9_5, exti15_10_irqn, exti9_5_irqn, tim1_up_tim10_irqn,
  Board, gpiob, gpioc,
}
use transmisor_receptor_ir.Port.Gpio.{put_gpio}
use transmisor_receptor_ir.Port.Power.{sys_tick_handler}
use transmisor_receptor_ir.Port.Handlers.{
  exti15_10_irq_handler, exti9_5_irq_handler, tim1_up_tim10_irq_handler,
}

-- What hardware shows in the registers when an interrupt is taken.
abbrev pub shown : Irq → Board → Board
shown systick b = b
shown tim1_up b = b
shown (exti15_10 pr idr) b =
    put_gpio gpioc (record (b.gpio gpioc) { idr = idr })
      (record b { exti = record (b.exti) { pr = pr } })
shown (exti9_5 pr idr cnt) b =
    put_gpio gpiob (record (b.gpio gpiob) { idr = idr })
      (record b { exti = record (b.exti) { pr = pr }; tim3 = record (b.tim3) { cnt = cnt } })

-- An interrupt that is turned off is not taken.
unfoldable pub is_on : Irq → Board → Bool
is_on systick b = b.tickint
is_on tim1_up b = b.tim1.cen && b.tim1.uie && b.irq_on tim1_up_tim10_irqn
is_on (exti15_10 pr idr) b = b.irq_on exti15_10_irqn
is_on (exti9_5 pr idr cnt) b = b.irq_on exti9_5_irqn

abbrev handler : Irq → Board → Board
handler systick = sys_tick_handler
handler tim1_up = tim1_up_tim10_irq_handler
handler (exti15_10 pr idr) = exti15_10_irq_handler
handler (exti9_5 pr idr cnt) = exti9_5_irq_handler

unfoldable pub serve : Irq → Board → Board
unfolding is_on sys_tick_handler exti15_10_irq_handler exti9_5_irq_handler tim1_up_tim10_irq_handler
serve i b = if is_on i b then handler i (shown i b) else b

unfoldable pub serve_all : List Irq → Board → Board
serve_all [] b = b
serve_all (i ∷ is) b = serve_all is (serve i b)

-- The interrupts that arrive before the next access are served.
unfoldable pub poll : Board → Board
unfolding serve_all
poll b = serve_all (b.arrivals b.accesses) (record b { accesses = b.accesses + 1 })
