-- ===== src/Tests/Port.antt =====
-- The board of port/nucleo_stm32f446re/src.
use transmisor_receptor_ir.Common.{◌≡◌, refl, false, List, [], ◌∷◌, arith, field, shl32, bit_at}
use transmisor_receptor_ir.Port.State.{Irq, systick, exti9_5, Board, Exti, gpiob, gpioc}
use transmisor_receptor_ir.Port.Handlers.{
  button_0_pin, ir_rx_0_pin, exti15_10_irq_handler, exti9_5_irq_handler,
}
use transmisor_receptor_ir.Port.Interrupts.{serve_all}
use transmisor_receptor_ir.Port.Gpio.{exti_mode}
use transmisor_receptor_ir.Port.Valid.{IsValid}
use transmisor_receptor_ir.Port.Button.{port_button_init}
use transmisor_receptor_ir.Port.Rx.{port_rx_init}
use transmisor_receptor_ir.Port.Tx.{port_tx_init}
use transmisor_receptor_ir.Port.Pins.{line_of, exti_mode-lines}
use transmisor_receptor_ir.Port.Inputs.{IsArmed, inputs-IsArmed}
use transmisor_receptor_ir.Port.Pending.{cleared, irq_handlers-cleared}
use transmisor_receptor_ir.Port.Edges.{captured, replay, IsOn, serve_all_refines}
use transmisor_receptor_ir.Port.Timers.{IsSetUp, port_tx_init-IsSetUp}
use transmisor_receptor_ir.Tests.Boards.{rest_at}

-- Edges of the receiver's pin, with other interrupts between them.
abbrev edges : List Irq
edges = exti9_5 64 0 100 ∷ systick ∷ exti9_5 64 64 150 ∷ exti9_5 64 64 160 ∷ []

IsValid-rest : IsValid (rest_at 7 [])
IsValid-rest = record { clock = refl; symbol_clock = refl; buffer = refl; index = omega arith }

serve_all_refines_example :
    (captured (serve_all edges (rest_at 7 [])) ≡ replay edges [])
    × IsValid (serve_all edges (rest_at 7 []))
    × IsOn (serve_all edges (rest_at 7 []))
serve_all_refines_example = serve_all_refines edges (rest_at 7 []) IsValid-rest refl

-- The second of two rising edges in a row is dropped.
replayed : replay edges [] ≡ 100 ∷ 150 ∷ []
unfolding shl32
replayed = refl

-- A mode that joins an edge with the request for an interrupt.
abbrev some_exti : Exti
some_exti = record { imr = 0; emr = 0; rtsr = 0; ftsr = 0; pr = 0; pr_write = 0 }

exti_mode-lines_example :
    (line_of 6 (exti_mode 6 9 some_exti).rtsr ≡ 0)
    × (line_of 6 (exti_mode 6 9 some_exti).ftsr ≡ 0)
    × (line_of 6 (exti_mode 6 9 some_exti).imr ≡ 1)
    × (line_of 6 (exti_mode 6 9 some_exti).emr ≡ 1)
unfolding field
exti_mode-lines_example = exti_mode-lines 6 9 6 some_exti (omega arith) (omega arith)

inputs-IsArmed_example :
    IsArmed gpioc button_0_pin (port_button_init 0 (rest_at 0 []))
    × IsArmed gpiob ir_rx_0_pin (port_rx_init 0 (rest_at 0 []))
inputs-IsArmed_example = inputs-IsArmed 0 (rest_at 0 [])

port_tx_init-IsSetUp_example : IsSetUp false (port_tx_init 0 false (rest_at 0 []))
port_tx_init-IsSetUp_example = port_tx_init-IsSetUp false (rest_at 0 [])

-- The lines 6 and 13 are pending together.
abbrev both : Board
both = record (rest_at 0 []) { exti = record some_exti { pr = 0x2040 } }

irq_handlers-cleared_example :
    (bit_at 6 (exti15_10_irq_handler both).exti.pr_write ≡ cleared button_0_pin 6 both)
    × (bit_at 6 (exti9_5_irq_handler both).exti.pr_write ≡ cleared ir_rx_0_pin 6 both)
irq_handlers-cleared_example = irq_handlers-cleared 6 both (omega arith)
