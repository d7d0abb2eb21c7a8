-- ===== src/Port.antt =====
-- port/nucleo_stm32f446re: the board's side of the program. Port/State has the board's state, the
-- files Port/Gpio, Port/Power, Port/Handlers and Port/Interrupts the parts of port_system.c and the
-- interrupt service routines, and the others one file of src each.
pub mod State
pub mod Gpio
pub mod Power
pub mod Handlers
pub mod Interrupts
pub mod Valid
pub mod Button
pub mod Rgb
pub mod Sleep
pub mod Tx
pub mod Rx
pub mod ForButton
pub mod ForTx
pub mod ForRx
pub mod ForRetina
pub mod Keeps
pub mod ForMain
pub mod Pins
pub mod Inputs
pub mod Masks
pub mod Pending
pub mod Led
pub mod Edges
pub mod Hearing
pub mod Deaf
pub mod Later
pub mod Timeout
pub mod Wave
pub mod Shown
pub mod Heard
pub mod System
pub mod Timers
pub mod Delay
pub mod Asleep
