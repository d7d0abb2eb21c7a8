-- ===== src/Lib.antt =====
-- The infrared transmitter and receiver for the board NUCLEO-F446RE.
--
-- The program is one endless loop that fires four state machines. A button's machine debounces the
-- button and measures presses; a transmitter's machine sends NEC codes by switching a carrier in
-- step with a timer; a receiver's machine collects the times of edges and has a parser, itself a
-- state machine, turn them into codes when no edge has come for a while; and a governing machine
-- reads the button and the receiver, hands codes to the transmitter, sets an LED, switches the
-- receiver on and off, and puts the processor to sleep. The machines reach the board only through
-- the functions of the port's headers; interrupts write a few variables that these functions read.
--
-- The files, and the parts of the repository that they model:
--   Common: C's unsigned words with their wrap-around, tests, arrays as lists, and calls that may
--     go wrong.
--   Fsm: common/src/fsm.c. A transition is a record of optional functions, and the engine tries a
--     list of them in order.
--   Nec: common/src/fsm_rx_nec.c. Nec/Ranges has the widths with their tolerances, Nec/Defs its
--     guards and actions, Nec its table and loop, Nec/Reference a decoder that knows neither table
--     nor pointer.
--   Button, Tx, Rx, Retina: common/src/fsm_button.c, fsm_tx.c, fsm_rx.c and fsm_retina.c. Each
--     has a record for the machine's struct (Defs) and an interface (Port) with the functions of
--     the board that it calls and what it relies on. Tx/Wave is about the wave that the
--     transmitter's carrier makes, and Tx/Carrier tells it from every other one. Button/Measured is
--     about whole presses, Retina/Remote about the governing machine as a remote control without
--     tables, and Retina/Life about what such a remote control has done by a number of turns.
--   Ticker: the busy waits, which read a count until it has moved on (`_wait_for_tx_ticks` of
--     fsm_tx.c, `port_system_delay_ms` of port_system.c).
--   Air: a wave from the transmitter, sampled by the receiver's timer (Air/Sampled).
--   Port: port/nucleo_stm32f446re/src. Board is a record of the port's static variables and of
--     the registers; Port/ForButton, ForTx, ForRx and ForRetina fill the interfaces. Port/Pins has
--     the fields of the registers that port_system.c writes, Port/Inputs the two pins that are
--     read, Port/Led the three that are driven, Port/Timers the timers of port_tx.c, Port/Pending
--     what the service routines write to EXTI's pending register, Port/Edges the buffer of edges
--     against a list, Port/Hearing and Port/Deaf when the receiver's line is on, Port/Later the
--     time and the LED, Port/Timeout how long the receiver waits for edges, Port/Asleep the stop
--     mode, Port/System the reset and the set-up of the clocks, and Port/Delay the delays.
--     Port/Heard and Port/Shown go from interrupts to a code, and from a code to the LED, and
--     Port/Wave from a wave to interrupts.
--   Main: common/src/retina.c, the making of the machines and the body of the endless loop, over
--     the interfaces of the machines; Main/Board runs it on the board. Main/Press goes from the
--     button to a wave, Main/Heard from interrupts to the LED, Main/Held and Main/Answer from a
--     press, by the time between its ends, to what the program does, Main/Wake from a press to a
--     program that is awake, Main/Missed from a press to one that is not, Main/Hearing from a long
--     press to a receiver that listens, Main/Silence to one that is off, and Main/Link from a press
--     on one board to the LED of another. Main/Lit and Main/Life have the whole program as a remote
--     control, turn by turn. Main/Priorities has the priorities of the interrupts once the program
--     has started.
--   Tests: the theorems on concrete inputs.
--
-- A function of the source keeps its name, in lower case and without a leading underscore. Its
-- result is `none` where C leaves the behaviour undefined: a NULL pointer, an index outside an
-- array, the use of memory that was freed. A function that changes a struct returns the new one.
-- A call that reads what a service routine writes first serves the interrupts that have arrived,
-- which are an arbitrary sequence given with the board; a routine runs as a whole.
--
-- Loops run on fuel. The parser's loop gets 2 n + 1 rounds for n edges: every round reads an edge
-- or is followed by one that does. A wait of the transmitter gets as much fuel as its caller says,
-- and period * ticks + period reads are enough where an interrupt of the symbol timer comes at
-- least every `period` reads. The loop over the bits gets 33 rounds, one for each bit and the end.
--
-- `malloc` is a parameter: what each call of it gives. So are the names of CMSIS that the set-up of
-- the clocks uses, the masks and positions of fields and `SysTick_Config`; Port/System has what is
-- documented of them. So are, for `SystemInit`, the macros of the build, the address of the vector
-- table and the set-up of external memories (Build).
--
-- A wave is what the carrier does: the board records, at each interrupt of the symbol timer that
-- is served, whether the carrier is on (Board's `on_air`, which the program does not read).
-- Between two of them the carrier may be switched, so that a duration is known up to one tick at
-- either end.
--
-- A priority of an interrupt is the grouping, the priority and the subpriority that it was encoded
-- from, since the code that encodes them is CMSIS. A service routine runs as a whole: one that
-- another interrupts is not modelled, nor is an interrupt between two writes of one function to
-- what the routines use, but where the function reads something that they write.
--
-- Not modelled: the stubs of port/nucleo_stm32f446re/src/syscalls.c, which come with the C
-- library; the calls of `fsm_destroy` after the endless loop, which are not reached; and what the
-- hardware does with the registers that are written, so that an interrupt comes with what its
-- routine finds in EXTI->PR, and a line that an earlier routine's write has cleared is not taken
-- back from it (Port/Pending has what is written).
pub mod Common
pub mod Fsm
pub mod Nec
pub mod Button
pub mod Ticker
pub mod Tx
pub mod Air
pub mod Rx
pub mod Retina
pub mod Port
pub mod Main
pub mod Tests
