-- ===== src/Tests.antt =====
-- Runs of the theorems of the other modules on inputs of the program.
mod Boards
mod Nec
mod Button
mod Tx
mod Rx
mod Timeout
mod Retina
mod System
mod Main
mod Heard
mod Hearing
mod Silence
mod Link
mod Wake
mod Missed
mod Answer
mod Life
mod Priorities
mod Port
