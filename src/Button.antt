-- ===== src/Button.antt =====
-- common/src/fsm_button.c and common/include/fsm_button.h: the machine that debounces a button and
-- measures how long it is pressed. It takes the board by the interface of Button/Port.
pub mod Port
mod Defs
unfoldable pub use Defs.*
pub mod Debounce
pub mod Runs
pub mod Waits
pub mod Measured
pub mod Boards
