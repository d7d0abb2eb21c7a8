-- ===== src/Retina.antt =====
-- common/src/fsm_retina.c, with common/include/commands.h and fsm_retina.h: the machine that governs
-- the others. It takes the board by the interface of Retina/Port.
pub mod Port
mod Defs
mod Table
unfoldable pub use Defs.*
unfoldable pub use Table.*
pub mod Modes
pub mod Codes
pub mod Boards
pub mod Remote
pub mod Life
