-- ===== src/Tx.antt =====
-- common/src/fsm_tx.c and common/include/fsm_tx.h: the machine that sends NEC codes. It takes the
-- board by the interface of Tx/Port.
pub mod Port
mod Defs
unfoldable pub use Defs.*
pub mod Wait
pub mod Wave
pub mod Carrier
pub mod Fire
pub mod Boards
