-- ===== src/Rx.antt =====
-- common/src/fsm_rx.c and common/include/fsm_rx.h: the machine that collects edges and has them
-- parsed when they stop. It takes the board by the interface of Rx/Port.
pub mod Port
mod Defs
unfoldable pub use Defs.*
pub mod Keeps
pub mod Memory
pub mod Results
pub mod Stamps
pub mod Boards
