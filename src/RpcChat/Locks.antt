-- ===== src/RpcChat/Locks.antt =====
-- How the goroutines of `Evan's Work/Assign 2/server` use the clients' locks.
mod Discipline
mod Calls
mod Modes
mod Steps
mod History
mod Waiting
mod Deadlock
pub use Discipline.*
pub use Calls.*
unfoldable pub use Modes.*
pub use Steps.*
pub use History.*
pub use Waiting.*
pub use Deadlock.*
