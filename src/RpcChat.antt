-- ===== src/RpcChat.antt =====
-- The chat over remote procedure calls: `Evan's Work/Assign 2`.
pub mod Registry
pub mod Types
pub mod Program
pub mod Rooms
pub mod Receiver
pub mod System
pub mod Locks
pub mod Faults
pub mod Alone
pub mod Signals
pub mod Outcomes
pub mod Undisturbed
pub mod Client
pub mod ClientLoops
mod Tests
mod StuckTests
