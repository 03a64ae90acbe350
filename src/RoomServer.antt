-- ===== src/RoomServer.antt =====
-- Evan's Work/newServer.go: its constants and its data. The children hold its functions and the
-- proofs.
pub mod Types
pub mod Rooms
pub mod Lobby
pub mod Events
pub mod Effects
pub mod Invariant
pub mod Expiry
pub mod Deletion
pub mod Reach
pub mod Calm
pub mod Panics
pub mod Lasting
pub mod Capacity
pub mod Delivery
pub mod Stall
pub mod Commands
pub mod Outcomes
mod Tests
