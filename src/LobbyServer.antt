-- ===== src/LobbyServer.antt =====
-- The chat server of ken/server.go.
pub mod Types
pub mod ChatRooms
pub mod Lobby
pub mod Events
pub mod Effects
pub mod Invariant
pub mod Lines
pub mod Expiry
pub mod Deletion
pub mod RoomSafety
pub mod Safety
pub mod Relayed
pub mod Arrival
pub mod Reach
pub mod History
pub mod Keeps
pub mod Capacity
pub mod Commands
pub mod Delivery
mod Tests
