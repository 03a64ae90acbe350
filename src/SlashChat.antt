-- ===== src/SlashChat.antt =====
-- The server and the client of the slash protocol: `Evan's Work/util/util.go`, `Evan's
-- Work/server.go` and `Evan's Work/client.go`.
pub mod Codec
pub mod Action
pub mod Util
pub mod Server
pub mod Client
pub mod Wire
pub mod Delivery
pub mod Registry
pub mod Slots
pub mod Reference
mod Tests
