-- ===== src/ConnectToDb.antt =====
-- The program of `Evan's Work/Assign4/src/connectToDB`, which tries out a document store.
pub mod Types
pub mod Program
pub mod Connections
pub mod Quiet
pub mod Errors
mod Tests
