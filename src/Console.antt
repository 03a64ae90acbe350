-- ===== src/Console.antt =====
-- The console clients `Evan's Work/newClient.go` and `ken/client.go`: what they share, each of
-- them, and what holds of both.
pub mod Session
pub mod NewClient
pub mod Ken
pub mod Spec
pub mod Invariant
pub mod Refusal
pub mod Runs
mod Tests
