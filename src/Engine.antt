-- ===== src/Engine.antt =====
-- internal/execution/engine.go: the in-memory engine. A method is an action on the engine's state;
-- the mutex is held through each method, so a history is a sequence of whole calls.
pub mod State
pub mod Locked
pub mod Start
pub mod Claim
pub mod Lease
pub mod Cancel
pub mod Sweep
pub mod Reads
pub mod Steps
pub mod History
