-- ===== src/Persistence.antt =====
-- internal/persistence/postgres.go: the engine's operations as transactions on the tables of
-- migrations/001_init.sql.
pub mod Tables
pub mod Session
pub mod Helpers
pub mod Reads
pub mod Claim
pub mod Lease
pub mod Cancel
pub mod Start
pub mod Follows
pub mod RowChanges
pub mod Ends
pub mod History
pub mod Fencing
pub mod Claims
pub mod Progress
pub mod Passes
pub mod KnownKeys
pub mod Idempotence
pub mod Completion
pub mod Completed
pub mod Overlap
pub mod Serving
pub mod Working
pub mod Retries
