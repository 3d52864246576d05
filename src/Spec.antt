-- ===== src/Spec.antt =====
-- What a DurableGo backend promises, with no code of a method: the moves that rows may make, the
-- invariant that every move keeps, and what no later move takes back.
pub mod Move
pub mod Later
pub mod Kept
pub mod Invariant
pub mod Dependencies
