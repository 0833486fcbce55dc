-- ===== src/Queue/Keeps.antt =====
-- Every method of the task queue keeps the invariant of Queue/Invariant.antt.
pub mod Leases
pub mod Finishes
pub mod Plans
