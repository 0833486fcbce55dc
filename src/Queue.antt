-- ===== src/Queue.antt =====
-- quality_api/queue.py: the task queue, its workers and the plans, in one SQLite database.
pub mod Rows
pub mod Enqueue
pub mod Lease
pub mod Finish
pub mod Workers
pub mod Plans
pub mod Anonymous
pub mod Rounds
pub mod Ids
pub mod Invariant
pub mod Outcomes
pub mod Keeps
pub mod Steps
pub mod Leasing
pub mod Exclusion
pub mod Cells
pub mod Fanout
pub mod Healing
pub mod Ending
pub mod LifeCycle
pub mod Progress
pub mod Listing
pub mod Eta
pub mod Tests
mod ReadTests
