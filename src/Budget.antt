-- ===== src/Budget.antt =====
-- orchestra/budget.py with the data of orchestra/types.py: an agent's budget, the handlers that react
-- to it before and after each step, and the tracker that runs them.
pub mod State
pub mod Context
pub mod Escalation
pub mod Reflect
pub mod Handlers
pub mod Tracker
pub mod Exhaustion
pub mod Accounting
pub mod Climbing
pub mod Cadence
pub mod Reflecting
pub mod Effects
pub mod Chain
pub mod Pipeline
pub mod Tests
