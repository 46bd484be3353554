-- ===== src/Subsessions.antt =====
-- The subsession system (src/robotsix_chat/subsessions): its data, the registry that owns every
-- record, and the slot budget of the monitors.
pub mod Model
pub mod Checkpoint
pub mod Registry
pub mod SlotBudget
pub mod Spawn
pub mod Wiring
pub mod Schedule
pub mod Replies
pub mod PeriodicTurn
