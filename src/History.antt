-- ===== src/History.antt =====
-- Whole histories: the reference fold (history_cache.rs) and the builder that replays a load in place
-- (history_replay.rs).
pub mod Slots
pub mod Reference
pub mod Builder
pub mod Effects
pub mod Places
pub mod Steps
pub mod Chunks
pub mod ToolFolds
pub mod Tools
pub mod PlanSlots
pub mod Plans
pub mod Equivalence
pub mod Keys
pub mod Candidate
pub mod Cache
pub mod Loads
pub mod Sealed
