-- ===== src/Handoff.antt =====
-- The handoff of completions to the tasks that wait for them (completion_handoff.rs).
pub mod Types
pub mod Ops
pub mod System
pub mod Loads
mod Surrendered
pub mod Turns
pub mod Matched
