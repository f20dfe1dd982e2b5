-- ===== src/Runtime.antt =====
-- The live half of the sessions (runtime_state.rs).
pub mod Changes
pub mod InUse
pub mod Journal
pub mod Feed
pub mod Numbered
pub mod Bytes
pub mod Refinement
pub mod Interactions
pub mod Permissions
pub mod Responders
