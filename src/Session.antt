-- ===== src/Session.antt =====
-- One session: its record, the admission of business intents, the turn and the history it commits
-- (session_state.rs, with the types of runtime_state.rs and history_cache.rs that it names).
pub mod Types
pub mod Admission
pub mod Turn
pub mod History
pub mod Load
pub mod Commit
pub mod Fresh
pub mod Machine
pub mod Invariant
pub mod Atomic
pub mod Intents
pub mod Retries
pub mod Digests
pub mod Slot
pub mod View
