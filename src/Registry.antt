-- ===== src/Registry.antt =====
-- The registry of sessions and the resources that they hold (session_registry.rs,
-- session_resources.rs, session_observers.rs).
pub mod Shared
pub mod Observers
pub mod Absence
pub mod Countdown
pub mod Resources
pub mod Types
pub mod Owners
pub mod Interactions
pub mod Retirement
