-- ===== src/Mirror.antt =====
-- The history half of the sessions (session_mirror.rs).
pub mod Compare
pub mod Store
pub mod Sessions
pub mod Loads
pub mod Fallback
pub mod Turns
pub mod Intents
pub mod Terminals
pub mod Moves
pub mod Accounts
pub mod Quiets
pub mod Charges
pub mod Registrations
pub mod Machine
pub mod Overlays
