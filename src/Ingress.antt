-- ===== src/Ingress.antt =====
-- The ordered ingress of responses (ordered_ingress.rs).
pub mod Types
pub mod Ops
pub mod Calls
mod Cases
pub mod Bound
pub mod Accounts
