-- ===== src/Dispatch.antt =====
-- FIFO queues of session transitions, drained in turn (session_dispatch.rs).
pub mod Types
pub mod Memory
pub mod Ops
pub mod Ready
pub mod Next
pub mod System
pub mod Sound
pub mod Safety
pub mod Progress
pub mod Owned
pub mod Fifo
pub mod Exclusive
pub mod Handles
pub mod Allocation
pub mod Revoked
