-- ===== src/Tests.antt =====
-- Concrete parameters, and the theorems at concrete inputs.
mod Plain
mod SessionRuns
mod DispatchRuns
mod HistoryRuns
mod RegistryRuns
mod HandoffRuns
mod PermissionRuns
