-- ===== src/Scheduling.antt =====
-- src/scheduling/domain: the run lock and the alerts.
pub mod RunLock
pub mod Exclusion
mod Examples
