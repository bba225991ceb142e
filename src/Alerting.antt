-- ===== src/Alerting.antt =====
-- The queue of alerts: src/persistence/infrastructure/pending-alerts-repository.ts.
mod Pending
mod Rows
mod Queue
mod Examples
