-- ===== src/Persistence/DeliveryOperations.antt =====
-- src/persistence/infrastructure/delivery-operations-repository.ts, and its two tables of schema.ts.
-- Each method is one transaction on the tables.
mod Tables
mod Preparation
mod Methods
mod Reconciliation
unfoldable pub use Tables.*
unfoldable pub use Preparation.*
unfoldable pub use Methods.*
unfoldable pub use Reconciliation.*
