-- ===== src/Persistence.antt =====
-- src/persistence/infrastructure: the repositories over SQLite, whose tables are lists of rows.
pub mod Table
pub mod DeliveryOperations
pub mod Claims
pub mod Postings
pub mod Upsert
pub mod Writes
pub mod Keeping
pub mod Admission
pub mod Barrier
pub mod Sightings
mod Examples
