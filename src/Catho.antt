-- ===== src/Catho.antt =====
-- collectors/catho: the checkpoint state of the collector.
pub mod State
pub mod Collect
pub mod Lifecycle
pub mod Validity
pub mod Runs
pub mod Classify
mod Examples
