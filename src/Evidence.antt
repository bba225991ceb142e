-- ===== src/Evidence.antt =====
-- src/scoring/domain: what the model may quote of the profile.
pub mod Catalog
pub mod Provenance
pub mod Recommendation
pub mod Selection
