-- ===== src/Prefilter.antt =====
-- src/prefilter/domain: the deterministic rules before any model call.
pub mod Criteria
pub mod TitleMatch
pub mod Rules
pub mod Outcome
pub mod Dates
pub mod Freshness
pub mod Rank
pub mod Ranking
pub mod Sample
mod Examples
