-- ===== src/StageB.antt =====
-- Stage B: src/scoring/infrastructure/stage-b-matcher.ts with its cache.
pub mod Matches
pub mod Matcher
mod Answers
mod Grounded
mod Highlights
mod Examples
