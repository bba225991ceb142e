-- ===== src/Scoring.antt =====
-- src/scoring/domain: stage C, the score of a posting from the matches of stage B.
pub mod Number
pub mod Types
pub mod PeriodGate
pub mod Stage
pub mod Coverage
pub mod Verdict
pub mod Gate
pub mod Monotone
pub mod Fixed
mod Examples
