-- ===== src/Profile.antt =====
-- src/profile/domain: the candidate's profile.
pub mod Period
pub mod Calendar
mod Examples
