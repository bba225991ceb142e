-- ===== src/Posting.antt =====
-- src/posting/domain: the posting and its texts.
pub mod Unicode
pub mod Posting
pub mod Sample
