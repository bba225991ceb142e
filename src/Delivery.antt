-- ===== src/Delivery.antt =====
-- src/delivery: the digest, and the split of its text for Telegram.
pub mod Digest
pub mod Sections
pub mod Split
pub mod Chunks
pub mod Kept
pub mod Notifier
pub mod Resume
pub mod Cover
pub mod Settle
pub mod Sender
pub mod Attempts
mod Examples
mod NotifyExamples
mod SendExamples
