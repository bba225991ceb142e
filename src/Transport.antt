-- ===== src/Transport.antt =====
-- src/scoring/infrastructure: the transport that the two model stages share.
pub mod CircuitBreaker
pub mod Trial
mod Examples
