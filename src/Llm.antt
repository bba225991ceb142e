-- ===== src/Llm.antt =====
-- The calls of the model: src/scoring/infrastructure/openrouter-client.ts and llm-output.ts.
mod Categories
mod Envelope
mod Body
mod Client
mod Accounting
mod Normalize
mod Within
mod Limits
pub mod Output
mod Budgets
mod Examples
