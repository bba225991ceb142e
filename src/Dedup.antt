-- ===== src/Dedup.antt =====
-- The similarity pass: src/posting/domain/title-similarity.ts and
-- src/persistence/application/dedup-similar-postings.ts.
mod TitleSimilarity
mod Similar
mod Window
mod Reference
mod Examples
