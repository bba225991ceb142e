-- ===== src/Delivery/Examples.antt =====
-- The theorems on digest.ts at four scored postings, and on the split for Telegram at a short text.
use argos_career.Base.{
  ℕ, ◌≡◌, refl, Bool, true, false, codes, none, [], ◌∷◌, filter, ◌==◌, Text, All, some, List, arith,
}
use mathlib.Core.List.{Perm}
use argos_career.Posting.Posting.{Posting}
use argos_career.Posting.Sample.{backend_posting, sales_posting}
use argos_career.Scoring.Number.{◌≼◌}
use argos_career.Scoring.Fixed.{fixed}
use argos_career.Scoring.Types.{Verdict, apply, discard}
use argos_career.Delivery.Digest.{ScoredPosting, ComposeDigestInput, compose_digest}
use argos_career.Delivery.Split.{split_for_telegram}
use argos_career.Delivery.Chunks.{IsSendable, split_for_telegram-IsSendable}
use argos_career.Delivery.Kept.{kept, kept_all, kept_all-split_for_telegram}
use argos_career.Delivery.Sections.{
  for_recommended, for_review, for_unreachable, compose_digest-sections,
}

abbrev entry : Posting → Verdict → ℕ → ScoredPosting ℕ
entry posting verdict score = record {
  posting = posting;
  outcome = record {
    verdict = verdict;
    score = score;
    breakdown = record { mandatory_coverage = 0; desirable_coverage = 0; track_alignment = 0 };
    blocking_failure = none;
    blocking_failures = [];
    low_confidence = false;
    critical_gaps = [];
    period_gate = none;
    score_failure_reason = none;
  };
  recommendation = record { recommended_variant = none; highlights = []; missing_terms = [] };
  input_truncated = none;
  recurring_gaps = none;
}

abbrev input : ComposeDigestInput ℕ
input = record {
  input_run_id = codes "r";
  input_generated_at = 0;
  scored =
      entry backend_posting apply 80_000
      ∷ entry sales_posting apply 90_000
      ∷ entry backend_posting discard 10_000
      ∷ entry backend_posting apply 85_000
      ∷ [];
  input_period_blocked = [];
  input_summary = record {
    collected = 4;
    deduplicated = 4;
    filtered = 4;
    scored_count = 4;
    failed_sources = [];
    truncated_sources = [];
  };
}

compose_digest_run :
    ((compose_digest input).recommended
      ≡ entry backend_posting apply 85_000 ∷ entry backend_posting apply 80_000 ∷ [])
    × ((compose_digest input).unreachable ≡ entry sales_posting apply 90_000 ∷ [])
unfolding compose_digest
compose_digest_run = (refl, refl)

compose_digest-sections_example :
    Perm (compose_digest input).recommended (filter for_recommended input.scored)
    × Perm (compose_digest input).review_section (filter for_review input.scored)
    × Perm (compose_digest input).unreachable (filter for_unreachable input.scored)
compose_digest-sections_example = compose_digest-sections input

-- The entries with a score of 80.
abbrev tie : ScoredPosting ℕ → Bool
tie e = e.outcome.score == 80_000

tie_tied : (a b : ScoredPosting ℕ) → tie a ≡ true → tie b ≡ true → a.outcome.score ≼ b.outcome.score
tie_tied a b h k = ground arith

abbrev message : Text
message = codes "ab\n\nabcdefg\n\n---\n\ncd"

abbrev message_chunks : List Text
message_chunks = codes "ab" ∷ codes "abcd" ∷ codes "efg" ∷ codes "cd" ∷ []

message_splits : split_for_telegram message 4 ≡ some message_chunks
unfolding split_for_telegram
message_splits = refl

split_for_telegram-IsSendable_example :
    (chunks : List Text) × (split_for_telegram message 4 ≡ some chunks) × All (IsSendable 4) chunks
split_for_telegram-IsSendable_example = split_for_telegram-IsSendable message 4 (omega arith)

kept_all-split_for_telegram_example : kept_all message_chunks ≡ kept message
kept_all-split_for_telegram_example =
    kept_all-split_for_telegram message 4 message_chunks message_splits
