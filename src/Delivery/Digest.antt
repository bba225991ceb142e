-- ===== src/Delivery/Digest.antt =====
-- src/delivery/domain/digest.ts.
use argos_career.Base.{
  ℕ, Bool, true, false, not, ◌||◌, Text, is_empty, Option, none, some, List, [], ◌∷◌, sort,
  if◌then◌else◌,
}
use argos_career.Scoring.Number.{Double, less}
use argos_career.Scoring.Types.{Verdict, apply, review, ScoreOutcome}
use argos_career.Posting.Posting.{Posting}

-- src/scoring/domain/recommendation.ts, the record.

pub record Recommendation : Type 0 where
  pub recommended_variant : Option Text
  pub highlights : List Text
  pub missing_terms : List Text

pub record RecurringGap : Type 0 where
  pub skill : Text
  pub gap_count : ℕ

pub record ScoredPosting (D : Type 0) : Type 0 where
  pub posting : Posting
  pub outcome : ScoreOutcome D
  pub recommendation : Recommendation
  pub input_truncated : Option Bool
  pub recurring_gaps : Option (List RecurringGap)

pub record PeriodBlockedEntry : Type 0 where
  pub blocked_posting : Posting
  pub opens_at_label : Text

pub record RunSummary : Type 0 where
  pub collected : ℕ
  pub deduplicated : ℕ
  pub filtered : ℕ
  pub scored_count : ℕ
  pub failed_sources : List Text
  pub truncated_sources : List Text

pub record Digest (D : Type 0) : Type 0 where
  pub run_id : Text
  pub generated_at : ℕ
  pub recommended : List (ScoredPosting D)
  pub review_section : List (ScoredPosting D)
  pub period_blocked : List PeriodBlockedEntry
  pub unreachable : List (ScoredPosting D)
  pub summary : RunSummary

pub record ComposeDigestInput (D : Type 0) : Type 0 where
  pub input_run_id : Text
  pub input_generated_at : ℕ
  pub scored : List (ScoredPosting D)
  pub input_period_blocked : List PeriodBlockedEntry
  pub input_summary : RunSummary

-- The three lists that the loop fills.
pub record Buckets (D : Type 0) : Type 0 where
  pub to_recommend : List (ScoredPosting D)
  pub to_review : List (ScoredPosting D)
  pub no_link : List (ScoredPosting D)

abbrev pub is_apply : Verdict → Bool
is_apply apply = true
is_apply _ = false

abbrev pub is_review : Verdict → Bool
is_review review = true
is_review _ = false

module _ {D : Type 0} where
  abbrev pub wanted : ScoredPosting D → Bool
  wanted entry = is_apply entry.outcome.verdict || is_review entry.outcome.verdict

  -- `!sourceUrl`: absent, or the empty string.
  abbrev pub lacks_link : ScoredPosting D → Bool
  lacks_link entry = elim entry.posting.source_url [ none ↦ true | some url ↦ is_empty url ]

  abbrev pub push : ScoredPosting D → Buckets D → Buckets D
  push entry rest =
      if not (wanted entry)
      then rest
      else if lacks_link entry
      then record rest { no_link = entry ∷ rest.no_link }
      else if is_apply entry.outcome.verdict
      then record rest { to_recommend = entry ∷ rest.to_recommend }
      else record rest { to_review = entry ∷ rest.to_review }

  -- The loop appends; its lists are those of the entries in order.
  unfoldable pub bucket : List (ScoredPosting D) → Buckets D
  bucket [] = record { to_recommend = []; to_review = []; no_link = [] }
  bucket (entry ∷ entries) = push entry (bucket entries)

  -- The sign of `b.outcome.score - a.outcome.score`.
  abbrev pub by_score_descending : ⦃d : Double D⦄ → ScoredPosting D → ScoredPosting D → Bool
  by_score_descending ⦃d⦄ a b = less b.outcome.score a.outcome.score

  unfoldable pub compose_digest : ⦃d : Double D⦄ → ComposeDigestInput D → Digest D
  unfolding bucket sort
  compose_digest ⦃d⦄ input =
      let buckets = bucket input.scored in
      record {
        run_id = input.input_run_id;
        generated_at = input.input_generated_at;
        recommended = sort by_score_descending buckets.to_recommend;
        review_section = sort by_score_descending buckets.to_review;
        period_blocked = input.input_period_blocked;
        unreachable = sort by_score_descending buckets.no_link;
        summary = input.input_summary;
      }
