-- ===== src/Pipeline/State.antt =====
-- What a delivery run of src/cli/main.ts reads, writes and counts.
use argos_career.Base.{
  ℕ, zero, suc, ◌+◌, ◌-◌, Bool, Text, codes, Dict, lookup, insert, Option, List, [], ◌∷◌, or_else,
}
use argos_career.Scoring.Types.{
  Verdict, ScoreOutcome, ScoreFailureReason, invalid_output, extraction_failed, matching_failed,
  max_retries_exceeded,
}
use argos_career.Posting.Posting.{Posting}
use argos_career.Posting.Unicode.{Unicode}
use argos_career.Prefilter.Criteria.{Criteria}
use argos_career.Prefilter.Rules.{PreFilterRejectionReason}
use argos_career.Delivery.Digest.{
  Recommendation, RecurringGap, ScoredPosting, PeriodBlockedEntry, Digest,
}
use argos_career.Persistence.Postings.{PostingRow, Rows}
use argos_career.Pipeline.RunRows.{RunRow}
use argos_career.Pipeline.Origin.{OriginCriteria}

abbrev pub default_max_score_failures : ℕ
default_max_score_failures = 5

-- The audit trail, less the hashes and the metadata.

pub data EventOutcome : Type 0 where
  passed rejected deferred score_failed delivered comparison_bound_reached : EventOutcome
  scored_as : Verdict → EventOutcome

pub data EventReason : Type 0 where
  filter_reason : PreFilterRejectionReason → EventReason
  failure_reason : ScoreFailureReason → EventReason
  international_budget_exhausted : EventReason

pub record PostingEvent : Type 0 where
  pub event_run_id : Text
  pub event_fingerprint : Option Text
  pub event_outcome : EventOutcome
  pub event_reason : Option EventReason
  pub occurred_at : ℕ

pub record World : Type 0 where
  pub rows : Rows
  pub runs : List RunRow
  pub events : List PostingEvent
  pub tick : ℕ

-- The scorer's result; it can also reject, like the notifier.

pub data ScoreResult (D : Type 0) : Type 0 where
  scored_ok : ScoreOutcome D → Recommendation → Bool → ScoreResult D
  not_scored : ScoreFailureReason → Bool → ScoreResult D

pub data Awaited (A : Type 0) : Type 0 where
  answered : A → Awaited A
  thrown : Text → Awaited A

pub data NotifyResult : Type 0 where
  notified : NotifyResult
  not_notified : Text → NotifyResult

pub record DedupResult : Type 0 where
  pub marked_rows : Rows
  pub marked_duplicate : ℕ
  pub shadow_events : List PostingEvent
  pub comparison_truncated_count : ℕ

-- What a run is given. The scorer and the notifier act at a reading of the clock, on tables that
-- others write to while they are awaited; the similarity pass is one transaction, which throws or
-- returns.
pub record Given (D : Type 0) : Type 0 where
  pub unicode : Unicode
  pub upper : Text → Text
  pub criteria : Criteria D
  pub origin : OriginCriteria
  pub profile_keywords : List Text
  pub max_score_failures : ℕ
  pub triggered_by : Text
  pub run_id : Text
  pub dedup_run_id : Text
  pub clock : ℕ → ℕ
  pub posting_of : PostingRow → Posting
  pub dedup : Rows → Awaited DedupResult
  pub cancel_requested_at : ℕ → Bool
  pub score : ℕ → Rows → Posting → Rows × Awaited (ScoreResult D)
  pub recurring_gaps_for : ScoreOutcome D → List RecurringGap
  pub notify : Rows → Digest D → Rows × Awaited NotifyResult

-- The counters that outlive a throw, and the two lists that the scoring loop fills.
pub record Progress (D : Type 0) : Type 0 where
  pub world : World
  pub filtered_count : ℕ
  pub scored_count : ℕ
  pub deferred_count : ℕ
  pub batch_fatal_reason : Option Text
  pub cancel_requested : Bool
  pub score_failure_counts : Dict ℕ
  pub scored_entries : List (ScoredPosting D)
  pub period_blocked_entries : List PeriodBlockedEntry

abbrev pub reason_name : ScoreFailureReason → Text
reason_name invalid_output = codes "invalid_output"
reason_name extraction_failed = codes "extraction_failed"
reason_name matching_failed = codes "matching_failed"
reason_name max_retries_exceeded = codes "max_retries_exceeded"

unfoldable pub count_failure : ScoreFailureReason → Dict ℕ → Dict ℕ
unfolding lookup insert
count_failure reason counts =
    insert (reason_name reason) (or_else (lookup (reason_name reason) counts) 0 + 1) counts

unfoldable pub sum_of_counts : Dict ℕ → ℕ
sum_of_counts [] = 0
sum_of_counts ((k, n) ∷ counts) = n + sum_of_counts counts

abbrev pub not_attempted_key : Text
not_attempted_key = codes "not_attempted_after_run_failure"

abbrev pub deferred_key : Text
deferred_key = codes "deferred_international_budget"

unfoldable pub with_not_attempted : ℕ → Dict ℕ → Dict ℕ
unfolding insert
with_not_attempted zero counts = counts
with_not_attempted (suc n) counts = insert not_attempted_key (suc n) counts

unfoldable pub with_deferred : ℕ → Dict ℕ → Dict ℕ
unfolding insert
with_deferred zero counts = counts
with_deferred (suc n) counts = insert deferred_key (suc n) counts

-- `notAttempted` is negative only where the subtraction here stops at 0, and is then not recorded.
unfoldable pub final_score_failure_counts : {D : Type 0} → Progress D → Dict ℕ
unfolding sum_of_counts with_not_attempted with_deferred
final_score_failure_counts p =
    let not_attempted =
      p.filtered_count
      - (p.deferred_count + p.scored_count + sum_of_counts p.score_failure_counts) in
    with_deferred p.deferred_count (with_not_attempted not_attempted p.score_failure_counts)
