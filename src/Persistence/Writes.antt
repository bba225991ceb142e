-- ===== src/Persistence/Writes.antt =====
-- The writes of postings-repository.ts to the table of postings, in any order, and which of them give a
-- posting to a run.
use argos_career.Base.{
  ℕ, ◌+◌, ◌≡◌, Bool, true, false, not, ◌&&◌, ◌||◌, Text, same, contains, Option, none, some,
  is_some, List, [], ◌∷◌, filter, All, map, ltb, if◌then◌else◌,
}
use argos_career.Posting.Posting.{Posting, Seniority}
use argos_career.Persistence.Upsert.{
  StoredRow, upsert_many, mark_seen_if_present, update_extracted_fields,
}
use argos_career.Persistence.Postings.{
  PostingRow, Rows, is_run, is_claimable, fingerprints, claim_for_scoring,
  release_unresolved_claims, mark_notified_many, record_score_failure, clear_score_failures,
  rescore, discard, mark_applied, unmark_applied, mark_duplicate, restore_duplicate,
  clear_duplicate_flags,
}

-- A write to the table, by any process.

pub data Event : Type 0 where
  claims : Text → ℕ → Event
  releases : Text → Event
  notifies : List Text → ℕ → Event
  fails : Text → ℕ → Event
  clears rescores unmarks restores : Text → Event
  discards : Text → ℕ → Option Text → Event
  applies : Text → ℕ → Event
  duplicates : Text → Text → Event
  clears_flags : Event
  collects : List Posting → Event
  sees : Text → ℕ → Event
  extracts : Text → Option Seniority → Option ℕ → Event

-- The columns of a table that say what has become of its postings, and the table with others there.

abbrev pub fates : List StoredRow → Rows
fates = map (λ (s : StoredRow). s.fate)

abbrev pub put_fates : Rows → List StoredRow → List StoredRow
put_fates [] rows = []
put_fates (f ∷ fs) [] = []
put_fates (f ∷ fs) (s ∷ rows) = record s { fate = f } ∷ put_fates fs rows

module _ (stale_claim_ms : ℕ) where
  -- The table after the write.
  unfoldable pub step : List StoredRow → Event → List StoredRow
  unfolding claim_for_scoring release_unresolved_claims mark_notified_many record_score_failure
      clear_score_failures rescore discard mark_applied unmark_applied mark_duplicate
      restore_duplicate clear_duplicate_flags upsert_many mark_seen_if_present
      update_extracted_fields
  step rows (claims run_id at_ms) =
      put_fates (claim_for_scoring run_id at_ms stale_claim_ms (fates rows)).0 rows
  step rows (releases run_id) = put_fates (release_unresolved_claims run_id (fates rows)) rows
  step rows (notifies them at_ms) = put_fates (mark_notified_many them at_ms (fates rows)) rows
  step rows (fails fingerprint at_ms) =
      put_fates (record_score_failure fingerprint at_ms (fates rows)) rows
  step rows (clears fingerprint) = put_fates (clear_score_failures fingerprint (fates rows)) rows
  step rows (rescores fingerprint) = put_fates (rescore fingerprint (fates rows)).0 rows
  step rows (unmarks fingerprint) = put_fates (unmark_applied fingerprint (fates rows)).0 rows
  step rows (restores fingerprint) = put_fates (restore_duplicate fingerprint (fates rows)).0 rows
  step rows (discards fingerprint at_ms reason) =
      put_fates (discard fingerprint at_ms reason (fates rows)).0 rows
  step rows (applies fingerprint at_ms) =
      put_fates (mark_applied fingerprint at_ms (fates rows)).0 rows
  step rows (duplicates fingerprint of) =
      put_fates (mark_duplicate fingerprint of (fates rows)) rows
  step rows clears_flags = put_fates (clear_duplicate_flags (fates rows)).0 rows
  step rows (collects ps) = (upsert_many ps rows).0
  step rows (sees fingerprint at_ms) = mark_seen_if_present fingerprint at_ms rows
  step rows (extracts fingerprint seniority experience_years) =
      update_extracted_fields fingerprint seniority experience_years rows

  -- The postings that the write gives to a run.
  unfoldable pub granted : Rows → Event → Rows
  unfolding claim_for_scoring
  granted rows (claims run_id at_ms) = (claim_for_scoring run_id at_ms stale_claim_ms rows).1
  granted rows _ = []

  -- Whether one of the writes gives the posting to a run.
  unfoldable pub admits : Text → List StoredRow → List Event → Bool
  unfolding step granted
  admits fingerprint rows [] = false
  admits fingerprint rows (e ∷ es) =
      contains (fingerprints (granted (fates rows) e)) fingerprint
      || admits fingerprint (step rows e) es

abbrev pub All-rows : (PostingRow → Bool) → Rows → Type 0
All-rows p = All (λ (r : PostingRow). p r ≡ true)

pub All-map :
    (q : PostingRow → Bool) (g : PostingRow → PostingRow) (rows : Rows)
    → ((r : PostingRow) → q r ≡ true → q (g r) ≡ true)
    → All-rows q rows
    → All-rows q (map g rows)
All-map q g [] k h = tt
All-map q g (r ∷ rows) k h = (k r h.0, All-map q g rows k h.1)

-- The fate of a posting after a write to the table.
unfoldable pub written : ℕ → Rows → Event → PostingRow → PostingRow
written stale rows (claims run_id at_ms) r =
    if contains (fingerprints (filter (is_claimable at_ms stale) rows)) r.fingerprint
    then record r { scoring_claimed_at = some at_ms; scoring_claim_run_id = some run_id }
    else r
written stale rows (releases run_id) r =
    if is_run r.scoring_claim_run_id run_id && not (is_some r.notified_at)
    then record r { scoring_claimed_at = none; scoring_claim_run_id = none }
    else r
written stale rows (notifies them at_ms) r =
    if contains them r.fingerprint then record r { notified_at = some at_ms } else r
written stale rows (fails f at_ms) r =
    if same r.fingerprint f
    then record r {
      score_failure_count = r.score_failure_count + 1;
      last_score_failed_at = some at_ms;
    }
    else r
written stale rows (clears f) r =
    if same r.fingerprint f
    then record r { score_failure_count = 0; last_score_failed_at = none }
    else r
written stale rows (rescores f) r =
    if same r.fingerprint f && ltb 0 r.score_failure_count
    then record r {
      notified_at = none;
      score_failure_count = 0;
      last_score_failed_at = none;
      scoring_claimed_at = none;
      scoring_claim_run_id = none;
    }
    else r
written stale rows (unmarks f) r =
    if same r.fingerprint f && is_some r.applied_at then record r { applied_at = none } else r
written stale rows (restores f) r =
    if same r.fingerprint f && is_some r.duplicate_of_fingerprint
    then record r { duplicate_of_fingerprint = none }
    else r
written stale rows (discards f at_ms reason) r =
    if same r.fingerprint f && not (is_some r.discarded_at)
    then record r { discarded_at = some at_ms; discard_reason = reason }
    else r
written stale rows (applies f at_ms) r =
    if same r.fingerprint f then record r { applied_at = some at_ms } else r
written stale rows (duplicates f of) r =
    if same r.fingerprint f then record r { duplicate_of_fingerprint = some of } else r
written stale rows clears_flags r =
    if is_some r.duplicate_of_fingerprint then record r { duplicate_of_fingerprint = none } else r
written stale rows _ r = r
