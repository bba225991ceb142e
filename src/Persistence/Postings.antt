-- ===== src/Persistence/Postings.antt =====
-- src/persistence/infrastructure/postings-repository.ts: the columns that say what has become of a
-- posting, and the methods that write them. Each method is one transaction on the table.
use argos_career.Base.{
  ℕ, ◌+◌, ◌*◌, Bool, true, false, not, ◌&&◌, Text, same, contains, Option, none, some, is_some,
  List, filter, map, any, length, ltb, if◌then◌else◌,
}
use argos_career.Persistence.Table.{update_where}

abbrev pub default_stale_claim_ms : ℕ
default_stale_claim_ms = 4 * 60 * 60 * 1000

pub record PostingRow : Type 0 where
  pub fingerprint : Text
  pub duplicate_of_fingerprint : Option Text
  pub notified_at : Option ℕ
  pub discarded_at : Option ℕ
  pub discard_reason : Option Text
  pub score_failure_count : ℕ
  pub last_score_failed_at : Option ℕ
  pub scoring_claimed_at : Option ℕ
  pub scoring_claim_run_id : Option Text
  pub applied_at : Option ℕ

abbrev pub Rows : Type 0
Rows = List PostingRow

abbrev pub has_fingerprint : Text → PostingRow → Bool
has_fingerprint fingerprint r = same r.fingerprint fingerprint

abbrev pub is_run : Option Text → Text → Bool
is_run none run_id = false
is_run (some r) run_id = same r run_id

-- Active, not notified and not discarded.
abbrev pub is_outstanding : PostingRow → Bool
is_outstanding r =
    not (is_some r.duplicate_of_fingerprint)
    && (not (is_some r.notified_at) && not (is_some r.discarded_at))

unfoldable pub find_unnotified : Rows → Rows
find_unnotified = filter is_outstanding

-- `scoringClaimedAt < claimedAt - staleClaimMs`, with the sum on one side.
abbrev pub is_free : Option ℕ → ℕ → ℕ → Bool
is_free none claimed_at stale_claim_ms = true
is_free (some t) claimed_at stale_claim_ms = ltb (t + stale_claim_ms) claimed_at

abbrev pub is_claimable : ℕ → ℕ → PostingRow → Bool
is_claimable claimed_at stale_claim_ms r =
    is_outstanding r && is_free r.scoring_claimed_at claimed_at stale_claim_ms

abbrev pub fingerprints : Rows → List Text
fingerprints = map (λ (r : PostingRow). r.fingerprint)

-- The table after the claim, and the rows as they were read.
unfoldable pub claim_for_scoring : Text → ℕ → ℕ → Rows → Rows × Rows
claim_for_scoring run_id claimed_at stale_claim_ms rows =
    let found = filter (is_claimable claimed_at stale_claim_ms) rows in
    (
      update_where (λ (r : PostingRow). contains (fingerprints found) r.fingerprint)
          (λ (r : PostingRow). record r {
            scoring_claimed_at = some claimed_at;
            scoring_claim_run_id = some run_id;
          })
          rows,
      found,
    )

unfoldable pub release_unresolved_claims : Text → Rows → Rows
release_unresolved_claims run_id =
    update_where
      (λ (r : PostingRow). is_run r.scoring_claim_run_id run_id && not (is_some r.notified_at))
      (λ (r : PostingRow). record r { scoring_claimed_at = none; scoring_claim_run_id = none })

unfoldable pub mark_notified : Text → ℕ → Rows → Rows
mark_notified fingerprint notified_at =
    update_where (has_fingerprint fingerprint)
      (λ (r : PostingRow). record r { notified_at = some notified_at })

unfoldable pub mark_notified_many : List Text → ℕ → Rows → Rows
mark_notified_many fingerprints notified_at =
    update_where (λ (r : PostingRow). contains fingerprints r.fingerprint)
      (λ (r : PostingRow). record r { notified_at = some notified_at })

unfoldable pub record_score_failure : Text → ℕ → Rows → Rows
record_score_failure fingerprint failed_at =
    update_where (has_fingerprint fingerprint) (λ (r : PostingRow). record r {
      score_failure_count = r.score_failure_count + 1;
      last_score_failed_at = some failed_at;
    })

unfoldable pub clear_score_failures : Text → Rows → Rows
clear_score_failures fingerprint =
    update_where (has_fingerprint fingerprint)
      (λ (r : PostingRow). record r { score_failure_count = 0; last_score_failed_at = none })

-- The test of `result.changes > 0`.
abbrev pub changes : (PostingRow → Bool) → Rows → Bool
changes p rows = any p rows

unfoldable pub rescore : Text → Rows → Rows × Bool
rescore fingerprint rows =
    let failed = λ (r : PostingRow). has_fingerprint fingerprint r && ltb 0 r.score_failure_count in
    (
      update_where failed
          (λ (r : PostingRow). record r {
            notified_at = none;
            score_failure_count = 0;
            last_score_failed_at = none;
            scoring_claimed_at = none;
            scoring_claim_run_id = none;
          })
          rows,
      changes failed rows,
    )

unfoldable pub discard : Text → ℕ → Option Text → Rows → Rows × Bool
discard fingerprint discarded_at reason rows =
    let open_row =
      λ (r : PostingRow). has_fingerprint fingerprint r && not (is_some r.discarded_at) in
    let after =
      update_where open_row
        (λ (r : PostingRow). record r { discarded_at = some discarded_at; discard_reason = reason })
        rows in
    (after, if changes open_row rows then true else any (has_fingerprint fingerprint) after)

unfoldable pub mark_applied : Text → ℕ → Rows → Rows × Bool
mark_applied fingerprint applied_at rows = (
  update_where (has_fingerprint fingerprint)
      (λ (r : PostingRow). record r { applied_at = some applied_at }) rows,
  changes (has_fingerprint fingerprint) rows,
)

unfoldable pub unmark_applied : Text → Rows → Rows × Bool
unmark_applied fingerprint rows =
    let marked = λ (r : PostingRow). has_fingerprint fingerprint r && is_some r.applied_at in
    let after = update_where marked (λ (r : PostingRow). record r { applied_at = none }) rows in
    (after, if changes marked rows then true else any (has_fingerprint fingerprint) after)

unfoldable pub mark_duplicate : Text → Text → Rows → Rows
mark_duplicate fingerprint duplicate_of =
    update_where (has_fingerprint fingerprint)
      (λ (r : PostingRow). record r { duplicate_of_fingerprint = some duplicate_of })

unfoldable pub restore_duplicate : Text → Rows → Rows × Bool
restore_duplicate fingerprint rows =
    let flagged =
      λ (r : PostingRow). has_fingerprint fingerprint r && is_some r.duplicate_of_fingerprint in
    (
      update_where flagged (λ (r : PostingRow). record r { duplicate_of_fingerprint = none }) rows,
      changes flagged rows,
    )

unfoldable pub clear_duplicate_flags : Rows → Rows × ℕ
clear_duplicate_flags rows =
    let flagged = λ (r : PostingRow). is_some r.duplicate_of_fingerprint in
    (
      update_where flagged (λ (r : PostingRow). record r { duplicate_of_fingerprint = none }) rows,
      length (filter flagged rows),
    )
