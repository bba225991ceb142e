-- ===== src/Pipeline/Examples.antt =====
-- The theorems on a delivery run at two postings, one of which is international and deferred.
use argos_career.Base.{
  ℕ, ◌≡◌, refl, ◌+◌, ◌*◌, false, not, Text, codes, same, none, some, List, [], ◌∷◌, ◌++◌, filter,
  length, All, if◌then◌else◌,
}
use argos_career.Scoring.Fixed.{fixed}
use argos_career.Scoring.Types.{extraction_failed}
use argos_career.Posting.Posting.{Posting}
use argos_career.Posting.Sample.{ascii, a_day, backend_posting}
use argos_career.Posting.Unicode.{normalize}
use argos_career.Prefilter.TitleMatch.{title_matches_any}
use argos_career.Prefilter.Rules.{
  is_company_blocked, is_expired, is_too_old, is_location_allowed, has_min_keyword_adherence,
}
use argos_career.Prefilter.Sample.{criteria}
use argos_career.Persistence.Postings.{PostingRow}
use argos_career.Pipeline.RunRows.{RunRow}
use argos_career.Pipeline.Origin.{OriginCriteria, admit, is_national_posting}
use argos_career.Pipeline.Budget.{FitsBudget, admit-within_budget}
use argos_career.Pipeline.State.{World, Given, answered, not_scored, notified, sum_of_counts}
use argos_career.Pipeline.Deliver.{execute_deliver}
use argos_career.Pipeline.Closing.{IsReleased, execute_deliver-releases}

abbrev origin : OriginCriteria
origin = record {
  home_country = codes "BR";
  source_default_country = (codes "gupy", codes "BR") ∷ [];
  max_international_per_run = some 0;
}

abbrev foreign_posting : Posting
foreign_posting = record backend_posting { fingerprint = codes "f3"; country = some (codes "PT") }

abbrev same_text : Text → Text
same_text t = t

admit-within_budget_example :
    (admitted : List Posting) × ((admit same_text origin (foreign_posting ∷ backend_posting ∷ [])).0
      ≡ filter (is_national_posting same_text origin) (foreign_posting ∷ backend_posting ∷ [])
        ++ admitted)
    × (admitted ++ (admit same_text origin (foreign_posting ∷ backend_posting ∷ [])).1
        ≡ filter
            (λ p. not (is_national_posting same_text origin p))
            (foreign_posting ∷ backend_posting ∷ []))
    × FitsBudget
        (some 0)
        (length admitted)
        (admit same_text origin (foreign_posting ∷ backend_posting ∷ [])).1
admit-within_budget_example =
    admit-within_budget same_text origin (foreign_posting ∷ backend_posting ∷ [])

abbrev row : Text → PostingRow
row fingerprint = record {
  fingerprint = fingerprint;
  duplicate_of_fingerprint = none;
  notified_at = none;
  discarded_at = none;
  discard_reason = none;
  score_failure_count = 0;
  last_score_failed_at = none;
  scoring_claimed_at = none;
  scoring_claim_run_id = none;
  applied_at = none;
}

-- The scorer fails on the posting that it is asked for.
abbrev given : Given ℕ
given = record {
  unicode = ascii;
  upper = same_text;
  criteria = criteria;
  origin = origin;
  profile_keywords = [];
  max_score_failures = 5;
  triggered_by = codes "internal";
  run_id = codes "r1";
  dedup_run_id = codes "r0";
  clock = λ n. 13 * a_day + n;
  posting_of = λ r. if same r.fingerprint (codes "f3") then foreign_posting else backend_posting;
  dedup = λ rows. answered (record {
    marked_rows = rows;
    marked_duplicate = 0;
    shadow_events = [];
    comparison_truncated_count = 0;
  });
  cancel_requested_at = λ n. false;
  score = λ n rows p. (rows, answered (not_scored extraction_failed false));
  recurring_gaps_for = λ o. [];
  notify = λ rows digest. (rows, answered notified);
}

abbrev world : World
world = record { rows = row (codes "f1") ∷ row (codes "f3") ∷ []; runs = []; events = []; tick = 0 }

-- The failure and the deferral are the breakdown of the two that passed the filter.
abbrev counts_of : List RunRow → List (ℕ × ℕ × ℕ)
counts_of [] = []
counts_of (r ∷ rows) =
    (r.filtered_count, r.scored_count, sum_of_counts r.score_failure_counts) ∷ counts_of rows

breakdown : counts_of (execute_deliver given world).0.runs ≡ (2, 0, 2) ∷ (0, 0, 0) ∷ []
unfolding execute_deliver sum_of_counts title_matches_any is_company_blocked is_expired is_too_old
    is_location_allowed normalize has_min_keyword_adherence
breakdown = refl

execute_deliver-releases_example :
    All (IsReleased (codes "r1")) (execute_deliver given world).0.rows
execute_deliver-releases_example = execute_deliver-releases given world
