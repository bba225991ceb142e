-- ===== src/Persistence/Examples.antt =====
-- The theorems on the lease of a delivery operation and on the claims and the upserts of postings, at
-- tables of one and two rows.
use argos_career.Base.{
  Text, Member, any, same, leb, if◌then◌else◌, ◌*◌, ◌≡◌, refl, inl, inr, false, codes, none, some,
  List, [], ◌∷◌, true, contains, arith,
}
use argos_career.Persistence.DeliveryOperations.{Db, OperationRow, operation_pending, claim}
use argos_career.Persistence.Claims.{claim_exclusive}
use argos_career.Posting.Posting.{Posting}
use argos_career.Posting.Sample.{a_day, backend_posting, sales_posting}
use argos_career.Persistence.Upsert.{StoredRow, upsert_many}
use argos_career.Persistence.Sightings.{
  Persists, rows_with, upsert_many_keeps, rows_with-upsert_many,
}
use argos_career.Persistence.Postings.{
  PostingRow, Rows, fingerprints, claim_for_scoring, release_unresolved_claims, discard,
}
use argos_career.Persistence.Writes.{
  Event, claims, releases, rescores, collects, fates, put_fates, admits,
}
use argos_career.Persistence.Admission.{discard_permanent}
use argos_career.Persistence.Barrier.{
  claim_for_scoring_exclusive, release_unresolved_claims_reopens,
}

abbrev row : OperationRow
row = record {
  operation_key = codes "o";
  channel_key = codes "c";
  digest_hash = codes "d";
  operation_status = operation_pending;
  claimed_by = none;
  claim_expires_at = none;
  created_at = 0;
  updated_at = 0;
  completed_at = none;
}

abbrev store : Db
store = record { operations = row ∷ []; chunks = [] }

won : (claim (codes "o") (codes "a") 10 100 store).1 ≡ true
unfolding claim
won = refl

-- After the lease another worker gets the operation.
won_later :
    (claim (codes "o") (codes "b") 111 100 (claim (codes "o") (codes "a") 10 100 store).0).1 ≡ true
unfolding claim
won_later = refl

claim_exclusive_example :
    claim (codes "o") (codes "b") 110 5 (claim (codes "o") (codes "a") 10 100 store).0
    ≡ ((claim (codes "o") (codes "a") 10 100 store).0, false)
claim_exclusive_example =
    claim_exclusive (codes "o") (codes "a") (codes "b") 10 110 100 5 store (omega arith) won refl
      (omega arith)

abbrev posting : PostingRow
posting = record {
  fingerprint = codes "p";
  duplicate_of_fingerprint = none;
  notified_at = none;
  discarded_at = none;
  discard_reason = none;
  score_failure_count = 1;
  last_score_failed_at = none;
  scoring_claimed_at = none;
  scoring_claim_run_id = none;
  applied_at = none;
}

abbrev held_posting : PostingRow
held_posting = record posting {
  fingerprint = codes "q";
  scoring_claimed_at = some 5;
  scoring_claim_run_id = some (codes "r0");
}

abbrev postings : Rows
postings = posting ∷ held_posting ∷ []

abbrev stored_as : Text → PostingRow → StoredRow
stored_as fingerprint fate = record {
  content = record backend_posting { fingerprint = fingerprint };
  fate = fate;
}

abbrev table : List StoredRow
table = stored_as (codes "p") posting ∷ stored_as (codes "q") held_posting ∷ []

given :
    contains (fingerprints (claim_for_scoring (codes "r1") 10 100 (fates table)).1) (codes "p")
    ≡ true
unfolding claim_for_scoring
given = refl

-- The posting is collected again.
abbrev again : Posting
again = record backend_posting { fingerprint = codes "p"; last_seen_at = 15 * a_day }

-- The posting is collected again, another run claims, and the one before it ends.
abbrev others : List Event
others =
    collects (again ∷ sales_posting ∷ [])
    ∷ claims (codes "r2") 50
    ∷ releases (codes "r0")
    ∷ claims (codes "r2") 110
    ∷ []

abbrev later : List Event
later = rescores (codes "p") ∷ collects (again ∷ []) ∷ claims (codes "r1") 900 ∷ []

claim_for_scoring_exclusive_example :
    admits 100
      (codes "p")
      (put_fates (claim_for_scoring (codes "r1") 10 100 (fates table)).0 table)
      others
    ≡ false
claim_for_scoring_exclusive_example =
    claim_for_scoring_exclusive 100 (codes "r1") 10 (codes "p") table others (refl, (refl, tt))
      given (tt, (omega arith, (refl, (omega arith, tt))))

release_unresolved_claims_reopens_example :
    contains
      (fingerprints
        (claim_for_scoring (codes "r1") 6 100 (release_unresolved_claims (codes "r0") postings)).1)
      (codes "q")
    ≡ true
release_unresolved_claims_reopens_example =
    release_unresolved_claims_reopens (codes "r0") (codes "r1") 6 100 postings held_posting
      (inr (inl refl)) refl refl

discard_permanent_example :
    admits 100 (codes "p") (put_fates (discard (codes "p") 3 none (fates table)).0 table) later
    ≡ false
discard_permanent_example =
    discard_permanent 100 (codes "p") 3 none table later (refl, (refl, tt)) refl

-- The posting again, with no link and no description, and one that is new.
abbrev sighting : Posting
sighting = record backend_posting { source_url = none; last_seen_at = 15 * a_day }

abbrev fate : PostingRow
fate = record posting { fingerprint = codes "f1"; notified_at = some 1 }

abbrev stored : StoredRow
stored = record { content = backend_posting; fate = fate }

upserts_run :
    ((upsert_many (sighting ∷ sales_posting ∷ sighting ∷ []) (stored ∷ [])).1
      ≡ false ∷ true ∷ false ∷ [])
    × (rows_with
          (codes "f1")
          (upsert_many (sighting ∷ sales_posting ∷ sighting ∷ []) (stored ∷ [])).0
        ≡ 1)
unfolding upsert_many
upserts_run = (refl, refl)

upsert_many_keeps_example :
    (s : StoredRow) × Member s (upsert_many (sighting ∷ sales_posting ∷ []) (stored ∷ [])).0
    × Persists stored s
upsert_many_keeps_example =
    upsert_many_keeps (sighting ∷ sales_posting ∷ []) (stored ∷ []) stored (inl refl)

rows_with-upsert_many_example :
    rows_with (codes "f2") (upsert_many (sales_posting ∷ sales_posting ∷ []) (stored ∷ [])).0 ≡ (
      if leb 1 (rows_with (codes "f2") (stored ∷ []))
      then rows_with (codes "f2") (stored ∷ [])
      else if any
          (λ (p : Posting). same p.fingerprint (codes "f2"))
          (sales_posting ∷ sales_posting ∷ [])
      then 1
      else 0)
rows_with-upsert_many_example =
    rows_with-upsert_many (sales_posting ∷ sales_posting ∷ []) (codes "f2") (stored ∷ [])
