-- ===== src/Persistence/Upsert.antt =====
-- src/persistence/infrastructure/postings-repository.ts: `upsert`, `upsertMany`, `markSeenIfPresent`
-- and `updateExtractedFields`. A row is the posting that it hydrates to, with the columns that say what has
-- become of it. The fingerprint is unique, so that the row selected is the row updated.
use argos_career.Base.{
  ℕ, Bool, true, false, Text, same, Option, none, some, List, [], ◌∷◌, ◌++◌, any, ltb, ◌&&◌,
  if◌then◌else◌,
}
use argos_career.Posting.Posting.{Posting, Seniority}
use argos_career.Persistence.Table.{update_where}
use argos_career.Persistence.Postings.{PostingRow}

pub record StoredRow : Type 0 where
  pub content : Posting
  pub fate : PostingRow

abbrev pub stores : Text → StoredRow → Bool
stores fingerprint r = same r.content.fingerprint fingerprint

-- `a ?? b` of two columns.
abbrev pub coalesce : {A : Type 0} → Option A → Option A → Option A
coalesce none b = b
coalesce (some a) b = some a

abbrev pub fresh_fate : Text → PostingRow
fresh_fate fingerprint = record {
  fingerprint = fingerprint;
  duplicate_of_fingerprint = none;
  notified_at = none;
  discarded_at = none;
  discard_reason = none;
  score_failure_count = 0;
  last_score_failed_at = none;
  scoring_claimed_at = none;
  scoring_claim_run_id = none;
  applied_at = none;
}

-- The SET clause of a re-sighting.
unfoldable pub resighted : Posting → StoredRow → StoredRow
resighted p r = record r {
  content = record r.content {
    source = p.source;
    source_id = p.source_id;
    company = p.company;
    title = p.title;
    location = p.location;
    work_mode = p.work_mode;
    seniority = coalesce p.seniority r.content.seniority;
    experience_years = coalesce p.experience_years r.content.experience_years;
    application_deadline = coalesce p.application_deadline r.content.application_deadline;
    published_at = coalesce p.published_at r.content.published_at;
    source_url = coalesce p.source_url r.content.source_url;
    description = coalesce p.description r.content.description;
    country = coalesce p.country r.content.country;
    collected_at = p.last_seen_at;
    last_seen_at = p.last_seen_at;
  };
}

unfoldable pub inserted : Posting → StoredRow
inserted p = record {
  content = record p { collected_at = p.last_seen_at };
  fate = fresh_fate p.fingerprint;
}

-- The table, and `wasNew`.
unfoldable pub upsert : Posting → List StoredRow → List StoredRow × Bool
unfolding resighted inserted
upsert p rows =
    if any (stores p.fingerprint) rows
    then (update_where (stores p.fingerprint) (resighted p) rows, false)
    else (rows ++ inserted p ∷ [], true)

unfoldable pub upsert_many : List Posting → List StoredRow → List StoredRow × List Bool
unfolding upsert
upsert_many [] rows = (rows, [])
upsert_many (p ∷ ps) rows =
    let (after, was_new) = upsert p rows in
    let (last, news) = upsert_many ps after in (last, was_new ∷ news)

unfoldable pub mark_seen_if_present : Text → ℕ → List StoredRow → List StoredRow
mark_seen_if_present fingerprint seen_at =
    update_where (λ r. stores fingerprint r && ltb r.content.last_seen_at seen_at)
      (λ (r : StoredRow). record r {
        content = record r.content { collected_at = seen_at; last_seen_at = seen_at };
      })

-- What stage A has extracted, a plain overwrite.
unfoldable pub update_extracted_fields :
    Text → Option Seniority → Option ℕ → List StoredRow → List StoredRow
update_extracted_fields fingerprint seniority experience_years =
    update_where (stores fingerprint) (λ (r : StoredRow). record r {
      content = record r.content { seniority = seniority; experience_years = experience_years };
    })
