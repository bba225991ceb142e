-- ===== src/Persistence/Admission.antt =====
-- What a discard means for every later claim of postings-repository.ts.
use argos_career.Base.{
  ℕ, ◌≡◌, refl, Bool, true, false, not, ◌||◌, Text, same, contains, Option, is_some, List, [], ◌∷◌,
  any, arith,
}
use argos_career.Persistence.Postings.{PostingRow, Rows, fingerprints, is_claimable, discard}
use argos_career.Persistence.Upsert.{StoredRow, stores, fresh_fate}
use argos_career.Persistence.Writes.{
  Event, claims, releases, notifies, fails, clears, rescores, unmarks, restores, discards, applies,
  duplicates, clears_flags, fates, put_fates, step, granted, admits, written, All-rows,
}
use argos_career.Persistence.Keeping.{
  none_found, AreStored, Keeps, fates-Keeps, step-Keeps, put_fates-Keeps,
}

-- A posting that is discarded.

abbrev pub out : Text → PostingRow → Bool
out fingerprint r = not (same r.fingerprint fingerprint) || is_some r.discarded_at

module _ (stale : ℕ) (fingerprint : Text) where
  fresh-out :
      (other : Text) → same other fingerprint ≡ false → out fingerprint (fresh_fate other) ≡ true
  fresh-out other e = ground (arith, e)

  written-out :
      (rows : Rows) (e : Event) (r : PostingRow)
      → out fingerprint r ≡ true
      → out fingerprint (written stale rows e r) ≡ true
  unfolding written
  written-out rows (claims run_id at_ms) r k = ground arith
  written-out rows (releases run_id) r k = ground arith
  written-out rows (notifies them at_ms) r k = ground arith
  written-out rows (fails f at_ms) r k = ground arith
  written-out rows (clears f) r k = ground arith
  written-out rows (rescores f) r k = ground arith
  written-out rows (unmarks f) r k = ground arith
  written-out rows (restores f) r k = ground arith
  written-out rows (discards f at_ms reason) r k = ground arith
  written-out rows (applies f at_ms) r k = ground arith
  written-out rows (duplicates f of) r k = ground arith
  written-out rows clears_flags r k = ground arith
  written-out rows _ r k = k

  granted-out :
      (rows : Rows) (e : Event)
      → All-rows (out fingerprint) rows
      → contains (fingerprints (granted stale rows e)) fingerprint ≡ false
  unfolding granted
  granted-out rows (claims run_id at_ms) h =
      none_found (out fingerprint) fingerprint (is_claimable at_ms stale) rows
        (λ r k same_one. ground arith) h
  granted-out rows _ h = refl

  admits-out :
      (rows : List StoredRow) (events : List Event)
      → Keeps fingerprint (out fingerprint) fresh-out rows
      → admits stale fingerprint rows events ≡ false
  unfolding admits
  admits-out rows [] k = refl
  admits-out rows (e ∷ es) k = ground (
    arith,
    granted-out (fates rows) e (fates-Keeps fingerprint (out fingerprint) fresh-out rows k),
    admits-out (step stale rows e) es (
        step-Keeps fingerprint (out fingerprint) fresh-out stale e rows (written-out (fates rows) e)
          k),
  )

-- A human's "no" is permanent: once a stored posting is discarded, no claim gets it, whatever is
-- written to the table afterwards and in whatever order: by the methods on the fate of a posting, by
-- re-collection, by sightings and by the extraction.
pub discard_permanent :
    (stale_claim_ms : ℕ) (fingerprint : Text) (at_ms : ℕ) (reason : Option Text)
    (rows : List StoredRow) (events : List Event)
    → AreStored rows
    → any (stores fingerprint) rows ≡ true
    → admits stale_claim_ms fingerprint
        (put_fates (discard fingerprint at_ms reason (fates rows)).0 rows)
        events
      ≡ false
unfolding discard
discard_permanent stale fingerprint at_ms reason rows events s e =
    admits-out stale fingerprint _ events (
      put_fates-Keeps fingerprint (out fingerprint) (fresh-out stale fingerprint) _ rows
        (λ r. (ground arith, ground arith)) s e)
