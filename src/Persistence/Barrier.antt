-- ===== src/Persistence/Barrier.antt =====
-- The admission barrier of postings-repository.ts: what a claim for scoring excludes, and what the
-- release at the end of a run gives back.
use argos_career.Base.{
  ℕ, ◌+◌, ◌≤◌, ◌≡◌, refl, ap, inl, inr, Bool, true, false, not, ◌&&◌, ◌||◌, Text, same, same_iff,
  same_refl, contains, Option, none, some, is_some, List, [], ◌∷◌, filter, any, All, Member, map,
  ◌==◌, if◌then◌else◌, arith, Option-cases,
}
use mathlib.Core.Path.{subst}
use argos_career.Persistence.Postings.{
  PostingRow, Rows, is_run, is_outstanding, is_claimable, fingerprints, claim_for_scoring,
  release_unresolved_claims,
}
use argos_career.Persistence.Upsert.{StoredRow, stores, fresh_fate}
use argos_career.Persistence.Writes.{
  Event, claims, releases, notifies, fails, clears, rescores, unmarks, restores, discards, applies,
  duplicates, clears_flags, fates, put_fates, step, granted, admits, written, All-rows,
}
use argos_career.Persistence.Keeping.{
  none_found, AreStored, Keeps, fates-Keeps, step-Keeps, put_fates-Keeps,
}

abbrev pub is_at : Option ℕ → ℕ → Bool
is_at none t = false
is_at (some u) t = u == t

-- A posting with a claim of this run and time.
abbrev pub held : Text → ℕ → Text → PostingRow → Bool
held run_id t fingerprint r =
    not (same r.fingerprint fingerprint)
    || (is_at r.scoring_claimed_at t && is_run r.scoring_claim_run_id run_id)

-- What may happen while the run is at work: any write, but no claim after the given time, no release
-- of the run's own claims, and no rescore of the posting.
abbrev pub IsForeign : Text → ℕ → Text → Event → Type 0
IsForeign run_id limit fingerprint (claims other at_ms) = at_ms ≤ limit
IsForeign run_id limit fingerprint (releases other) = same run_id other ≡ false
IsForeign run_id limit fingerprint (rescores other) = same fingerprint other ≡ false
IsForeign run_id limit fingerprint _ = Unit

module _ (stale : ℕ) (run_id : Text) (t : ℕ) (fingerprint : Text) where
  fresh-held :
      (other : Text)
      → same other fingerprint ≡ false
      → held run_id t fingerprint (fresh_fate other) ≡ true
  fresh-held other e = ground (arith, e)

  granted-held :
      (rows : Rows) (e : Event)
      → IsForeign run_id (t + stale) fingerprint e
      → All-rows (held run_id t fingerprint) rows
      → contains (fingerprints (granted stale rows e)) fingerprint ≡ false
  unfolding granted
  granted-held rows (claims other at_ms) early h =
      none_found (held run_id t fingerprint) fingerprint (is_claimable at_ms stale) rows
        (λ r k same_one. ground arith) h
  granted-held rows _ early h = refl

  written-held :
      (rows : Rows) (e : Event) (r : PostingRow)
      → IsForeign run_id (t + stale) fingerprint e
      → contains (fingerprints (granted stale rows e)) fingerprint ≡ false
      → held run_id t fingerprint r ≡ true
      → held run_id t fingerprint (written stale rows e r) ≡ true
  unfolding written granted
  written-held rows (claims other at_ms) r foreign none_granted h =
      ground (arith, same_iff r.fingerprint fingerprint)
  written-held rows (releases other) r foreign none_granted h =
      elim (Option-cases r.scoring_claim_run_id) [
        | inl e ↦ ground arith
        | inr (holder, e) ↦ ground (arith, same_iff holder run_id)
      ]
  written-held rows (rescores other) r foreign none_granted h = ground (
    arith,
    same_iff r.fingerprint fingerprint,
    same_iff r.fingerprint other,
    same_iff fingerprint other,
  )
  written-held rows (notifies them at_ms) r foreign none_granted h = ground arith
  written-held rows (fails f at_ms) r foreign none_granted h = ground arith
  written-held rows (clears f) r foreign none_granted h = ground arith
  written-held rows (unmarks f) r foreign none_granted h = ground arith
  written-held rows (restores f) r foreign none_granted h = ground arith
  written-held rows (discards f at_ms reason) r foreign none_granted h = ground arith
  written-held rows (applies f at_ms) r foreign none_granted h = ground arith
  written-held rows (duplicates f of) r foreign none_granted h = ground arith
  written-held rows clears_flags r foreign none_granted h = ground arith
  written-held rows _ r foreign none_granted h = h

  admits-held :
      (rows : List StoredRow) (events : List Event)
      → All (IsForeign run_id (t + stale) fingerprint) events
      → Keeps fingerprint (held run_id t fingerprint) fresh-held rows
      → admits stale fingerprint rows events ≡ false
  unfolding admits
  admits-held rows [] foreign k = refl
  admits-held rows (e ∷ es) foreign k =
      let nothing =
        granted-held (fates rows) e foreign.0
          (fates-Keeps fingerprint (held run_id t fingerprint) fresh-held rows k) in
      let kept =
        step-Keeps fingerprint (held run_id t fingerprint) fresh-held stale e rows
          (λ r h. written-held (fates rows) e r foreign.0 nothing h) k in
      ground (arith, nothing, admits-held (step stale rows e) es foreign.1 kept)

  any-contains :
      (p : PostingRow → Bool) (rows : List StoredRow)
      → AreStored rows
      → contains (fingerprints (filter p (fates rows))) fingerprint ≡ true
      → any (stores fingerprint) rows ≡ true
  any-contains p [] s h = absurd (ground (arith, h))
  any-contains p (x ∷ rows) s h = ground (
    arith,
    h,
    s.0,
    same_iff x.content.fingerprint x.fate.fingerprint,
    same_iff x.content.fingerprint fingerprint,
    same_iff x.fate.fingerprint fingerprint,
    any-contains p rows s.1,
  )

  -- The barrier: a posting that a claim has given to a run is given to no other, until the claim is
  -- stale, whatever else is written to the table, in any order, by the methods on the fate of a
  -- posting, by re-collection, by sightings or by the extraction, save a release of the run's own
  -- claims and a rescore of the posting.
  pub claim_for_scoring_exclusive :
      (rows : List StoredRow) (events : List Event)
      → AreStored rows
      → contains (fingerprints (claim_for_scoring run_id t stale (fates rows)).1) fingerprint ≡ true
      → All (IsForeign run_id (t + stale) fingerprint) events
      → admits stale fingerprint
          (put_fates (claim_for_scoring run_id t stale (fates rows)).0 rows)
          events
        ≡ false
  unfolding claim_for_scoring
  claim_for_scoring_exclusive rows events s in_found foreign = admits-held _ events foreign (
      put_fates-Keeps fingerprint (held run_id t fingerprint) fresh-held _ rows
        (λ r. (
          ground arith,
          ground (arith, same_iff r.fingerprint fingerprint, same_refl run_id, in_found),
        ))
        s (any-contains (is_claimable t stale) rows s in_found))

contains_of_Member :
    (p : PostingRow → Bool) (rows : Rows) (r : PostingRow)
    → Member r rows
    → p r ≡ true
    → contains (fingerprints (filter p rows)) r.fingerprint ≡ true
contains_of_Member p [] r m e = absurd m
contains_of_Member p (x ∷ rows) r (inl q) e = rw (← q, e) (ground (arith, same_refl r.fingerprint))
contains_of_Member p (x ∷ rows) r (inr m) e = ground (arith, contains_of_Member p rows r m e)

Member-map :
    (g : PostingRow → PostingRow) (rows : Rows) (r : PostingRow)
    → Member r rows
    → Member (g r) (map g rows)
Member-map g [] r m = absurd m
Member-map g (x ∷ rows) r (inl q) = inl (ap g q)
Member-map g (x ∷ rows) r (inr m) = inr (Member-map g rows r m)

-- After the release at the end of a run, each posting that the run still held, and that is neither
-- notified, discarded nor a duplicate, is given to whoever claims next, at any time.
pub release_unresolved_claims_reopens :
    (run_id other : Text) (at_ms stale : ℕ) (rows : Rows) (r : PostingRow)
    → Member r rows
    → is_run r.scoring_claim_run_id run_id ≡ true
    → is_outstanding r ≡ true
    → contains
        (fingerprints
          (claim_for_scoring other at_ms stale (release_unresolved_claims run_id rows)).1)
        r.fingerprint
      ≡ true
unfolding claim_for_scoring release_unresolved_claims
release_unresolved_claims_reopens run_id other at_ms stale rows r m holder outstanding =
    let freed : PostingRow = record r { scoring_claimed_at = none; scoring_claim_run_id = none } in
    let free : PostingRow → PostingRow = λ (x : PostingRow).
      if is_run x.scoring_claim_run_id run_id && not (is_some x.notified_at)
      then record x { scoring_claimed_at = none; scoring_claim_run_id = none }
      else x in
    let is_freed : free r ≡ freed = ground arith in
    contains_of_Member (is_claimable at_ms stale) (map free rows) freed
      (subst (λ x. Member x (map free rows)) is_freed (Member-map free rows r m)) (ground arith)
