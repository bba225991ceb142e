-- ===== src/Persistence/Keeping.antt =====
-- That what holds of a stored posting's fate goes on to hold: the writes of postings-repository.ts
-- keep its row, and a re-collection adds no second one.
use argos_career.Base.{
  ℕ, ◌≡◌, refl, sym, ap, inl, inr, Bool, true, false, ◌&&◌, Text, same, same_iff, same_refl,
  contains, List, [], ◌∷◌, ◌++◌, any, filter, All, map, if◌then◌else◌, arith, Bool-cases,
}
use mathlib.Core.Path.{subst}
use argos_career.Posting.Posting.{Posting}
use argos_career.Persistence.Postings.{PostingRow, Rows, fingerprints}
use argos_career.Persistence.Upsert.{
  StoredRow, stores, fresh_fate, resighted, inserted, upsert, upsert_many,
}
use argos_career.Persistence.Writes.{
  Event, claims, releases, notifies, fails, clears, rescores, unmarks, restores, discards, applies,
  duplicates, clears_flags, collects, sees, extracts, fates, put_fates, step, written, All-rows,
}

pub none_found :
    (q : PostingRow → Bool) (fingerprint : Text) (p : PostingRow → Bool) (rows : Rows)
    → ((r : PostingRow) → q r ≡ true → same r.fingerprint fingerprint ≡ true → p r ≡ false)
    → All-rows q rows
    → contains (fingerprints (filter p rows)) fingerprint ≡ false
none_found q fingerprint p [] k h = refl
none_found q fingerprint p (r ∷ rows) k h =
    ground (arith, k r h.0, none_found q fingerprint p rows k h.1)

-- The two parts of a row carry one fingerprint.
abbrev pub AreStored : List StoredRow → Type 0
AreStored = All (λ (s : StoredRow). same s.content.fingerprint s.fate.fingerprint ≡ true)

abbrev refate : (PostingRow → PostingRow) → StoredRow → StoredRow
refate g s = record s { fate = g s.fate }

put_fates-map :
    (g : PostingRow → PostingRow) (rows : List StoredRow)
    → put_fates (map g (fates rows)) rows ≡ map (refate g) rows
put_fates-map g [] = refl
put_fates-map g (s ∷ rows) = ap (◌∷◌ (record s { fate = g s.fate })) (put_fates-map g rows)

fingerprint-written :
    (stale : ℕ) (rows : Rows) (e : Event) (r : PostingRow)
    → (written stale rows e r).fingerprint ≡ r.fingerprint
unfolding written
fingerprint-written stale rows (claims run_id at_ms) r = ground arith
fingerprint-written stale rows (releases run_id) r = ground arith
fingerprint-written stale rows (notifies them at_ms) r = ground arith
fingerprint-written stale rows (fails f at_ms) r = ground arith
fingerprint-written stale rows (clears f) r = ground arith
fingerprint-written stale rows (rescores f) r = ground arith
fingerprint-written stale rows (unmarks f) r = ground arith
fingerprint-written stale rows (restores f) r = ground arith
fingerprint-written stale rows (discards f at_ms reason) r = ground arith
fingerprint-written stale rows (applies f at_ms) r = ground arith
fingerprint-written stale rows (duplicates f of) r = ground arith
fingerprint-written stale rows clears_flags r = ground arith
fingerprint-written stale rows _ r = refl

module _ (fingerprint : Text) (q : PostingRow → Bool)
    (fresh : (other : Text) → same other fingerprint ≡ false → q (fresh_fate other) ≡ true) where
  abbrev pub is_kept : StoredRow → Bool
  is_kept s = same s.content.fingerprint s.fate.fingerprint && q s.fate

  -- The posting has a row, and `q` holds of every fate.
  pub record Keeps (rows : List StoredRow) : Type 0 where
    pub stored : any (stores fingerprint) rows ≡ true
    pub kept : All (λ (s : StoredRow). is_kept s ≡ true) rows

  pub fates-Keeps : (rows : List StoredRow) → Keeps rows → All-rows q (fates rows)
  fates-Keeps rows k = go rows k.kept
    where
      go :
          (ss : List StoredRow)
          → All (λ (s : StoredRow). is_kept s ≡ true) ss
          → All-rows q (fates ss)
      go [] h = tt
      go (s ∷ ss) h = (ground (arith, h.0), go ss h.1)

  map-Keeps :
      (g : StoredRow → StoredRow)
      → ((s : StoredRow) → (g s).content.fingerprint ≡ s.content.fingerprint)
      → ((s : StoredRow) → is_kept s ≡ true → is_kept (g s) ≡ true)
      → (rows : List StoredRow) → Keeps rows
      → Keeps (map g rows)
  map-Keeps g one h rows k = record { stored = found rows k.stored; kept = all rows k.kept }
    where
      found :
          (ss : List StoredRow)
          → any (stores fingerprint) ss ≡ true
          → any (stores fingerprint) (map g ss) ≡ true
      found [] e = e
      found (s ∷ ss) e = ground (arith, e, one s, found ss)

      all :
          (ss : List StoredRow)
          → All (λ (s : StoredRow). is_kept s ≡ true) ss
          → All (λ (s : StoredRow). is_kept s ≡ true) (map g ss)
      all [] e = tt
      all (s ∷ ss) e = (h s e.0, all ss e.1)

  append-Keeps :
      (s : StoredRow)
      → is_kept s ≡ true
      → (rows : List StoredRow) → Keeps rows
      → Keeps (rows ++ (s ∷ []))
  append-Keeps s e rows k = record { stored = found rows k.stored; kept = all rows k.kept }
    where
      found :
          (ss : List StoredRow)
          → any (stores fingerprint) ss ≡ true
          → any (stores fingerprint) (ss ++ (s ∷ [])) ≡ true
      found [] h = absurd (ground (arith, h))
      found (r ∷ ss) h = ground (arith, h, found ss)

      all :
          (ss : List StoredRow)
          → All (λ (x : StoredRow). is_kept x ≡ true) ss
          → All (λ (x : StoredRow). is_kept x ≡ true) (ss ++ (s ∷ []))
      all [] h = (e, tt)
      all (r ∷ ss) h = (h.0, all ss h.1)

  other_one :
      (p : Text) (rows : List StoredRow)
      → any (stores p) rows ≡ false
      → any (stores fingerprint) rows ≡ true
      → same p fingerprint ≡ false
  other_one p rows absent present = elim (Bool-cases (same p fingerprint)) [
    | inl e ↦ absurd (
        ground
          (arith, absent, present, ap (λ t. any (stores t) rows) ((same_iff p fingerprint).0 e)))
    | inr e ↦ e
  ]

  upsert-Keeps : (p : Posting) (rows : List StoredRow) → Keeps rows → Keeps (upsert p rows).0
  unfolding upsert
  upsert-Keeps p rows k = elim (Bool-cases (any (stores p.fingerprint) rows)) [
    | inl e ↦
        rw (upsert, e)
          (map-Keeps (λ s. if stores p.fingerprint s then resighted p s else s) one whole rows k)
    | inr e ↦
        rw (upsert, e)
          (append-Keeps (inserted p) (new (other_one p.fingerprint rows e k.stored)) rows k)
  ]
    where
      one :
          (s : StoredRow)
          → (if stores p.fingerprint s then resighted p s else s).content.fingerprint
            ≡ s.content.fingerprint
      one s = ground (arith, resighted)

      whole :
          (s : StoredRow)
          → is_kept s ≡ true
          → is_kept (if stores p.fingerprint s then resighted p s else s) ≡ true
      whole s h = ground (arith, h)

      new : same p.fingerprint fingerprint ≡ false → is_kept (inserted p) ≡ true
      new e = ground (arith, same_refl p.fingerprint, fresh p.fingerprint e)

  upsert_many-Keeps :
      (ps : List Posting) (rows : List StoredRow) → Keeps rows → Keeps (upsert_many ps rows).0
  unfolding upsert_many
  upsert_many-Keeps [] rows k = k
  upsert_many-Keeps (p ∷ ps) rows k = upsert_many-Keeps ps (upsert p rows).0 (upsert-Keeps p rows k)

  module _ (stale : ℕ) where
    refated-Keeps :
        (e : Event) (rows : List StoredRow)
        → ((r : PostingRow) → q r ≡ true → q (written stale (fates rows) e r) ≡ true)
        → Keeps rows
        → Keeps (put_fates (map (written stale (fates rows) e) (fates rows)) rows)
    refated-Keeps e rows h k =
        subst Keeps (sym (put_fates-map (written stale (fates rows) e) rows))
          (map-Keeps (refate (written stale (fates rows) e)) one whole rows k)
      where
        one :
            (s : StoredRow)
            → (refate (written stale (fates rows) e) s).content.fingerprint ≡ s.content.fingerprint
        one s = refl

        whole :
            (s : StoredRow)
            → is_kept s ≡ true
            → is_kept (refate (written stale (fates rows) e) s) ≡ true
        whole s g = ground (
          arith,
          g,
          h s.fate,
          ap (λ t. same s.content.fingerprint t) (fingerprint-written stale (fates rows) e s.fate),
        )

    -- Each write keeps what `q` says, if it does so of each fate.
    pub step-Keeps :
        (e : Event) (rows : List StoredRow)
        → ((r : PostingRow) → q r ≡ true → q (written stale (fates rows) e r) ≡ true)
        → Keeps rows
        → Keeps (step stale rows e)
    unfolding step written
    step-Keeps (claims run_id at_ms) rows h k = refated-Keeps (claims run_id at_ms) rows h k
    step-Keeps (releases run_id) rows h k = refated-Keeps (releases run_id) rows h k
    step-Keeps (notifies them at_ms) rows h k = refated-Keeps (notifies them at_ms) rows h k
    step-Keeps (fails f at_ms) rows h k = refated-Keeps (fails f at_ms) rows h k
    step-Keeps (clears f) rows h k = refated-Keeps (clears f) rows h k
    step-Keeps (rescores f) rows h k = refated-Keeps (rescores f) rows h k
    step-Keeps (unmarks f) rows h k = refated-Keeps (unmarks f) rows h k
    step-Keeps (restores f) rows h k = refated-Keeps (restores f) rows h k
    step-Keeps (discards f at_ms reason) rows h k = refated-Keeps (discards f at_ms reason) rows h k
    step-Keeps (applies f at_ms) rows h k = refated-Keeps (applies f at_ms) rows h k
    step-Keeps (duplicates f of) rows h k = refated-Keeps (duplicates f of) rows h k
    step-Keeps clears_flags rows h k = refated-Keeps clears_flags rows h k
    step-Keeps (collects ps) rows h k = upsert_many-Keeps ps rows k
    step-Keeps (sees f at_ms) rows h k =
        map-Keeps _ (λ s. ground arith) (λ s g. ground (arith, g)) rows k
    step-Keeps (extracts f seniority experience_years) rows h k =
        map-Keeps _ (λ s. ground arith) (λ s g. ground (arith, g)) rows k

-- A stored posting of a table in which each fate has `q` after a write to the fates.
pub put_fates-Keeps :
    (fingerprint : Text) (q : PostingRow → Bool)
    (fresh : (other : Text) → same other fingerprint ≡ false → q (fresh_fate other) ≡ true)
    (g : PostingRow → PostingRow) (rows : List StoredRow)
    → ((r : PostingRow) → ((g r).fingerprint ≡ r.fingerprint) × (q (g r) ≡ true))
    → AreStored rows
    → any (stores fingerprint) rows ≡ true
    → Keeps fingerprint q fresh (put_fates (map g (fates rows)) rows)
put_fates-Keeps fingerprint q fresh g rows h s e =
    subst (Keeps fingerprint q fresh) (sym (put_fates-map g rows))
      (record { stored = found rows e; kept = all rows s })
  where
    found :
        (ss : List StoredRow)
        → any (stores fingerprint) ss ≡ true
        → any (stores fingerprint) (map (refate g) ss) ≡ true
    found [] k = k
    found (x ∷ ss) k = ground (arith, k, found ss)

    all :
        (ss : List StoredRow)
        → AreStored ss
        → All (λ (x : StoredRow). is_kept fingerprint q fresh x ≡ true) (map (refate g) ss)
    all [] k = tt
    all (x ∷ ss) k = (
      ground (arith, h x.fate, k.0, ap (λ t. same x.content.fingerprint t) (h x.fate).0),
      all ss k.1,
    )
