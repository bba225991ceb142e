-- ===== src/Persistence/Sightings.antt =====
-- What re-collecting postings does to the rows of postings-repository.ts.
use argos_career.Base.{
  ℕ, ◌+◌, ◌≡◌, refl, ap, inl, inr, Bool, true, not, ◌||◌, Text, same, same_iff, Option, is_some,
  List, [], ◌∷◌, ◌++◌, any, filter, length, Member, map, if◌then◌else◌, leb, arith, Bool-cases,
}
use argos_career.Posting.Posting.{Posting}
use argos_career.Persistence.Upsert.{StoredRow, stores, resighted, inserted, upsert, upsert_many}

-- Of a column: a fact is not lost.

abbrev pub kept_fact : {A : Type 0} → Option A → Option A → Bool
kept_fact before after = not (is_some before) || is_some after

-- The row is still there: its fingerprint, its first sighting and its fate, and no optional fact is
-- lost.
pub record Persists (r s : StoredRow) : Type 0 where
  pub fingerprint_kept : s.content.fingerprint ≡ r.content.fingerprint
  pub first_seen_kept : s.content.first_seen_at ≡ r.content.first_seen_at
  pub fate_kept : s.fate ≡ r.fate
  pub seniority_kept : kept_fact r.content.seniority s.content.seniority ≡ true
  pub experience_kept : kept_fact r.content.experience_years s.content.experience_years ≡ true
  pub deadline_kept : kept_fact r.content.application_deadline s.content.application_deadline ≡ true
  pub publication_kept : kept_fact r.content.published_at s.content.published_at ≡ true
  pub url_kept : kept_fact r.content.source_url s.content.source_url ≡ true
  pub description_kept : kept_fact r.content.description s.content.description ≡ true
  pub country_kept : kept_fact r.content.country s.content.country ≡ true

Persists-refl : (r : StoredRow) → Persists r r
Persists-refl r = ground arith

Persists-trans : (r s t : StoredRow) → Persists r s → Persists s t → Persists r t
Persists-trans r s t h k = ground arith

Persists-resighted : (p : Posting) (r : StoredRow) → Persists r (resighted p r)
unfolding resighted
Persists-resighted p r = ground arith

Member-map :
    (g : StoredRow → StoredRow) (rows : List StoredRow) (r : StoredRow)
    → Member r rows
    → Member (g r) (map g rows)
Member-map g [] r m = absurd m
Member-map g (x ∷ rows) r (inl q) = inl (ap g q)
Member-map g (x ∷ rows) r (inr m) = inr (Member-map g rows r m)

Member-append :
    (rows others : List StoredRow) (r : StoredRow) → Member r rows → Member r (rows ++ others)
Member-append [] others r m = absurd m
Member-append (x ∷ rows) others r (inl q) = inl q
Member-append (x ∷ rows) others r (inr m) = inr (Member-append rows others r m)

Persists-written :
    (p : Posting) (r : StoredRow) → Persists r (if stores p.fingerprint r then resighted p r else r)
Persists-written p r = elim (Bool-cases (stores p.fingerprint r)) [
  | inl e ↦ rw e (Persists-resighted p r)
  | inr e ↦ rw e (Persists-refl r)
]

upsert_keeps :
    (p : Posting) (rows : List StoredRow) (r : StoredRow)
    → Member r rows
    → (s : StoredRow) × Member s (upsert p rows).0 × Persists r s
unfolding upsert
upsert_keeps p rows r m =
    let g : StoredRow → StoredRow =
      λ (x : StoredRow). if stores p.fingerprint x then resighted p x else x in
    elim (Bool-cases (any (stores p.fingerprint) rows)) [
      | inl e ↦ rw (upsert, e) (g r, Member-map g rows r m, Persists-written p r)
      | inr e ↦ rw (upsert, e) (r, Member-append rows (inserted p ∷ []) r m, Persists-refl r)
    ]

-- Re-collecting any postings, in any order, loses no row: its first sighting and its fate stay as
-- they are, and an optional fact that is known stays known.
pub upsert_many_keeps :
    (ps : List Posting) (rows : List StoredRow) (r : StoredRow)
    → Member r rows
    → (s : StoredRow) × Member s (upsert_many ps rows).0 × Persists r s
unfolding upsert_many
upsert_many_keeps [] rows r m = (r, m, Persists-refl r)
upsert_many_keeps (p ∷ ps) rows r m =
    let (s, ms, first) = upsert_keeps p rows r m in
    let (t, mt, rest) = upsert_many_keeps ps (upsert p rows).0 s ms in
    (t, mt, Persists-trans r s t first rest)

-- How many rows have a fingerprint.
abbrev pub rows_with : Text → List StoredRow → ℕ
rows_with fingerprint rows = length (filter (stores fingerprint) rows)

rows_with-map :
    (fingerprint : Text) (g : StoredRow → StoredRow) (rows : List StoredRow)
    → ((r : StoredRow) → (g r).content.fingerprint ≡ r.content.fingerprint)
    → rows_with fingerprint (map g rows) ≡ rows_with fingerprint rows
rows_with-map fingerprint g [] h = refl
rows_with-map fingerprint g (r ∷ rows) h = ground (arith, h r, rows_with-map fingerprint g rows h)

rows_with-append :
    (fingerprint : Text) (rows others : List StoredRow)
    → rows_with fingerprint (rows ++ others)
      ≡ rows_with fingerprint rows + rows_with fingerprint others
rows_with-append fingerprint [] others = omega arith
rows_with-append fingerprint (r ∷ rows) others =
    ground (arith, rows_with-append fingerprint rows others)

any-rows_with :
    (fingerprint : Text) (rows : List StoredRow)
    → any (stores fingerprint) rows ≡ leb 1 (rows_with fingerprint rows)
any-rows_with fingerprint [] = refl
any-rows_with fingerprint (r ∷ rows) = ground (arith, any-rows_with fingerprint rows)

fingerprint-written :
    (p : Posting) (r : StoredRow)
    → (if stores p.fingerprint r then resighted p r else r).content.fingerprint
      ≡ r.content.fingerprint
unfolding resighted
fingerprint-written p r = ground arith

rows_with-upsert :
    (p : Posting) (fingerprint : Text) (rows : List StoredRow)
    → rows_with fingerprint (upsert p rows).0 ≡ (
        if leb 1 (rows_with fingerprint rows)
        then rows_with fingerprint rows
        else if same p.fingerprint fingerprint
        then 1
        else 0)
unfolding upsert inserted
rows_with-upsert p fingerprint rows = ground (
  arith,
  same_iff p.fingerprint fingerprint,
  any-rows_with p.fingerprint rows,
  rows_with-append fingerprint rows (inserted p ∷ []),
  rows_with-map fingerprint (λ (x : StoredRow). if stores p.fingerprint x then resighted p x else x)
      rows (fingerprint-written p),
)

-- Re-collecting any postings, in any order and with repetitions, adds one row for each fingerprint
-- that the table did not have, and none for one that it had.
pub rows_with-upsert_many :
    (ps : List Posting) (fingerprint : Text) (rows : List StoredRow)
    → rows_with fingerprint (upsert_many ps rows).0 ≡ (
        if leb 1 (rows_with fingerprint rows)
        then rows_with fingerprint rows
        else if any (λ (p : Posting). same p.fingerprint fingerprint) ps
        then 1
        else 0)
unfolding upsert_many
rows_with-upsert_many [] fingerprint rows = ground arith
rows_with-upsert_many (p ∷ ps) fingerprint rows = ground (
  arith,
  rows_with-upsert p fingerprint rows,
  rows_with-upsert_many ps fingerprint (upsert p rows).0,
)
