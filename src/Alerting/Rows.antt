-- ===== src/Alerting/Rows.antt =====
-- Lists of rows with distinct ids and keys, for the queue of pending-alerts-repository.ts.
use argos_career.Base.{
  ℕ, zero, suc, ◌+◌, ◌≤◌, ◌<◌, ◌≡◌, refl, inl, inr, Bool, true, false, Bool-cases, ◌++◌, same_iff,
  List, [], ◌∷◌, any, filter, take, length, All, ◌==◌, if◌then◌else◌, arith,
}
use argos_career.Alerting.Pending.{PendingAlertRow, has_key}

abbrev pub has_id : ℕ → PendingAlertRow → Bool
has_id id r = r.id == id

-- Ids are distinct and below the next one, and no two rows have one key.
abbrev pub AreDistinct : List PendingAlertRow → Type 0
AreDistinct [] = Unit
AreDistinct (r ∷ rows) =
    (any (has_id r.id) rows ≡ false) × (any (has_key r.alert_key) rows ≡ false) × AreDistinct rows

abbrev pub AreBefore : ℕ → List PendingAlertRow → Type 0
AreBefore n rows = All (λ (r : PendingAlertRow). r.id < n) rows

any-filter :
    (p q : PendingAlertRow → Bool) (rows : List PendingAlertRow)
    → any q rows ≡ false
    → any q (filter p rows) ≡ false
any-filter p q [] h = h
any-filter p q (r ∷ rows) h = ground (arith, h, any-filter p q rows)

pub AreDistinct-filter :
    (p : PendingAlertRow → Bool) (rows : List PendingAlertRow)
    → AreDistinct rows
    → AreDistinct (filter p rows)
AreDistinct-filter p [] h = tt
AreDistinct-filter p (r ∷ rows) (i, k, h) = elim (Bool-cases (p r)) [
  | inl e ↦ rw e (any-filter p _ rows i, any-filter p _ rows k, AreDistinct-filter p rows h)
  | inr e ↦ rw e (AreDistinct-filter p rows h)
]

-- Rows with distinct ids, each the id of a row of another list, are no more than that list has.

without : ℕ → List PendingAlertRow → List PendingAlertRow
without id [] = []
without id (k ∷ kept) = if k.id == id then kept else k ∷ without id kept

length-without :
    (id : ℕ) (kept : List PendingAlertRow)
    → any (has_id id) kept ≡ true
    → suc (length (without id kept)) ≡ length kept
unfolding without
length-without id [] h = ground (arith, h)
length-without id (k ∷ kept) h = ground (arith, h, length-without id kept)

any-without :
    (id other : ℕ) (kept : List PendingAlertRow)
    → (other == id) ≡ false
    → any (has_id other) kept ≡ true
    → any (has_id other) (without id kept) ≡ true
unfolding without
any-without id other [] e h = h
any-without id other (k ∷ kept) e h = ground (arith, e, h, any-without id other kept e)

IsAmong : List PendingAlertRow → PendingAlertRow → Type 0
IsAmong kept r = any (has_id r.id) kept ≡ true

All-without :
    (id : ℕ) (kept rows : List PendingAlertRow)
    → any (has_id id) rows ≡ false
    → All (λ (r : PendingAlertRow). any (has_id r.id) kept ≡ true) rows
    → All (λ (r : PendingAlertRow). any (has_id r.id) (without id kept) ≡ true) rows
All-without id kept [] n h = tt
All-without id kept (r ∷ rows) n h = (
  any-without id r.id kept (ground (arith, n)) h.0,
  All-without id kept rows (ground (arith, n)) h.1,
)

pub length_among :
    (rows kept : List PendingAlertRow)
    → AreDistinct rows
    → All (λ (r : PendingAlertRow). any (has_id r.id) kept ≡ true) rows
    → length rows ≤ length kept
length_among [] kept d h = omega arith
length_among (r ∷ rows) kept (i, k, d) h = omega (
  arith,
  length-without r.id kept h.0,
  length_among rows (without r.id kept) d (All-without r.id kept rows i h.1),
)

pub All-filtered :
    (p : PendingAlertRow → Bool) (rows : List PendingAlertRow)
    → All (λ (r : PendingAlertRow). p r ≡ true) (filter p rows)
All-filtered p [] = tt
All-filtered p (r ∷ rows) = elim (Bool-cases (p r)) [
  | inl e ↦ rw e (e, All-filtered p rows)
  | inr e ↦ rw e (All-filtered p rows)
]

pub length-take : (n : ℕ) (rows : List PendingAlertRow) → length (take n rows) ≤ n
length-take zero rows = omega arith
length-take (suc n) [] = omega arith
length-take (suc n) (r ∷ rows) = omega (arith, length-take n rows)

pub length-filter :
    (p : PendingAlertRow → Bool) (rows : List PendingAlertRow)
    → length (filter p rows) ≤ length rows
length-filter p [] = omega arith
length-filter p (r ∷ rows) = ground (arith, length-filter p rows)

any-append_one :
    (p : PendingAlertRow → Bool) (rows : List PendingAlertRow) (r : PendingAlertRow)
    → any p rows ≡ false
    → p r ≡ false
    → any p (rows ++ (r ∷ [])) ≡ false
any-append_one p [] r h e = ground (arith, e)
any-append_one p (q ∷ rows) r h e = ground (arith, h, any-append_one p rows r)

pub AreDistinct-append_one :
    (rows : List PendingAlertRow) (r : PendingAlertRow)
    → AreDistinct rows
    → AreBefore r.id rows
    → any (has_key r.alert_key) rows ≡ false
    → AreDistinct (rows ++ (r ∷ []))
AreDistinct-append_one [] r d b k = (refl, refl, tt)
AreDistinct-append_one (q ∷ rows) r (i, keys, d) b k = (
  any-append_one (has_id q.id) rows r i (ground (arith, b.0)),
  any-append_one (has_key q.alert_key) rows r keys
      (ground (arith, k, same_iff q.alert_key r.alert_key, same_iff r.alert_key q.alert_key)),
  AreDistinct-append_one rows r d b.1 (ground (arith, k)),
)

pub AreBefore-append_one :
    (n : ℕ) (rows : List PendingAlertRow) (r : PendingAlertRow)
    → AreBefore n rows
    → r.id ≡ n
    → AreBefore (n + 1) (rows ++ (r ∷ []))
AreBefore-append_one n [] r b e = (omega (arith, e), tt)
AreBefore-append_one n (q ∷ rows) r b e = (omega (arith, b.0), AreBefore-append_one n rows r b.1 e)
