-- ===== src/Persistence/Claims.antt =====
-- That the lease of delivery-operations-repository.ts excludes other workers.
use argos_career.Base.{
  ℕ, ◌+◌, ◌≤◌, ◌≡◌, refl, ap, inl, inr, Bool, true, false, Text, same, some, List, [], ◌∷◌, filter,
  length, arith, Bool-cases,
}
use argos_career.Persistence.Table.{update_where}
use argos_career.Persistence.DeliveryOperations.{
  Db, OperationRow, operation_in_progress, of_operation, claimable, claim,
}

-- The operation has one row at most, as the primary key says.

abbrev pub IsKeyed : Text → Db → Type 0
IsKeyed operation_id db = length (filter (of_operation operation_id) db.operations) ≤ 1

module _ (operation_id a b : Text) (now later lease_ms : ℕ) where
  claimed_row : OperationRow → OperationRow
  claimed_row r = record r {
    claimed_by = some a;
    claim_expires_at = some (now + lease_ms);
    operation_status = operation_in_progress;
    updated_at = now;
  }

  claimed_rows : List OperationRow → List OperationRow
  unfolding claimed_row
  claimed_rows = update_where (claimable operation_id a now) claimed_row

  no_rows :
      (rs : List OperationRow)
      → length (filter (of_operation operation_id) rs) ≡ 0
      → (filter (claimable operation_id b later) (claimed_rows rs) ≡ [])
        × (length (filter (claimable operation_id a now) rs) ≡ 0)
  unfolding claimed_rows
  no_rows [] h = (refl, refl)
  no_rows (r ∷ rs) h = ground (arith, no_rows rs)

  none_claimable :
      (rs : List OperationRow)
      → length (filter (of_operation operation_id) rs) ≤ 1
      → length (filter (claimable operation_id a now) rs) ≡ 1
      → same a b ≡ false
      → later ≤ now + lease_ms
      → filter (claimable operation_id b later) (claimed_rows rs) ≡ []
  unfolding claimed_rows claimed_row
  none_claimable [] keyed once differ early = refl
  none_claimable (r ∷ rs) keyed once differ early =
      elim (Bool-cases (of_operation operation_id r)) [
        | inl e ↦ ground (arith, no_rows rs)
        | inr e ↦ ground (arith, none_claimable rs)
      ]

untouched :
    (p : OperationRow → Bool) (f : OperationRow → OperationRow) (rs : List OperationRow)
    → filter p rs ≡ []
    → update_where p f rs ≡ rs
untouched p f [] h = refl
untouched p f (r ∷ rs) h = elim (Bool-cases (p r)) [
  | inl e ↦ absurd (ground arith)
  | inr e ↦ rw e (ap (λ t. r ∷ t) (untouched p f rs (ground arith)))
]

-- Of an operation with one row at most: right after a worker has got it, and until its lease is
-- over, no other worker gets it, and the attempt changes nothing.
pub claim_exclusive :
    (operation_id a b : Text) (now later lease_ms other_lease_ms : ℕ) (db : Db)
    → IsKeyed operation_id db
    → (claim operation_id a now lease_ms db).1 ≡ true
    → same a b ≡ false
    → later ≤ now + lease_ms
    → claim operation_id b later other_lease_ms (claim operation_id a now lease_ms db).0
      ≡ ((claim operation_id a now lease_ms db).0, false)
unfolding claim claimed_rows claimed_row
claim_exclusive operation_id a b now later lease_ms other_lease_ms db keyed won differ early =
    let empty =
      none_claimable operation_id a b now later lease_ms db.operations keyed (ground arith) differ
        early in
    rw (untouched _ _ _ empty) (rw empty refl)
