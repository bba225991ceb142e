-- ===== src/Delivery/Cover.antt =====
-- Which rows of the delivery store a notification still has to confirm, and how the writes of the
-- repository change them.
use argos_career.Base.{
  ℕ, ◌≡◌, refl, inl, inr, Bool, true, false, not, ◌&&◌, ◌||◌, Text, same, Option, List, [], ◌∷◌,
  any, every, filter, All, All-of_Member, Member, filter-Member, any-sort, ◌==◌, if◌then◌else◌,
  arith, Bool-cases,
}
use argos_career.Persistence.Table.{update_where}
use argos_career.Persistence.DeliveryOperations.{
  Db, ChunkRow, is_confirmed, of_chunk, index_before, chunks_of, start_chunk, confirm_chunk,
}

-- The row is of another operation, is confirmed, or is still to be delivered.

abbrev pub is_covered : Text → List ChunkRow → ChunkRow → Bool
is_covered operation_id rows r =
    not (same r.operation_id operation_id)
    || (is_confirmed r.status
        || any (λ (c : ChunkRow). not (is_confirmed c.status) && (c.chunk_index == r.chunk_index))
            rows)

abbrev pub Covers : Text → List ChunkRow → List ChunkRow → Type 0
Covers operation_id rows = All (λ (r : ChunkRow). is_covered operation_id rows r ≡ true)

-- Every chunk of the operation is confirmed.
abbrev pub IsSettled : Text → Db → Type 0
IsSettled operation_id db =
    All (λ (r : ChunkRow). (not (same r.operation_id operation_id) || is_confirmed r.status) ≡ true)
      db.chunks

module _ (operation_id : Text) (row : ChunkRow) (rows : List ChunkRow) where
  pub Covers-of_confirmed :
      (rs : List ChunkRow)
      → is_confirmed row.status ≡ true
      → Covers operation_id (row ∷ rows) rs
      → Covers operation_id rows rs
  Covers-of_confirmed [] e h = tt
  Covers-of_confirmed (r ∷ rs) e h = (ground (arith, h.0), Covers-of_confirmed rs e h.1)

  Covers-update_where :
      (rest : List ChunkRow) (f : ChunkRow → ChunkRow) (rs : List ChunkRow)
      → ((r : ChunkRow)
          → is_covered operation_id (row ∷ rows) r ≡ true
          → is_covered operation_id rest
              (if of_chunk operation_id row.chunk_index r then f r else r)
            ≡ true)
      → Covers operation_id (row ∷ rows) rs
      → Covers operation_id rest (update_where (of_chunk operation_id row.chunk_index) f rs)
  Covers-update_where rest f [] k h = tt
  Covers-update_where rest f (r ∷ rs) k h = (k r h.0, Covers-update_where rest f rs k h.1)

  pub Covers-start_chunk :
      (now : ℕ) (db : Db)
      → is_confirmed row.status ≡ false
      → Covers operation_id (row ∷ rows) db.chunks
      → Covers operation_id (row ∷ rows) (start_chunk operation_id row.chunk_index now db).chunks
  unfolding start_chunk
  Covers-start_chunk now db e h =
      Covers-update_where (row ∷ rows) _ db.chunks (λ r k. ground arith) h

  pub Covers-confirm_chunk :
      (message_id : Option ℕ) (now : ℕ) (db : Db)
      → Covers operation_id (row ∷ rows) db.chunks
      → Covers operation_id rows
          (confirm_chunk operation_id row.chunk_index message_id now db).chunks
  unfolding confirm_chunk
  Covers-confirm_chunk message_id now db h =
      Covers-update_where rows _ db.chunks (λ r k. ground arith) h

any_of_Member :
    (q : ChunkRow → Bool) (rs : List ChunkRow) (r : ChunkRow)
    → Member r rs
    → q r ≡ true
    → any q rs ≡ true
any_of_Member q [] r m e = absurd m
any_of_Member q (x ∷ rs) r (inl p) e = rw (← p, e) refl
any_of_Member q (x ∷ rs) r (inr m) e = ground (arith, any_of_Member q rs r m e)

pub Covers-chunks_of :
    (operation_id : Text) (db : Db) → Covers operation_id (chunks_of db operation_id) db.chunks
unfolding chunks_of
Covers-chunks_of operation_id db = All-of_Member _ db.chunks (λ r m.
    let rows = filter (λ (x : ChunkRow). same x.operation_id operation_id) db.chunks in
    let to_deliver : ChunkRow → Bool =
      λ (c : ChunkRow). not (is_confirmed c.status) && (c.chunk_index == r.chunk_index) in
    elim (Bool-cases (same r.operation_id operation_id)) [
      | inl e ↦ elim (Bool-cases (is_confirmed r.status)) [
        | inl d ↦ ground arith
        | inr d ↦
            let found =
              any_of_Member to_deliver rows r
                (filter-Member (λ (x : ChunkRow). same x.operation_id operation_id) db.chunks m e)
                (ground arith) in
            ground (arith, any-sort index_before to_deliver rows, found)
      ]
      | inr e ↦ ground arith
    ])

pub Covers-of_every :
    (operation_id : Text) (rows rs : List ChunkRow)
    → every (λ (r : ChunkRow). is_confirmed r.status) rows ≡ true
    → Covers operation_id rows rs
    → Covers operation_id [] rs
Covers-of_every operation_id [] rs e c = c
Covers-of_every operation_id (row ∷ rows) rs e c =
    Covers-of_every operation_id rows rs (ground arith)
      (Covers-of_confirmed operation_id row rows rs (ground arith) c)
