-- ===== src/Catho/Lifecycle.antt =====
-- The life of one id in the state of collectors/catho: the operations of state.ts, in the order and
-- under the guards by which collect.ts and requeue.ts call them.
use argos_career.Base.{
  ◌≡◌, refl, Text, same, same_iff, none, some, List, [], ◌∷◌, has, lookup, insert, delete,
  lookup-insert, lookup-delete, if◌then◌else◌, arith,
}
use argos_career.Catho.State.{
  collected, ingested, quarantined, CathoState, PageOutcome, entry_after, apply_page_outcome, plain,
  has_state, requeue_each, mark_ingested,
}

module _ {J : Type 0} where
  -- Each operation, read at one key.
  pub lookup-apply_page_outcome :
      (s : CathoState J) (id j : Text) (o : PageOutcome J)
      → lookup j (apply_page_outcome s id o)
        ≡ (if same id j then some (entry_after (lookup id s) o) else lookup j s)
  unfolding apply_page_outcome
  lookup-apply_page_outcome s id j o = lookup-insert id j (entry_after (lookup id s) o) s

  mark_one : CathoState J → Text → CathoState J
  mark_one s id = if has_state collected (lookup id s) then insert id (plain ingested) s else s

  lookup-mark_one :
      (s : CathoState J) (id j : Text)
      → lookup j (mark_one s id) ≡ (
          if same id j
          then (if has_state collected (lookup j s) then some (plain ingested) else lookup j s)
          else lookup j s)
  unfolding mark_one
  lookup-mark_one s id j = ground (arith, same_iff id j, lookup-insert id j (plain ingested) s)

  pub lookup-mark_ingested :
      (s : CathoState J) (ids : List Text) (j : Text)
      → lookup j (mark_ingested s ids) ≡ (
          if has ids j
          then (if has_state collected (lookup j s) then some (plain ingested) else lookup j s)
          else lookup j s)
  unfolding mark_ingested has mark_one
  lookup-mark_ingested s [] j = refl
  lookup-mark_ingested s (id ∷ ids) j =
      rw (lookup-mark_ingested (mark_one s id) ids j) (rw (lookup-mark_one s id j) (ground arith))

  requeue_one : CathoState J → Text → CathoState J
  requeue_one s id = if has_state quarantined (lookup id s) then delete id s else s

  lookup-requeue_one :
      (s : CathoState J) (id j : Text)
      → lookup j (requeue_one s id) ≡ (
          if same id j
          then (if has_state quarantined (lookup j s) then none else lookup j s)
          else lookup j s)
  unfolding requeue_one
  lookup-requeue_one s id j = ground (arith, same_iff id j, lookup-delete id j s)

  pub lookup-requeue_each :
      (s : CathoState J) (ids : List Text) (j : Text)
      → lookup j (requeue_each s ids).0 ≡ (
          if has ids j
          then (if has_state quarantined (lookup j s) then none else lookup j s)
          else lookup j s)
  unfolding requeue_each has requeue_one
  lookup-requeue_each s [] j = refl
  lookup-requeue_each s (id ∷ ids) j =
      rw (lookup-requeue_each (requeue_one s id) ids j)
        (rw (lookup-requeue_one s id j) (ground arith))
