-- ===== src/Scheduling/Exclusion.antt =====
-- Mutual exclusion of run-lock.ts, over every interleaving of starts, ends and cancels.
use argos_career.Base.{
  ℕ, ◌+◌, ◌-◌, ◌≤◌, ◌≡◌, refl, ◌⊎◌, inl, inr, Bool, true, false, Text, same, same_iff, List, [],
  ◌∷◌, has, has-include, has-exclude, if◌then◌else◌, arith, Bool-cases,
}
use argos_career.Scheduling.RunLock.{
  RunLock, new_lock, try_acquire, release, is_active, request_cancel, is_cancel_requested, Settled,
  busy, settle, run_exclusive,
}

-- A process: its lock, and the kind of each call of `fn` that has started and not settled.

pub record Process : Type 0 where
  pub lock : RunLock
  pub running : List Text

-- `start` is a `runExclusive` up to the call of `fn`, `settled` is its `finally`, and `cancel` a
-- request to stop.
pub data Event : Type 0 where
  start settled cancel : Text → Event

abbrev pub count : Text → List Text → ℕ
count k [] = 0
count k (j ∷ ks) = (if same j k then 1 else 0) + count k ks

abbrev pub remove_one : Text → List Text → List Text
remove_one k [] = []
remove_one k (j ∷ ks) = if same j k then ks else j ∷ remove_one k ks

start_run : Process → Text → RunLock × Bool → Process
start_run p kind (lock, acquired) =
    if acquired then record { lock = lock; running = kind ∷ p.running } else p

unfoldable pub step : Process → Event → Process
unfolding start_run try_acquire release request_cancel
step p (start kind) = start_run p kind (try_acquire p.lock kind)
step p (settled kind) =
    if has p.running kind
    then record { lock = release p.lock kind; running = remove_one kind p.running }
    else p
step p (cancel kind) = record p { lock = request_cancel p.lock kind }

unfoldable pub run : Process → List Event → Process
unfolding step
run p [] = p
run p (e ∷ es) = run (step p e) es

abbrev pub idle : Process
idle = record { lock = new_lock; running = [] }

-- The lock holds a kind exactly while one run of it is in flight, and a cancel request stands
-- only on a kind that is held.
pub record IsExclusive (p : Process) : Type 0 where
  pub held : (k : Text) → count k p.running ≡ (if is_active p.lock k then 1 else 0)
  pub requested : (k : Text) → is_cancel_requested p.lock k ≡ true → is_active p.lock k ≡ true

count-remove_one :
    (k j : Text) (ks : List Text)
    → count j (remove_one k ks) ≡ (if same k j then count j ks - 1 else count j ks)
count-remove_one k j [] = ground arith
count-remove_one k j (i ∷ ks) =
    ground (arith, same_iff k j, same_iff i k, same_iff i j, count-remove_one k j ks)

has-count : (k : Text) (ks : List Text) → has ks k ≡ true → 1 ≤ count k ks
unfolding has
has-count k [] h = cc
has-count k (j ∷ ks) h = ground (arith, has-count k ks)

start-IsExclusive : (p : Process) (kind : Text) → IsExclusive p → IsExclusive (step p (start kind))
unfolding step is_active is_cancel_requested
start-IsExclusive p kind v = record {
  held = λ k. ground (arith, v.held k, has-include p.lock.active kind k, same_iff kind k);
  requested = λ k h. ground (arith, v.requested k, has-include p.lock.active kind k);
}

settled-IsExclusive :
    (p : Process) (kind : Text) → IsExclusive p → IsExclusive (step p (settled kind))
unfolding step is_active is_cancel_requested
settled-IsExclusive p kind v = record {
  held = λ k. ground (
    arith,
    v.held k,
    has-exclude p.lock.active kind k,
    same_iff kind k,
    count-remove_one kind k p.running,
    has-count kind p.running,
  );
  requested = λ k h. ground (
    arith,
    v.requested k,
    has-exclude p.lock.active kind k,
    has-exclude p.lock.cancel_requested kind k,
  );
}

cancel-IsExclusive :
    (p : Process) (kind : Text) → IsExclusive p → IsExclusive (step p (cancel kind))
unfolding step is_active is_cancel_requested
cancel-IsExclusive p kind v = record {
  held = λ k. ground (arith, v.held k);
  requested = λ k h.
      ground (arith, v.requested k, has-include p.lock.cancel_requested kind k, same_iff kind k);
}

step-IsExclusive : (p : Process) (e : Event) → IsExclusive p → IsExclusive (step p e)
step-IsExclusive p (start kind) v = start-IsExclusive p kind v
step-IsExclusive p (settled kind) v = settled-IsExclusive p kind v
step-IsExclusive p (cancel kind) v = cancel-IsExclusive p kind v

run-IsExclusive : (p : Process) (es : List Event) → IsExclusive p → IsExclusive (run p es)
unfolding run
run-IsExclusive p [] v = v
run-IsExclusive p (e ∷ es) v = run-IsExclusive (step p e) es (step-IsExclusive p e v)

idle-IsExclusive : IsExclusive idle
unfolding new_lock is_active is_cancel_requested has
idle-IsExclusive = record { held = λ k. refl; requested = λ k h. cc }

-- After every interleaving of starts, ends and cancel requests from an idle process, the lock
-- holds a kind exactly while one run of it is in flight, and no cancel request outlives its run.
pub run-idle-IsExclusive : (es : List Event) → IsExclusive (run idle es)
run-idle-IsExclusive es = run-IsExclusive idle es idle-IsExclusive

module _ {T E : Type 0} (lock : RunLock) (kind : Text) (fn : RunLock → RunLock × Settled T E) where
  -- Whether `fn` resolves or throws, and whatever happened to the lock meanwhile, a call that got
  -- the lock leaves it free, with no cancel request; a call that did not changes nothing and does
  -- not run `fn`.
  pub run_exclusive_lem :
      ((is_active lock kind ≡ true) × (run_exclusive lock kind fn ≡ (lock, busy)))
      ⊎ ((is_active lock kind ≡ false)
          × (is_active (run_exclusive lock kind fn).0 kind ≡ false)
          × (is_cancel_requested (run_exclusive lock kind fn).0 kind ≡ false)
          × ((run_exclusive lock kind fn).1 ≡ settle (fn (try_acquire lock kind).0).1))
  unfolding run_exclusive is_active is_cancel_requested
  run_exclusive_lem = elim (Bool-cases (has lock.active kind)) [
    | inl e ↦ inl (e, rw e)
    | inr e ↦
        let after = (fn (try_acquire lock kind).0).0 in
        inr (
          e,
          ground (arith, has-exclude after.active kind kind, same_iff kind kind),
          ground (arith, has-exclude after.cancel_requested kind kind, same_iff kind kind),
          rw e,
        )
  ]
