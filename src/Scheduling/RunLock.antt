-- ===== src/Scheduling/RunLock.antt =====
-- src/scheduling/domain/run-lock.ts.
use argos_career.Base.{Bool, true, false, Text, List, [], has, include, exclude, if◌then◌else◌}

pub record RunLock : Type 0 where
  pub active : List Text
  pub cancel_requested : List Text

unfoldable pub new_lock : RunLock
new_lock = record { active = []; cancel_requested = [] }

unfoldable pub try_acquire : RunLock → Text → RunLock × Bool
try_acquire lock kind =
    if has lock.active kind
    then (lock, false)
    else (record lock { active = include lock.active kind }, true)

unfoldable pub release : RunLock → Text → RunLock
release lock kind = record {
  active = exclude lock.active kind;
  cancel_requested = exclude lock.cancel_requested kind;
}

unfoldable pub is_active : RunLock → Text → Bool
is_active lock kind = has lock.active kind

unfoldable pub request_cancel : RunLock → Text → RunLock
request_cancel lock kind =
    if has lock.active kind
    then record lock { cancel_requested = include lock.cancel_requested kind }
    else lock

unfoldable pub is_cancel_requested : RunLock → Text → Bool
is_cancel_requested lock kind = has lock.cancel_requested kind

-- How the promise of `fn` settles.
pub data Settled (T E : Type 0) : Type 0 where
  resolved : T → Settled T E
  rejected : E → Settled T E

-- What `runExclusive` comes to: `{ ok: false }`, `{ ok: true, result }`, or the throw of `fn`.
pub data RunExclusiveResult (T E : Type 0) : Type 0 where
  busy : RunExclusiveResult T E
  ok : T → RunExclusiveResult T E
  thrown : E → RunExclusiveResult T E

module _ {T E : Type 0} where
  abbrev pub settle : Settled T E → RunExclusiveResult T E
  settle (resolved result) = ok result
  settle (rejected error) = thrown error

  -- `fn` is given the lock as it starts, and returns the lock as it is when the promise settles:
  -- others act on it while `fn` is awaited. `finally` releases on both ways out.
  unfoldable pub run_exclusive :
      RunLock → Text → (RunLock → RunLock × Settled T E) → RunLock × RunExclusiveResult T E
  unfolding try_acquire release
  run_exclusive lock kind fn =
      let (held, acquired) = try_acquire lock kind in
      if acquired
      then (let (after, outcome) = fn held in (release after kind, settle outcome))
      else (lock, busy)
