-- ===== src/Scheduling/Examples.antt =====
-- The theorems on run-lock.ts at a batch that is cancelled and then fails.
use argos_career.Base.{ℕ, ◌≡◌, refl, Text, codes, List, [], ◌∷◌, has, include, exclude}
use argos_career.Scheduling.RunLock.{
  RunLock, new_lock, request_cancel, Settled, rejected, thrown, run_exclusive,
}
use argos_career.Scheduling.Exclusion.{
  Event, start, settled, cancel, run, idle, IsExclusive, run-idle-IsExclusive,
}

abbrev batch : Text
batch = codes "batch"

-- The second start is refused, and the cancel request ends with the run.
abbrev events : List Event
events = start batch ∷ start batch ∷ cancel batch ∷ settled batch ∷ start batch ∷ []

run-idle-IsExclusive_example : IsExclusive (run idle events)
run-idle-IsExclusive_example = run-idle-IsExclusive events

-- The work is asked to stop while it runs, and throws.
abbrev work : RunLock → RunLock × Settled ℕ Text
work lock = (request_cancel lock batch, rejected (codes "stopped"))

work_runs : run_exclusive new_lock batch work ≡ (new_lock, thrown (codes "stopped"))
unfolding run_exclusive new_lock request_cancel has include exclude
work_runs = refl
