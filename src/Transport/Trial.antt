-- ===== src/Transport/Trial.antt =====
-- Properties of circuit-breaker.ts over every interleaving of callers.
use argos_career.Base.{
  ℕ, ◌+◌, ◌≤◌, ◌<◌, ◌≡◌, inl, inr, ◌≢◌, Bool, true, Option, List, [], ◌∷◌, arith, length, ◌↔◌,
  Bool-cases, leb,
}
use argos_career.Transport.CircuitBreaker.{
  closed, open_, half_open, CircuitBreaker, pass, refuse, new, before_call, on_success, on_failure,
}

-- What the workers that share a breaker do to it, in any order: a call that asks to pass, and the
-- end of a call, by success or by a failure that is transient or not.

pub data Event : Type 0 where
  ask : ℕ → Event
  succeeded : Event
  failed : Bool → ℕ → Event

unfoldable pub step : CircuitBreaker → Event → CircuitBreaker
unfolding before_call on_success on_failure
step b (ask now) = (before_call b now).0
step b succeeded = on_success b
step b (failed transient now) = on_failure b transient now

unfoldable pub run : CircuitBreaker → List Event → CircuitBreaker
unfolding step
run b [] = b
run b (e ∷ es) = run (step b e) es

-- Only calls that ask.
abbrev pub OnlyAsks : List Event → Type 0
OnlyAsks [] = Unit
OnlyAsks (ask now ∷ es) = OnlyAsks es
OnlyAsks (_ ∷ es) = ⊥

-- A breaker that is not yet open has counted fewer failures than its threshold.
pub record IsSound (b : CircuitBreaker) : Type 0 where
  pub threshold_positive : 0 < b.failure_threshold
  pub below : b.state ≡ closed → b.consecutive_failures < b.failure_threshold
  pub reached : b.state ≢ closed → b.failure_threshold ≤ b.consecutive_failures

new-IsSound :
    (threshold cooldown : Option ℕ)
    → 0 < (new threshold cooldown).failure_threshold
    → IsSound (new threshold cooldown)
unfolding new
new-IsSound threshold cooldown h = ground arith

step-IsSound : (b : CircuitBreaker) (e : Event) → IsSound b → IsSound (step b e)
unfolding step
step-IsSound b e v = ground arith

run-IsSound : (b : CircuitBreaker) (es : List Event) → IsSound b → IsSound (run b es)
unfolding run
run-IsSound b [] v = v
run-IsSound b (e ∷ es) v = run-IsSound (step b e) es (step-IsSound b e v)

-- After every sequence of calls and outcomes from a new breaker with a positive threshold, the
-- count of failures is below the threshold exactly as long as the circuit is closed.
run-new-IsSound :
    (threshold cooldown : Option ℕ) (es : List Event)
    → 0 < (new threshold cooldown).failure_threshold
    → IsSound (run (new threshold cooldown) es)
run-new-IsSound threshold cooldown es h = run-IsSound _ es (new-IsSound threshold cooldown h)

half_open_stays :
    (b : CircuitBreaker) (es : List Event)
    → b.state ≡ half_open
    → OnlyAsks es
    → (run b es).state ≡ half_open
unfolding run step
half_open_stays b [] h k = h
half_open_stays b (ask now ∷ es) h k = half_open_stays (before_call b now).0 es (ground arith) k
half_open_stays b (succeeded ∷ es) h k = absurd k
half_open_stays b (failed t now ∷ es) h k = absurd k

-- A single trial: once an open breaker has let a caller through, it refuses every later caller, at
-- any time and however many asked in between, until some call ends.
pub before_call_single :
    (b : CircuitBreaker) (now later : ℕ) (es : List Event)
    → b.state ≡ open_
    → (before_call b now).1 ≡ pass
    → OnlyAsks es
    → (before_call (run (before_call b now).0 es) later).1
      ≡ refuse (run (before_call b now).0 es).cooldown_ms
unfolding before_call
before_call_single b now later es opened passed k =
    let stays = half_open_stays (before_call b now).0 es (ground arith) k in ground arith

abbrev pub failures : List ℕ → List Event
failures [] = []
failures (now ∷ times) = failed true now ∷ failures times

open_under_failures :
    (b : CircuitBreaker) (times : List ℕ)
    → b.state ≢ closed
    → (run b (failures times)).state ≢ closed
unfolding run step
open_under_failures b [] h = h
open_under_failures b (now ∷ times) h =
    open_under_failures (on_failure b true now) times (ground arith)

-- Transient failures that follow one another open a closed circuit at the one that makes the count
-- reach the threshold, and not before.
pub failures_open_iff :
    (b : CircuitBreaker) (times : List ℕ)
    → b.state ≡ closed
    → b.consecutive_failures < b.failure_threshold
    → ((run b (failures times)).state ≡ closed)
      ↔ (b.consecutive_failures + length times < b.failure_threshold)
unfolding run step
failures_open_iff b [] c h = (λ _. omega arith, λ _. c)
failures_open_iff b (now ∷ times) c h =
    elim (Bool-cases (leb b.failure_threshold (b.consecutive_failures + 1))) [
      | inl e ↦ (
        λ k. absurd (open_under_failures (on_failure b true now) times (ground arith) k),
        λ k. absurd (ground arith),
      )
      | inr e ↦
          let rest =
            failures_open_iff (on_failure b true now) times (ground arith) (ground arith) in
          (λ k. ground (arith, rest.0 k), λ k. rest.1 (ground arith))
    ]
