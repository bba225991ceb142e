-- ===== src/Transport/Examples.antt =====
-- The theorems on circuit-breaker.ts at a breaker that opens after two failures.
use argos_career.Base.{◌<◌, ◌≡◌, refl, true, false, some, List, [], ◌∷◌, arith}
use argos_career.Transport.CircuitBreaker.{
  CircuitBreaker, closed, open_, new, pass, refuse, before_call,
}
use argos_career.Transport.Trial.{Event, ask, failed, run, before_call_single}

abbrev opened : CircuitBreaker
opened = record {
  state = open_;
  consecutive_failures = 2;
  opened_at = 110;
  failure_threshold = 2;
  cooldown_ms = 50;
}

abbrev events : List Event
events = ask 100 ∷ failed true 105 ∷ failed false 107 ∷ failed true 110 ∷ []

events-run : run (new (some 2) (some 50)) events ≡ opened
unfolding run new
events-run = refl

threshold_positive : 0 < (new (some 2) (some 50)).failure_threshold
unfolding new
threshold_positive = omega arith

passes : (before_call opened 160).1 ≡ pass
unfolding before_call
passes = refl

before_call_single_example :
    (before_call (run (before_call opened 160).0 (ask 161 ∷ ask 500 ∷ [])) 999).1
    ≡ refuse (run (before_call opened 160).0 (ask 161 ∷ ask 500 ∷ [])).cooldown_ms
before_call_single_example =
    before_call_single opened 160 999 (ask 161 ∷ ask 500 ∷ []) refl passes tt

abbrev fresh : CircuitBreaker
fresh = record opened { state = closed; consecutive_failures = 0 }
