-- ===== src/Transport/CircuitBreaker.antt =====
-- src/scoring/infrastructure/circuit-breaker.ts. The injected clock is an argument of each method
-- that reads it: milliseconds of the epoch.
use argos_career.Base.{ℕ, ◌+◌, ◌-◌, Bool, Option, if◌then◌else◌, ltb, leb, or_else}

pub data CircuitState : Type 0 where
  closed open_ half_open : CircuitState

abbrev pub default_failure_threshold : ℕ
default_failure_threshold = 5

abbrev pub default_cooldown_ms : ℕ
default_cooldown_ms = 30_000

pub record CircuitBreaker : Type 0 where
  pub state : CircuitState
  pub consecutive_failures : ℕ
  pub opened_at : ℕ
  pub failure_threshold : ℕ
  pub cooldown_ms : ℕ

-- The constructor.
unfoldable pub new : Option ℕ → Option ℕ → CircuitBreaker
new failure_threshold cooldown_ms = record {
  state = closed;
  consecutive_failures = 0;
  opened_at = 0;
  failure_threshold = or_else failure_threshold default_failure_threshold;
  cooldown_ms = or_else cooldown_ms default_cooldown_ms;
}

-- What a call of `beforeCall` does: it lets the caller through, or throws
-- `CircuitBreakerOpenError` with the wait that it holds.
pub data Gate : Type 0 where
  pass : Gate
  refuse : ℕ → Gate

-- `now - openedAt < cooldownMs` and `cooldownMs - (now - openedAt)`, with the sum on one side, so
-- that a clock that steps back is read as the source reads it.
before_call_in : CircuitState → CircuitBreaker → ℕ → CircuitBreaker × Gate
before_call_in closed b now = (b, pass)
before_call_in half_open b now = (b, refuse b.cooldown_ms)
before_call_in open_ b now =
    if ltb now (b.opened_at + b.cooldown_ms)
    then (b, refuse (b.opened_at + b.cooldown_ms - now))
    else (record b { state = half_open }, pass)

unfoldable pub before_call : CircuitBreaker → ℕ → CircuitBreaker × Gate
unfolding before_call_in
before_call b now = before_call_in b.state b now

unfoldable pub on_success : CircuitBreaker → CircuitBreaker
on_success b = record b { consecutive_failures = 0; state = closed }

on_permanent : CircuitState → CircuitBreaker → CircuitBreaker
on_permanent half_open b = record b { consecutive_failures = 0; state = closed }
on_permanent _ b = b

on_transient : CircuitState → CircuitBreaker → ℕ → CircuitBreaker
on_transient half_open b now = record b { state = open_; opened_at = now }
on_transient _ b now =
    let counted = record b { consecutive_failures = b.consecutive_failures + 1 } in
    if leb b.failure_threshold counted.consecutive_failures
    then record counted { state = open_; opened_at = now }
    else counted

unfoldable pub on_failure : CircuitBreaker → Bool → ℕ → CircuitBreaker
unfolding on_permanent on_transient
on_failure b transient now =
    if transient then on_transient b.state b now else on_permanent b.state b
