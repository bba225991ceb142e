-- ===== src/Llm/Accounting.antt =====
-- Accounting of the calls of openrouter-client.ts, over every interleaving of calls.
use argos_career.Base.{
  ℕ, suc, ◌+◌, ◌≤◌, ◌≡◌, ◌≢◌, refl, Bool, Option, none, some, arith, inl, inr, Bool-cases,
  Option-cases, leb, is_some, ◌&&◌, ◌||◌,
}
use argos_career.Transport.CircuitBreaker.{
  CircuitBreaker, half_open, pass, refuse, before_call, on_success, on_failure,
}
use argos_career.Llm.Categories.{
  AttemptFailure, timeout, network_error, rate_limited, server_error, provider_error, auth_error,
  config_error, request_error, invalid_envelope, invalid_output, http_error, AttemptOutcome,
  success, failure, is_breaker_tripping_failure, attempt,
}
use argos_career.Llm.Body.{Read, read_body}
use argos_career.Llm.Envelope.{
  Envelope, ResponseDiagnostic, Choice, first?, get, ◌⊕◌, response_diagnostic,
}
use argos_career.Llm.Client.{
  LlmOperationStage, stage_a, stage_b, unknown, Counts, OpenRouterClient, new_client, count,
  Parsing, Answer, Response, is_error, start, settle, fail, succeed, record_outcome, capture_usage,
  record_response_diagnostic, settle_broken, settle_status, Usage, Json, json_of, diagnostic_of,
  usage_of, settle_not_ok, settle_envelope, settle_json, settle_ok,
}

-- The sum over all outcomes, and over those of all stages.

abbrev pub total : Counts → ℕ
total f =
    f success
    + f (failure timeout)
    + f (failure network_error)
    + f (failure rate_limited)
    + f (failure server_error)
    + f (failure provider_error)
    + f (failure auth_error)
    + f (failure config_error)
    + f (failure request_error)
    + f (failure invalid_envelope)
    + f (failure invalid_output)
    + f (failure http_error)

unfoldable pub total_by_stage : (LlmOperationStage → Counts) → ℕ
total_by_stage f = total (f stage_a) + total (f stage_b) + total (f unknown)

-- The states that calls lead to, with the number of those that await their answer: a call begins,
-- is refused by the breaker, or is settled, at any time and in any order.
pub data Reaches (breaker : CircuitBreaker) (p : Parsing) : OpenRouterClient → ℕ → Type 0 where
  fresh : Reaches breaker p (new_client breaker) 0
  refused :
      (c : OpenRouterClient) (n now wait : ℕ)
      → Reaches breaker p c n
      → (start now c).1 ≡ refuse wait
      → Reaches breaker p (start now c).0 n
  begun :
      (c : OpenRouterClient) (n now : ℕ)
      → Reaches breaker p c n
      → (start now c).1 ≡ pass
      → Reaches breaker p (start now c).0 (suc n)
  settled :
      (c : OpenRouterClient) (n : ℕ) (stage : LlmOperationStage) (now : ℕ) (answer : Answer)
      → Reaches breaker p c (suc n)
      → Reaches breaker p (settle p stage now answer c).0 n

-- What the counters say of `n` calls in flight.
pub record IsAccounted (c : OpenRouterClient) (n : ℕ) : Type 0 where
  pub by_outcome : c.attempts ≡ total c.attempts_by_outcome + n
  pub by_stage : total_by_stage c.attempts_by_stage_outcome ≡ total c.attempts_by_outcome
  pub successes : c.calls ≡ c.attempts_by_outcome success
  pub without_usage : c.attempts_without_usage ≤ total c.attempts_by_outcome
  pub trial : c.circuit_breaker.state ≡ half_open → 1 ≤ n

total-count : (o : AttemptOutcome) (f : Counts) → total (count o f) ≡ total f + 1
unfolding count
total-count success f = omega arith
total-count (failure timeout) f = omega arith
total-count (failure network_error) f = omega arith
total-count (failure rate_limited) f = omega arith
total-count (failure server_error) f = omega arith
total-count (failure provider_error) f = omega arith
total-count (failure auth_error) f = omega arith
total-count (failure config_error) f = omega arith
total-count (failure request_error) f = omega arith
total-count (failure invalid_envelope) f = omega arith
total-count (failure invalid_output) f = omega arith
total-count (failure http_error) f = omega arith

total_by_stage-record_outcome :
    (o : AttemptOutcome) (stage : LlmOperationStage) (c : OpenRouterClient)
    → total_by_stage (record_outcome o stage c).attempts_by_stage_outcome
      ≡ total_by_stage c.attempts_by_stage_outcome + 1
unfolding record_outcome total_by_stage
total_by_stage-record_outcome o stage_a c =
    let step = total-count o (c.attempts_by_stage_outcome stage_a) in omega arith
total_by_stage-record_outcome o stage_b c =
    let step = total-count o (c.attempts_by_stage_outcome stage_b) in omega arith
total_by_stage-record_outcome o unknown c =
    let step = total-count o (c.attempts_by_stage_outcome unknown) in omega arith

-- A call that is settled: one of the calls in flight becomes one outcome, and the trial of the
-- breaker, if there is one, is over.
record Settles (before after : OpenRouterClient) : Type 0 where
  attempts : after.attempts ≡ before.attempts
  by_outcome : total after.attempts_by_outcome ≡ total before.attempts_by_outcome + 1
  by_stage :
      total_by_stage after.attempts_by_stage_outcome
      ≡ total_by_stage before.attempts_by_stage_outcome + 1
  successes :
      after.calls + before.attempts_by_outcome success
      ≡ before.calls + after.attempts_by_outcome success
  without_usage : after.attempts_without_usage ≤ before.attempts_without_usage + 1
  trial : after.circuit_breaker.state ≢ half_open

-- The bookkeeping before the outcome is recorded.
record Notes (before after : OpenRouterClient) : Type 0 where
  attempts : after.attempts ≡ before.attempts
  by_outcome : after.attempts_by_outcome ≡ before.attempts_by_outcome
  by_stage : after.attempts_by_stage_outcome ≡ before.attempts_by_stage_outcome
  calls : after.calls ≡ before.calls
  without_usage : after.attempts_without_usage ≤ before.attempts_without_usage + 1

capture_usage-Notes : (usage : _) (c : OpenRouterClient) → Notes c (capture_usage usage c)
unfolding capture_usage
capture_usage-Notes none c = record {
  attempts = refl;
  by_outcome = refl;
  by_stage = refl;
  calls = refl;
  without_usage = omega arith;
}
capture_usage-Notes (some usage) c = record {
  attempts = refl;
  by_outcome = refl;
  by_stage = refl;
  calls = refl;
  without_usage = omega arith;
}

record_response_diagnostic-Notes :
    (diagnostic : _) (b c : OpenRouterClient)
    → Notes b c
    → Notes b (record_response_diagnostic diagnostic c)
unfolding record_response_diagnostic
record_response_diagnostic-Notes diagnostic b c h = record {
  attempts = h.attempts;
  by_outcome = h.by_outcome;
  by_stage = h.by_stage;
  calls = h.calls;
  without_usage = h.without_usage;
}

capture_usage-record_response_diagnostic-Notes :
    (usage : _) (diagnostic : _) (c : OpenRouterClient)
    → Notes c (capture_usage usage (record_response_diagnostic diagnostic c))
unfolding record_response_diagnostic
capture_usage-record_response_diagnostic-Notes usage diagnostic c =
    let h = capture_usage-Notes usage (record_response_diagnostic diagnostic c) in
    record {
      attempts = h.attempts;
      by_outcome = h.by_outcome;
      by_stage = h.by_stage;
      calls = h.calls;
      without_usage = h.without_usage;
    }

on_failure_ends : (b : CircuitBreaker) (t : Bool) (now : ℕ) → (on_failure b t now).state ≢ half_open
unfolding on_failure
on_failure_ends b t now = ground arith

on_success_ends : (b : CircuitBreaker) → (on_success b).state ≢ half_open
unfolding on_success
on_success_ends b = ground arith

success_unchanged : (a : AttemptFailure) (f : Counts) → count (failure a) f success ≡ f success
unfolding count
success_unchanged a f = refl

fail-Settles :
    (a : AttemptFailure) (stage : LlmOperationStage) (now : ℕ) (b c : OpenRouterClient)
    → Notes b c
    → Settles b (fail a stage now c)
unfolding fail record_outcome
fail-Settles a stage now b c h = record {
  attempts = h.attempts;
  by_outcome = rw (total-count (failure a) c.attempts_by_outcome, h.by_outcome) refl;
  by_stage = rw (total_by_stage-record_outcome (failure a) stage c, h.by_stage) refl;
  successes = rw (success_unchanged a c.attempts_by_outcome, h.by_outcome, h.calls) refl;
  without_usage = h.without_usage;
  trial = on_failure_ends c.circuit_breaker (is_breaker_tripping_failure (attempt a)) now;
}

succeed-Settles :
    (stage : LlmOperationStage) (b c : OpenRouterClient) → Notes b c → Settles b (succeed stage c)
unfolding succeed record_outcome
succeed-Settles stage b c h = record {
  attempts = h.attempts;
  by_outcome = rw (total-count success c.attempts_by_outcome, h.by_outcome) refl;
  by_stage = rw (total_by_stage-record_outcome success stage c, h.by_stage) refl;
  successes = rw (h.by_outcome, h.calls) (omega arith);
  without_usage = h.without_usage;
  trial = on_success_ends c.circuit_breaker;
}

module _ (p : Parsing) (stage : LlmOperationStage) (now : ℕ) where
  settle_broken-Settles :
      (a : AttemptFailure) (c : OpenRouterClient) → Settles c (settle_broken a stage now c).0
  unfolding settle_broken
  settle_broken-Settles a c = fail-Settles a stage now c _ (capture_usage-Notes none c)

  settle_status-Settles :
      (response : Response) (diagnostic : ResponseDiagnostic) (usage : Option Usage)
      (c : OpenRouterClient)
      → Settles c (settle_status p stage now response diagnostic usage c).0
  unfolding settle_status
  settle_status-Settles response diagnostic usage c =
      fail-Settles _ stage now c _
        (capture_usage-record_response_diagnostic-Notes usage diagnostic c)

  settle_not_ok-Settles :
      (response : _) (c : OpenRouterClient) → Settles c (settle_not_ok p stage now response c).0
  unfolding settle_not_ok
  settle_not_ok-Settles response c =
      let json = json_of p (read_body p.max_response_bytes response.content_length response.body) in
      let envelope = get (λ (j : Json). j.envelope) json in
      let error =
        get (λ (e : Envelope). e.error) envelope
        ⊕ get (λ (ch : Choice). ch.error) (get (λ (e : Envelope). first? e.choices) envelope) in
      let diagnostic = diagnostic_of envelope response.generation_header error in
      settle_status-Settles response diagnostic (usage_of envelope json) c

  settle_envelope-Settles :
      (response : Response) (envelope : Envelope) (b c : OpenRouterClient)
      → Notes b c
      → Settles b (settle_envelope p stage now response envelope c).0
  unfolding settle_envelope
  settle_envelope-Settles response envelope b c h =
      let first_choice = first? envelope.choices in
      let provider_error = get (λ (ch : Choice). ch.error) first_choice ⊕ envelope.error in
      let noted =
        record_response_diagnostic-Notes
          (response_diagnostic envelope response.generation_header provider_error) b c h in
      let reason = get (λ (ch : Choice). ch.finish_reason) first_choice in
      elim (Bool-cases (is_some provider_error || is_error reason)) [
        | inl e ↦ rw e (fail-Settles _ stage now b _ noted)
        | inr e ↦ elim (Option-cases (get (λ (ch : Choice). ch.content) first_choice)) [
          | inl k ↦ rw (e, k) (fail-Settles _ stage now b _ noted)
          | inr (text, k) ↦ rw (e, k) (succeed-Settles stage b _ noted)
        ]
      ]

  settle_json-Settles :
      (response : _) (json : _) (c : OpenRouterClient)
      → Settles c (settle_json p stage now response json c).0
  unfolding settle_json
  settle_json-Settles response json c = elim (Option-cases json.envelope) [
    | inl e ↦ rw e (fail-Settles invalid_output stage now c _ (capture_usage-Notes json.usage c))
    | inr (envelope, e) ↦
        rw e (settle_envelope-Settles response envelope c _ (capture_usage-Notes json.usage c))
  ]

  settle_ok-Settles :
      (response : _) (read : _) (c : OpenRouterClient)
      → Settles c (settle_ok p stage now response read c).0
  unfolding settle_ok
  settle_ok-Settles response (Read.broken aborted) c = settle_broken-Settles _ c
  settle_ok-Settles response (Read.whole bytes) c = elim (Option-cases (p.parse bytes)) [
    | inl e ↦ rw (settle_ok, e) (settle_broken-Settles _ c)
    | inr (json, e) ↦ rw (settle_ok, e) (settle_json-Settles response json c)
  ]

  settle-Settles :
      (answer : Answer) (c : OpenRouterClient) → Settles c (settle p stage now answer c).0
  unfolding settle
  settle-Settles (Answer.thrown aborted) c = settle_broken-Settles _ c
  settle-Settles (Answer.responded response) c =
      elim (Bool-cases (leb 200 response.status && leb response.status 299)) [
        | inl e ↦ rw e (settle_ok-Settles response _ c)
        | inr e ↦ rw e (settle_not_ok-Settles response c)
      ]

settled-IsAccounted :
    (c d : OpenRouterClient) (n : ℕ) → Settles c d → IsAccounted c (suc n) → IsAccounted d n
settled-IsAccounted c d n s a = record {
  by_outcome = rw s.attempts (omega (arith, s.by_outcome, a.by_outcome));
  by_stage = omega (arith, s.by_stage, s.by_outcome, a.by_stage);
  successes = omega (arith, s.successes, a.successes);
  without_usage = omega (arith, s.without_usage, s.by_outcome, a.without_usage);
  trial = λ e. absurd (s.trial e);
}

new_client-IsAccounted : (b : CircuitBreaker) → b.state ≢ half_open → IsAccounted (new_client b) 0
unfolding new_client total_by_stage
new_client-IsAccounted b h = record {
  by_outcome = refl;
  by_stage = refl;
  successes = refl;
  without_usage = omega arith;
  trial = λ e. absurd (h e);
}

refused-IsAccounted :
    (c : OpenRouterClient) (n now wait : ℕ)
    → IsAccounted c n
    → (start now c).1 ≡ refuse wait
    → IsAccounted (start now c).0 n
unfolding start before_call
refused-IsAccounted c n now wait a e =
    ground (arith, a.by_outcome, a.by_stage, a.successes, a.without_usage, a.trial)

begun-IsAccounted :
    (c : OpenRouterClient) (n now : ℕ)
    → IsAccounted c n
    → (start now c).1 ≡ pass
    → IsAccounted (start now c).0 (suc n)
unfolding start before_call
begun-IsAccounted c n now a e =
    ground (arith, a.by_outcome, a.by_stage, a.successes, a.without_usage, a.trial)

-- Whatever interleaving of calls and however they end, a client whose breaker was not in a trial
-- accounts for them: the attempts are the recorded outcomes and the calls in flight, the outcomes
-- of the stages add up to those of the client, the successes are the calls, the attempts without
-- usage are at most the outcomes, and the breaker is in a trial only while a call is in flight.
pub Reaches-IsAccounted :
    (breaker : CircuitBreaker) (p : Parsing) (c : OpenRouterClient) (n : ℕ)
    → breaker.state ≢ half_open
    → Reaches breaker p c n
    → IsAccounted c n
Reaches-IsAccounted breaker p c n h fresh = new_client-IsAccounted breaker h
Reaches-IsAccounted breaker p c n h (refused d m now wait r e) =
    refused-IsAccounted d m now wait (Reaches-IsAccounted breaker p d m h r) e
Reaches-IsAccounted breaker p c n h (begun d m now r e) =
    begun-IsAccounted d m now (Reaches-IsAccounted breaker p d m h r) e
Reaches-IsAccounted breaker p c n h (settled d m stage now answer r) =
    settled-IsAccounted d _ m (settle-Settles p stage now answer d)
      (Reaches-IsAccounted breaker p d (suc m) h r)
