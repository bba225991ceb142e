-- ===== src/Llm/Client.antt =====
-- src/scoring/infrastructure/openrouter-client.ts: the state of `OpenRouterClient`, and `complete`
-- in the two parts between which other calls run, before and after the transport. The transport,
-- JSON.parse with the two schemas, and the readings of the clock are arguments; the sums of tokens
-- and cost take the numbers of the language as they are given.
use argos_career.Base.{
  ℕ, ◌+◌, Bool, true, false, not, ◌&&◌, ◌||◌, Text, Dict, lookup, insert, Option, none, some, List,
  [], or_else, is_some, leb, ltb, same, codes, if◌then◌else◌,
}
use argos_career.Transport.CircuitBreaker.{
  CircuitBreaker, Gate, pass, refuse, before_call, on_success, on_failure,
}
use argos_career.Llm.Categories.{
  AttemptFailure, timeout, network_error, rate_limited, server_error, provider_error, auth_error,
  config_error, request_error, invalid_envelope, invalid_output, http_error, AttemptOutcome,
  success, failure, FailureCategory, attempt, circuit_open, ℤ, pos, is_breaker_tripping_failure,
  classify_error_type,
}
use argos_career.Llm.Envelope.{
  Envelope, ProviderError, ResponseDiagnostic, no_diagnostic, response_diagnostic,
  numeric_error_code, get, first?, ◌⊕◌,
}
use argos_career.Llm.Body.{
  Stream, Read, whole, broken, read_body, HeaderNumber, parse_retry_after_ms,
}

pub data LlmOperationStage : Type 0 where
  stage_a stage_b unknown : LlmOperationStage

unfoldable pub same_stage : LlmOperationStage → LlmOperationStage → Bool
same_stage stage_a stage_a = true
same_stage stage_b stage_b = true
same_stage unknown unknown = true
same_stage _ _ = false

-- A counter of each outcome.
abbrev pub Counts : Type 0
Counts = AttemptOutcome → ℕ

unfoldable pub same_outcome : AttemptOutcome → AttemptOutcome → Bool
same_outcome success success = true
same_outcome (failure timeout) (failure timeout) = true
same_outcome (failure network_error) (failure network_error) = true
same_outcome (failure rate_limited) (failure rate_limited) = true
same_outcome (failure server_error) (failure server_error) = true
same_outcome (failure provider_error) (failure provider_error) = true
same_outcome (failure auth_error) (failure auth_error) = true
same_outcome (failure config_error) (failure config_error) = true
same_outcome (failure request_error) (failure request_error) = true
same_outcome (failure invalid_envelope) (failure invalid_envelope) = true
same_outcome (failure invalid_output) (failure invalid_output) = true
same_outcome (failure http_error) (failure http_error) = true
same_outcome _ _ = false

unfoldable pub count : AttemptOutcome → Counts → Counts
unfolding same_outcome
count outcome counts o = if same_outcome o outcome then counts o + 1 else counts o

pub record Usage : Type 0 where
  pub prompt_tokens : Option ℕ
  pub completion_tokens : Option ℕ
  pub cached_tokens : Option ℕ
  pub cost : Option ℕ

pub record OpenRouterClient : Type 0 where
  pub circuit_breaker : CircuitBreaker
  pub calls : ℕ
  pub prompt_tokens : ℕ
  pub completion_tokens : ℕ
  pub cached_prompt_tokens : ℕ
  pub cost_usd : ℕ
  pub attempts : ℕ
  pub attempts_by_outcome : Counts
  pub attempts_by_stage_outcome : LlmOperationStage → Counts
  pub provider_counts : Dict ℕ
  pub error_type_counts : Dict ℕ
  pub attempts_without_usage : ℕ
  pub blocked_by_circuit : ℕ

abbrev pub zero_outcomes : Counts
zero_outcomes outcome = 0

unfoldable pub new_client : CircuitBreaker → OpenRouterClient
new_client circuit_breaker = record {
  circuit_breaker = circuit_breaker;
  calls = 0;
  prompt_tokens = 0;
  completion_tokens = 0;
  cached_prompt_tokens = 0;
  cost_usd = 0;
  attempts = 0;
  attempts_by_outcome = zero_outcomes;
  attempts_by_stage_outcome = λ stage. zero_outcomes;
  provider_counts = [];
  error_type_counts = [];
  attempts_without_usage = 0;
  blocked_by_circuit = 0;
}

unfoldable pub record_outcome :
    AttemptOutcome → LlmOperationStage → OpenRouterClient → OpenRouterClient
unfolding count same_stage
record_outcome outcome stage c = record c {
  attempts_by_outcome = count outcome c.attempts_by_outcome;
  attempts_by_stage_outcome = λ s.
      if same_stage s stage
      then count outcome (c.attempts_by_stage_outcome s)
      else c.attempts_by_stage_outcome s;
}

unfoldable pub counted : Option Text → Dict ℕ → Dict ℕ
unfolding lookup insert
counted none counts = counts
counted (some key) counts = insert key (or_else (lookup key counts) 0 + 1) counts

unfoldable pub record_response_diagnostic : ResponseDiagnostic → OpenRouterClient → OpenRouterClient
unfolding counted
record_response_diagnostic diagnostic c = record c {
  provider_counts = counted diagnostic.provider c.provider_counts;
  error_type_counts = counted diagnostic.error_type c.error_type_counts;
}

-- `captureUsage`, with the counter that its callers add to where it is false.
unfoldable pub capture_usage : Option Usage → OpenRouterClient → OpenRouterClient
capture_usage none c = record c { attempts_without_usage = c.attempts_without_usage + 1 }
capture_usage (some usage) c = record c {
  prompt_tokens = c.prompt_tokens + or_else usage.prompt_tokens 0;
  completion_tokens = c.completion_tokens + or_else usage.completion_tokens 0;
  cached_prompt_tokens = c.cached_prompt_tokens + or_else usage.cached_tokens 0;
  cost_usd = c.cost_usd + or_else usage.cost 0;
}

-- What JSON.parse and the two schemas make of a body that is JSON: the usage is that of the
-- object's own field.
pub record Json : Type 0 where
  pub envelope : Option Envelope
  pub usage : Option Usage

pub record Response : Type 0 where
  pub status : ℕ
  pub content_length : Option ℕ
  pub body : Option Stream
  pub generation_header : Option Text
  pub retry_after : Option Text

-- What awaiting the transport comes to: a rejection, with whether the deadline had aborted it, or a
-- response.
pub data Answer : Type 0 where
  thrown : Bool → Answer
  responded : Response → Answer

pub record LlmTransportError : Type 0 where
  pub category : FailureCategory
  pub retry_after_ms : Option ℕ
  pub status : Option ℕ
  pub diagnostic : ResponseDiagnostic

-- A call returns the content, or throws, before anything else a plain error about its options.
pub data Completion : Type 0 where
  content : Text → Completion
  failed : LlmTransportError → Completion
  rejected_options : Completion

pub record Parsing : Type 0 where
  pub max_response_bytes : ℕ
  pub parse : List ℕ → Option Json
  pub integer_of : Text → Option ℤ
  pub number_of : Text → HeaderNumber
  pub date_of : Text → Option ℕ

pub record CompletionOptions : Type 0 where
  pub stage : Option LlmOperationStage
  pub timeout_ms : Option ℕ
  pub max_completion_tokens : Option ℕ
  pub reasoning_max_tokens : Option ℕ

unfoldable pub is_positive_safe_integer : Option ℕ → Bool
is_positive_safe_integer none = true
is_positive_safe_integer (some n) = ltb 0 n && leb n 9_007_199_254_740_991

unfoldable pub are_valid_options : CompletionOptions → Bool
unfolding is_positive_safe_integer
are_valid_options o =
    is_positive_safe_integer o.timeout_ms
    && is_positive_safe_integer o.max_completion_tokens
    && is_positive_safe_integer o.reasoning_max_tokens

-- Up to the transport: a call that the breaker refuses ends here.
unfoldable pub start : ℕ → OpenRouterClient → OpenRouterClient × Gate
unfolding before_call
start now c =
    let (breaker, gate) = before_call c.circuit_breaker now in
    let checked = record c { circuit_breaker = breaker } in
    elim gate [
      | pass ↦ (record checked { attempts = checked.attempts + 1 }, pass)
      | refuse wait ↦
          (record checked { blocked_by_circuit = checked.blocked_by_circuit + 1 }, refuse wait)
    ]

abbrev pub plain : FailureCategory → LlmTransportError
plain category = record {
  category = category;
  retry_after_ms = none;
  status = none;
  diagnostic = no_diagnostic;
}

-- Every failure after the transport: its outcome, and what the breaker learns.
unfoldable pub fail : AttemptFailure → LlmOperationStage → ℕ → OpenRouterClient → OpenRouterClient
unfolding record_outcome on_failure is_breaker_tripping_failure
fail category stage now c =
    let recorded = record_outcome (failure category) stage c in
    record recorded {
      circuit_breaker =
          on_failure recorded.circuit_breaker (is_breaker_tripping_failure (attempt category)) now;
    }

unfoldable pub succeed : LlmOperationStage → OpenRouterClient → OpenRouterClient
unfolding record_outcome on_success
succeed stage c =
    let recorded = record_outcome success stage (record c { calls = c.calls + 1 }) in
    record recorded { circuit_breaker = on_success recorded.circuit_breaker }

abbrev pub usage_of : Option Envelope → Option Json → Option Usage
usage_of none json = none
usage_of (some envelope) none = none
usage_of (some envelope) (some json) = json.usage

-- The body of a response that is not 2xx, where a body that cannot be read is empty.
abbrev pub json_of : Parsing → Read → Option Json
json_of p (whole bytes) = p.parse bytes
json_of p (broken aborted) = p.parse []

abbrev pub diagnostic_of : Option Envelope → Option Text → Option ProviderError → ResponseDiagnostic
unfolding response_diagnostic
diagnostic_of none generation_header error = no_diagnostic
diagnostic_of (some envelope) generation_header error =
    response_diagnostic envelope generation_header error

unfoldable pub settle_status :
    Parsing
    → LlmOperationStage
    → ℕ
    → Response
    → ResponseDiagnostic
    → Option Usage
    → OpenRouterClient
    → OpenRouterClient × Completion
unfolding classify_error_type record_response_diagnostic capture_usage parse_retry_after_ms fail
settle_status p stage now response diagnostic usage c =
    let category = classify_error_type diagnostic.error_type (pos response.status) in
    (
      fail category stage now (capture_usage usage (record_response_diagnostic diagnostic c)),
      failed (record {
        category = attempt category;
        retry_after_ms = parse_retry_after_ms p.number_of p.date_of now response.retry_after;
        status = some response.status;
        diagnostic = diagnostic;
      }),
    )

unfoldable pub settle_not_ok :
    Parsing → LlmOperationStage → ℕ → Response → OpenRouterClient → OpenRouterClient × Completion
unfolding read_body get settle_status
settle_not_ok p stage now response c =
    let json = json_of p (read_body p.max_response_bytes response.content_length response.body) in
    let envelope = get (λ (j : Json). j.envelope) json in
    let error =
      get (λ (e : Envelope). e.error) envelope
      ⊕ get (λ ch. ch.error) (get (λ (e : Envelope). first? e.choices) envelope) in
    let diagnostic = diagnostic_of envelope response.generation_header error in
    settle_status p stage now response diagnostic (usage_of envelope json) c

abbrev pub is_error : Option Text → Bool
is_error none = false
is_error (some reason) = same reason (codes "error")

-- From a 2xx response with an envelope that the schema lets through.
unfoldable pub settle_envelope :
    Parsing
    → LlmOperationStage
    → ℕ
    → Response
    → Envelope
    → OpenRouterClient
    → OpenRouterClient × Completion
unfolding get response_diagnostic record_response_diagnostic classify_error_type numeric_error_code
    fail succeed
settle_envelope p stage now response envelope c =
    let first_choice = first? envelope.choices in
    let provider_error = get (λ ch. ch.error) first_choice ⊕ envelope.error in
    let diagnostic = response_diagnostic envelope response.generation_header provider_error in
    let noted = record_response_diagnostic diagnostic c in
    if is_some provider_error || is_error (get (λ ch. ch.finish_reason) first_choice)
    then (let category =
          classify_error_type diagnostic.error_type
            (or_else (numeric_error_code p.integer_of provider_error) (pos 502)) in
        (
          fail category stage now noted,
          failed (record {
            category = attempt category;
            retry_after_ms = none;
            status = some response.status;
            diagnostic = diagnostic;
          }),
        ))
    else elim (get (λ ch. ch.content) first_choice) [
      | none ↦ (
        fail invalid_output stage now noted,
        failed (record (plain (attempt invalid_output)) { diagnostic = diagnostic }),
      )
      | some text ↦ (succeed stage noted, content text)
    ]

unfoldable pub settle_json :
    Parsing
    → LlmOperationStage
    → ℕ
    → Response
    → Json
    → OpenRouterClient
    → OpenRouterClient × Completion
unfolding capture_usage settle_envelope fail
settle_json p stage now response json c =
    let captured = capture_usage json.usage c in
    elim json.envelope [
      | none ↦ (fail invalid_output stage now captured, failed (plain (attempt invalid_output)))
      | some envelope ↦ settle_envelope p stage now response envelope captured
    ]

-- A rejected fetch, and a 2xx body that cannot be read or is not JSON.
unfoldable pub settle_broken :
    AttemptFailure → LlmOperationStage → ℕ → OpenRouterClient → OpenRouterClient × Completion
unfolding capture_usage fail
settle_broken category stage now c =
    (fail category stage now (capture_usage none c), failed (plain (attempt category)))

unfoldable pub settle_ok :
    Parsing
    → LlmOperationStage
    → ℕ
    → Response
    → Read
    → OpenRouterClient
    → OpenRouterClient × Completion
unfolding settle_broken settle_json
settle_ok p stage now response (broken aborted) c =
    settle_broken (if aborted then timeout else invalid_envelope) stage now c
settle_ok p stage now response (whole bytes) c = elim (p.parse bytes) [
  | none ↦ settle_broken invalid_envelope stage now c
  | some json ↦ settle_json p stage now response json c
]

-- From the transport on: one of these for each call that the breaker let through.
unfoldable pub settle :
    Parsing → LlmOperationStage → ℕ → Answer → OpenRouterClient → OpenRouterClient × Completion
unfolding settle_broken settle_not_ok settle_ok read_body
settle p stage now (thrown aborted) c =
    settle_broken (if aborted then timeout else network_error) stage now c
settle p stage now (responded response) c =
    if leb 200 response.status && leb response.status 299
    then settle_ok p stage now response
        (read_body p.max_response_bytes response.content_length response.body) c
    else settle_not_ok p stage now response c

abbrev pub refused : ℕ → LlmTransportError
refused wait = record (plain circuit_open) { retry_after_ms = some wait }

-- The whole call; `meanwhile` is what other calls do to the client while this one awaits its answer.
unfoldable pub complete :
    Parsing
    → CompletionOptions
    → ℕ
    → ℕ
    → Answer
    → (OpenRouterClient → OpenRouterClient)
    → OpenRouterClient
    → OpenRouterClient × Completion
unfolding are_valid_options start settle
complete p options started_at settled_at answer meanwhile c =
    if not (are_valid_options options)
    then (c, rejected_options)
    else (let (begun, gate) = start started_at c in
        elim gate [
          | refuse wait ↦ (begun, failed (refused wait))
          | pass ↦ settle p (or_else options.stage unknown) settled_at answer (meanwhile begun)
        ])
