-- ===== src/Llm/Output.antt =====
-- `parseModelOutputWithRetries` of src/scoring/infrastructure/llm-output.ts. The model, JSON.parse,
-- the schema and the random numbers are arguments; `S` is what the world keeps between two
-- requests.
use argos_career.Base.{
  ℕ, zero, suc, ◌+◌, Bool, true, false, not, ◌++◌, Text, codes, Option, none, some, List, [], ◌∷◌,
  map, or_else, leb, is_empty, if◌then◌else◌,
}
use argos_career.Llm.Categories.{
  FailureCategory, attempt, network_error, is_transient_failure, is_batch_fatal_failure,
}
use argos_career.Llm.Envelope.{ResponseDiagnostic, no_diagnostic}
use argos_career.Llm.Client.{LlmTransportError}
use argos_career.Llm.Normalize.{normalize_model_output}

abbrev pub default_max_transport_attempts : ℕ
default_max_transport_attempts = 4

abbrev pub default_max_repair_attempts : ℕ
default_max_repair_attempts = 3

abbrev pub base_backoff_ms : ℕ
base_backoff_ms = 500

abbrev pub max_backoff_ms : ℕ
max_backoff_ms = 8_000

pub data LlmFailureKind : Type 0 where
  transport_failed permanent_error output_invalid_json output_schema_rejected prompt_build_failed :
      LlmFailureKind

pub record LlmFailureDiagnostic : Type 0 where
  pub kind : LlmFailureKind
  pub category : Option FailureCategory
  pub response : ResponseDiagnostic
  pub http_status : Option ℕ

pub data FailureReason : Type 0 where
  invalid_output transport_failed permanent_error : FailureReason

pub record LlmFailure : Type 0 where
  pub reason : FailureReason
  pub attempts : ℕ
  pub last_error : Text
  pub batch_fatal : Bool
  pub diagnostic : LlmFailureDiagnostic

pub data LlmParseResult (T : Type 0) : Type 0 where
  ok : T → ℕ → LlmParseResult T
  not_ok : LlmFailure → LlmParseResult T

-- What `ask` comes to: a text, or a rejection with its message, by `LlmTransportError` or by another
-- error.
pub data Asked : Type 0 where
  answered : Text → Asked
  rejected : Text → Option LlmTransportError → Asked

pub data ParsedJson (J : Type 0) : Type 0 where
  json : J → ParsedJson J
  syntax_error : Text → ParsedJson J

pub record Issue : Type 0 where
  pub path : List Text
  pub message : Text

pub data Validation (T : Type 0) : Type 0 where
  valid : T → Validation T
  issues : List Issue → Validation T

pub record Asking (S J T : Type 0) : Type 0 where
  pub ask : S → Text → S × Asked
  pub parse : Text → ParsedJson J
  pub schema : J → Validation T
  pub random : ℕ → ℕ → ℕ

unfoldable pub is_json : {J : Type 0} → ParsedJson J → Bool
is_json (json value) = true
is_json (syntax_error message) = false

-- The cap of the backoff: 500 doubled for each attempt after the first, at most 8000.
unfoldable pub doubled : ℕ → ℕ
doubled zero = base_backoff_ms
doubled (suc n) = doubled n + doubled n

unfoldable pub backoff_cap : ℕ → ℕ
unfolding doubled
backoff_cap zero = base_backoff_ms
backoff_cap (suc n) = if leb (doubled n) max_backoff_ms then doubled n else max_backoff_ms

unfoldable pub joined : Text → List Text → Text
joined separator [] = []
joined separator (s ∷ []) = s
joined separator (s ∷ t ∷ ss) = s ++ separator ++ joined separator (t ∷ ss)

unfoldable pub describe_issue : Issue → Text
unfolding joined
describe_issue issue =
    let path = joined (codes ".") issue.path in
    (if is_empty path then codes "(root)" else path) ++ codes ": " ++ issue.message

unfoldable pub describe_issues : List Issue → Text
unfolding describe_issue joined
describe_issues list = joined (codes "; ") (map describe_issue list)

unfoldable pub build_retry_prompt : Text → Text → Text
build_retry_prompt original_prompt error =
    original_prompt
    ++ (10 ∷ 10 ∷ codes "Your previous response was invalid: ")
    ++ error
    ++ (10 ∷ codes "Respond again with only the corrected JSON, no other text.")

-- The variables of the loop.
pub record Loop : Type 0 where
  pub prompt : Text
  pub transport_attempt : ℕ
  pub repair_attempt : ℕ
  pub total_attempts : ℕ

pub data Turn (T : Type 0) : Type 0 where
  again : Loop → Turn T
  finished : LlmParseResult T → Turn T

pub record Budgets : Type 0 where
  pub max_transport_attempts : ℕ
  pub max_repair_attempts : ℕ

abbrev pub category_of : Option LlmTransportError → FailureCategory
category_of none = attempt network_error
category_of (some error) = error.category

abbrev pub transport_diagnostic : LlmFailureKind → Option LlmTransportError → LlmFailureDiagnostic
transport_diagnostic kind none = record {
  kind = kind;
  category = some (attempt network_error);
  response = no_diagnostic;
  http_status = none;
}
transport_diagnostic kind (some error) = record {
  kind = kind;
  category = some error.category;
  response = error.diagnostic;
  http_status = error.status;
}

abbrev pub output_diagnostic : LlmFailureKind → LlmFailureDiagnostic
output_diagnostic kind = record {
  kind = kind;
  category = none;
  response = no_diagnostic;
  http_status = none;
}

module _ {S J T : Type 0} (m : Asking S J T) (b : Budgets) (initial_prompt : Text) where
  -- A rejected request; `total` counts it.
  unfoldable pub after_rejection : ℕ → Loop → Text → Option LlmTransportError → Turn T
  unfolding is_transient_failure is_batch_fatal_failure
  after_rejection total l message cause =
      let category = category_of cause in
      let last_error = codes "Request failed: " ++ message in
      if not (is_transient_failure category)
      then finished (
          not_ok (record {
            reason = permanent_error;
            attempts = total;
            last_error = last_error;
            batch_fatal = is_batch_fatal_failure category;
            diagnostic = transport_diagnostic LlmFailureKind.permanent_error cause;
          }))
      else if leb b.max_transport_attempts (l.transport_attempt + 1)
      then finished (
          not_ok (record {
            reason = transport_failed;
            attempts = total;
            last_error = last_error;
            batch_fatal = false;
            diagnostic = transport_diagnostic LlmFailureKind.transport_failed cause;
          }))
      else again (record l { transport_attempt = l.transport_attempt + 1; total_attempts = total })

  -- An answer that is not JSON, or that the schema rejects.
  unfoldable pub after_invalid : ℕ → Loop → Text → LlmFailureKind → Turn T
  unfolding build_retry_prompt
  after_invalid total l last_error kind =
      if leb b.max_repair_attempts (l.repair_attempt + 1)
      then finished (
          not_ok (record {
            reason = invalid_output;
            attempts = total;
            last_error = last_error;
            batch_fatal = false;
            diagnostic = output_diagnostic kind;
          }))
      else again (record l {
        prompt = build_retry_prompt initial_prompt last_error;
        repair_attempt = l.repair_attempt + 1;
        total_attempts = total;
      })

  unfoldable pub after_validation : ℕ → Loop → Validation T → Turn T
  unfolding after_invalid describe_issues
  after_validation total l (valid data_) = finished (ok data_ total)
  after_validation total l (issues list) =
      after_invalid total l (describe_issues list) output_schema_rejected

  unfoldable pub after_parse : ℕ → Loop → ParsedJson J → Turn T
  unfolding after_validation after_invalid
  after_parse total l (json value) = after_validation total l (m.schema value)
  after_parse total l (syntax_error message) =
      after_invalid total l (codes "Output was not valid JSON: " ++ message) output_invalid_json

  unfoldable pub after_asking : Loop → Asked → Turn T
  unfolding after_rejection after_parse normalize_model_output is_json
  after_asking l (rejected message cause) = after_rejection (l.total_attempts + 1) l message cause
  after_asking l (answered raw) =
      after_parse (l.total_attempts + 1) l
        (m.parse (normalize_model_output (λ t. is_json (m.parse t)) raw))

  -- The loop, on fuel, with the prompts that it asks.
  unfoldable pub loop : ℕ → S → Loop → Option (LlmParseResult T × List Text)
  unfolding after_asking
  loop zero s l = none
  loop (suc fuel) s l =
      let (later, asked) = m.ask s l.prompt in
      elim (after_asking l asked) [
        | finished result ↦ some (result, l.prompt ∷ [])
        | again next ↦ elim (loop fuel later next) [
          | none ↦ none
          | some (result, prompts) ↦ some (result, l.prompt ∷ prompts)
        ]
      ]

  unfoldable pub parse_model_output_with_retries : S → Option (LlmParseResult T × List Text)
  unfolding loop
  parse_model_output_with_retries s =
      loop (b.max_transport_attempts + b.max_repair_attempts + 1) s (record {
        prompt = initial_prompt;
        transport_attempt = 0;
        repair_attempt = 0;
        total_attempts = 0;
      })

-- `retryAfterMs ?? computeBackoffMs(transportAttempt)`, the wait before the next request.
unfoldable pub delay_ms : {S J T : Type 0} → Asking S J T → ℕ → Option LlmTransportError → ℕ
unfolding backoff_cap
delay_ms m transport_attempt none = m.random transport_attempt (backoff_cap transport_attempt)
delay_ms m transport_attempt (some error) =
    or_else error.retry_after_ms (m.random transport_attempt (backoff_cap transport_attempt))
