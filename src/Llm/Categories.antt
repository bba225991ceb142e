-- ===== src/Llm/Categories.antt =====
-- How an attempt of src/scoring/infrastructure/openrouter-client.ts ends, and what follows from
-- that for retries, for the batch and for the circuit breaker.
use argos_career.Base.{
  ℕ, Bool, true, false, ◌||◌, Option, none, some, ◌∷◌, [], List, Text, codes, same, contains, leb,
  ◌==◌, if◌then◌else◌,
}

-- `Exclude<AttemptOutcome, "success">`.
pub data AttemptFailure : Type 0 where
  timeout network_error rate_limited server_error provider_error auth_error config_error
        request_error invalid_envelope invalid_output http_error :
      AttemptFailure

pub data AttemptOutcome : Type 0 where
  success : AttemptOutcome
  failure : AttemptFailure → AttemptOutcome

pub data FailureCategory : Type 0 where
  attempt : AttemptFailure → FailureCategory
  circuit_open : FailureCategory

-- A whole number that can be negative.
pub data ℤ : Type 0 where
  pos negsuc : ℕ → ℤ

unfoldable pub is_transient_failure : FailureCategory → Bool
is_transient_failure (attempt auth_error) = false
is_transient_failure (attempt config_error) = false
is_transient_failure (attempt request_error) = false
is_transient_failure _ = true

unfoldable pub is_batch_fatal_failure : FailureCategory → Bool
is_batch_fatal_failure (attempt auth_error) = true
is_batch_fatal_failure (attempt config_error) = true
is_batch_fatal_failure _ = false

unfoldable pub is_breaker_tripping_failure : FailureCategory → Bool
is_breaker_tripping_failure (attempt timeout) = true
is_breaker_tripping_failure (attempt network_error) = true
is_breaker_tripping_failure (attempt rate_limited) = true
is_breaker_tripping_failure (attempt server_error) = true
is_breaker_tripping_failure (attempt provider_error) = true
is_breaker_tripping_failure _ = false

unfoldable pub classify_http_status : ℤ → AttemptFailure
classify_http_status (negsuc n) = http_error
classify_http_status (pos status) =
    if (status == 401) || (status == 403)
    then auth_error
    else if status == 408
    then timeout
    else if status == 429
    then rate_limited
    else if (status == 502) || (status == 503) || (status == 504)
    then provider_error
    else if leb 500 status
    then server_error
    else if (status == 402) || (status == 404) || (status == 405)
    then config_error
    else if leb 400 status
    then request_error
    else http_error

abbrev pub config_types : List Text
config_types = codes "payment_required" ∷ codes "not_found" ∷ []

abbrev pub provider_types : List Text
provider_types = codes "provider_overloaded" ∷ codes "provider_unavailable" ∷ []

abbrev pub server_types : List Text
server_types = codes "server" ∷ codes "unmapped" ∷ []

abbrev pub request_types : List Text
request_types =
    codes "context_length_exceeded"
    ∷ codes "max_tokens_exceeded"
    ∷ codes "token_limit_exceeded"
    ∷ codes "string_too_long"
    ∷ codes "permission_denied"
    ∷ codes "invalid_request"
    ∷ codes "invalid_prompt"
    ∷ codes "precondition_failed"
    ∷ codes "payload_too_large"
    ∷ codes "unprocessable"
    ∷ codes "content_policy_violation"
    ∷ codes "refusal"
    ∷ codes "invalid_image"
    ∷ codes "image_too_large"
    ∷ codes "image_too_small"
    ∷ codes "unsupported_image_format"
    ∷ codes "image_not_found"
    ∷ codes "image_download_failed"
    ∷ []

unfoldable pub classify_error_type : Option Text → ℤ → AttemptFailure
unfolding classify_http_status
classify_error_type none fallback_status = classify_http_status fallback_status
classify_error_type (some error_type) fallback_status =
    if same error_type (codes "authentication")
    then auth_error
    else if contains config_types error_type
    then config_error
    else if same error_type (codes "rate_limit_exceeded")
    then rate_limited
    else if contains provider_types error_type
    then provider_error
    else if same error_type (codes "timeout")
    then timeout
    else if contains server_types error_type
    then server_error
    else if contains request_types error_type
    then request_error
    else classify_http_status fallback_status
