-- ===== src/Llm/Examples.antt =====
-- The theorems on openrouter-client.ts and llm-output.ts at a client that is asked twice, and at a
-- model that first answers with prose.
use argos_career.Base.{
  ℕ, zero, suc, ◌+◌, ◌-◌, ◌≤◌, ◌≡◌, ◌≢◌, refl, Bool, Text, codes, same, none, some, List, [], ◌∷◌,
  length, All, if◌then◌else◌,
}
use argos_career.Transport.CircuitBreaker.{CircuitBreaker, closed, half_open, before_call}
use argos_career.Llm.Body.{done, chunk, not_finite, read_body, whole}
use argos_career.Llm.Client.{
  OpenRouterClient, Parsing, Json, stage_b, new_client, Answer, responded, start, settle,
}
use argos_career.Llm.Accounting.{Reaches, fresh, begun, settled, IsAccounted, Reaches-IsAccounted}
use argos_career.Llm.Normalize.{normalize_model_output}
use argos_career.Llm.Within.{IsWithin, IsWithin-normalize_model_output}
use argos_career.Llm.Limits.{body_of, read_body-whole}
use argos_career.Llm.Output.{
  Asking, answered, json, syntax_error, valid, Budgets, LlmParseResult, ok,
  parse_model_output_with_retries, build_retry_prompt,
}
use argos_career.Llm.Budgets.{
  attempts_of, IsPrompt, IsSound, parse_model_output_with_retries_terminates,
  parse_model_output_with_retries-IsSound,
}

abbrev breaker : CircuitBreaker
breaker = record {
  state = closed;
  consecutive_failures = 0;
  opened_at = 0;
  failure_threshold = 2;
  cooldown_ms = 50;
}

abbrev good_json : Json
good_json = record {
  envelope = some (record {
    choices = record { content = some (codes "hi"); finish_reason = none; error = none } ∷ [];
    error = none;
    id = none;
    model = none;
    provider = none;
    openrouter_metadata = none;
  });
  usage = none;
}

abbrev parsing : Parsing
parsing = record {
  max_response_bytes = 4;
  parse = λ bytes. elim bytes [ [] ↦ none | b ∷ bs ↦ some good_json ];
  integer_of = λ t. none;
  number_of = λ t. not_finite;
  date_of = λ t. none;
}

abbrev first_client : OpenRouterClient
first_client = (start 10 (new_client breaker)).0

abbrev good_answer : Answer
good_answer = responded (record {
  status = 200;
  content_length = none;
  body = some (chunk (1 ∷ 2 ∷ []) done);
  generation_header = none;
  retry_after = none;
})

-- Two calls in flight, of which the first is answered.
abbrev asked_twice : OpenRouterClient
asked_twice = (start 11 first_client).0

reached : Reaches breaker parsing (settle parsing stage_b 12 good_answer asked_twice).0 1
unfolding start before_call new_client
reached =
    settled asked_twice 1 stage_b 12 good_answer
      (begun first_client 1 11 (begun (new_client breaker) 0 10 fresh refl) refl)

not_half_open : closed ≢ half_open
not_half_open e = cc

Reaches-IsAccounted_example : IsAccounted (settle parsing stage_b 12 good_answer asked_twice).0 1
Reaches-IsAccounted_example =
    Reaches-IsAccounted breaker parsing (settle parsing stage_b 12 good_answer asked_twice).0 1
      not_half_open reached

bytes_read :
    read_body 4 (some 3) (some (chunk (1 ∷ 2 ∷ []) (chunk (3 ∷ []) done))) ≡ whole (1 ∷ 2 ∷ 3 ∷ [])
unfolding read_body
bytes_read = refl

read_body-whole_example :
    (length {A = ℕ} (1 ∷ 2 ∷ 3 ∷ []) ≤ 4)
    × (body_of (some (chunk (1 ∷ 2 ∷ []) (chunk (3 ∷ []) done))) ≡ some (1 ∷ 2 ∷ 3 ∷ []))
    × ((n : ℕ) → some 3 ≡ some n → n ≤ 4)
read_body-whole_example =
    read_body-whole 4 (some 3) (some (chunk (1 ∷ 2 ∷ []) (chunk (3 ∷ []) done))) (1 ∷ 2 ∷ 3 ∷ [])
      bytes_read

-- JSON is one text.

abbrev answer_text : Text
answer_text = codes "{1}"

abbrev is_answer : Text → Bool
is_answer t = same t answer_text

abbrev wordy : Text
wordy = codes "See [x]: ```json {1} ```"

normalize_wordy : normalize_model_output is_answer wordy ≡ answer_text
unfolding normalize_model_output
normalize_wordy = refl

IsWithin-normalize_model_output_example : IsWithin (normalize_model_output is_answer wordy) wordy
IsWithin-normalize_model_output_example = IsWithin-normalize_model_output is_answer wordy

-- The model answers with prose, and then with JSON; the world counts the requests.
abbrev asking : Asking ℕ Text Text
asking = record {
  ask = λ n prompt. elim n [ zero ↦ (1, answered (codes "Sorry.")) | suc k ↦ (2, answered wordy) ];
  parse = λ t. if is_answer t then json t else syntax_error (codes "Unexpected token");
  schema = λ t. valid t;
  random = λ n cap. cap;
}

abbrev budgets : Budgets
budgets = record { max_transport_attempts = 4; max_repair_attempts = 3 }

abbrev prompts : List Text
prompts =
    codes "Ask"
    ∷ build_retry_prompt (codes "Ask") (codes "Output was not valid JSON: Unexpected token")
    ∷ []

recovered :
    parse_model_output_with_retries asking budgets (codes "Ask") 0
    ≡ some (ok answer_text 2, prompts)
unfolding parse_model_output_with_retries normalize_model_output
recovered = refl

parse_model_output_with_retries_terminates_example :
    (result : LlmParseResult Text) × (asked : List Text) × (parse_model_output_with_retries asking
        budgets
        (codes "Ask")
        0
      ≡ some (result, asked))
    × (attempts_of result ≡ length asked)
    × (1 ≤ length asked)
    × (length asked ≤ 1 + (4 - 1) + (3 - 1))
parse_model_output_with_retries_terminates_example =
    parse_model_output_with_retries_terminates asking budgets (codes "Ask") 0

parse_model_output_with_retries-IsSound_example :
    IsSound asking budgets (codes "Ask") (ok answer_text 2)
    × All (IsPrompt asking budgets (codes "Ask")) prompts
parse_model_output_with_retries-IsSound_example =
    parse_model_output_with_retries-IsSound asking budgets (codes "Ask") 0 (ok answer_text 2)
      prompts recovered
