-- ===== src/Llm/Body.antt =====
-- Reading a response in src/scoring/infrastructure/openrouter-client.ts: the bounded body, and the
-- wait that a `Retry-After` header asks for. Decoding UTF-8 and parsing numbers and dates are
-- arguments.
use argos_career.Base.{
  ℕ, ◌+◌, ◌-◌, Bool, false, Option, none, some, List, [], ◌++◌, Text, length, leb, ltb, is_empty,
  if◌then◌else◌,
}

-- What the stream of a body yields: chunks of bytes up to its end, or up to a failure, which is the
-- abort of the deadline or another one.

pub data Stream : Type 0 where
  done : Stream
  chunk : List ℕ → Stream → Stream
  fails : Bool → Stream

-- What reading comes to: the bytes, or a failure with whether the deadline had aborted it.
pub data Read : Type 0 where
  whole : List ℕ → Read
  broken : Bool → Read

unfoldable pub read_chunks : ℕ → ℕ → List ℕ → Stream → Read
read_chunks max_response_bytes total chunks done = whole chunks
read_chunks max_response_bytes total chunks (fails aborted) = broken aborted
read_chunks max_response_bytes total chunks (chunk value stream) =
    let rest = read_chunks max_response_bytes (total + length value) (chunks ++ value) stream in
    if ltb max_response_bytes (total + length value) then broken false else rest

abbrev pub exceeds : ℕ → Option ℕ → Bool
exceeds max_response_bytes none = false
exceeds max_response_bytes (some declared) = ltb max_response_bytes declared

-- The second argument is the declared length, where it is a finite number.
unfoldable pub read_body : ℕ → Option ℕ → Option Stream → Read
unfolding read_chunks
read_body max_response_bytes declared body =
    if exceeds max_response_bytes declared
    then broken false
    else elim body [ none ↦ whole [] | some stream ↦ read_chunks max_response_bytes 0 [] stream ]

abbrev pub max_retry_after_ms : ℕ
max_retry_after_ms = 30_000

-- `Number(header)`: not finite, negative, or a count of seconds, here as whole milliseconds.
pub data HeaderNumber : Type 0 where
  not_finite negative : HeaderNumber
  seconds_ms : ℕ → HeaderNumber

abbrev pub min : ℕ → ℕ → ℕ
min a b = if leb a b then a else b

-- `Math.max(dateMs - now, 0)` is the subtraction that stops at 0.
unfoldable pub parse_retry_after_ms :
    (Text → HeaderNumber) → (Text → Option ℕ) → ℕ → Option Text → Option ℕ
parse_retry_after_ms number_of date_of now none = none
parse_retry_after_ms number_of date_of now (some header) =
    if is_empty header then none else elim (number_of header) [
      | seconds_ms ms ↦ some (min ms max_retry_after_ms)
      | negative ↦ none
      | not_finite ↦ elim (date_of header) [
        | none ↦ none
        | some date ↦ some (min (date - now) max_retry_after_ms)
      ]
    ]
