-- ===== src/Llm/Limits.antt =====
-- The limits of openrouter-client.ts on what a response can hold.
use mathlib.Core.List.{append_assoc, append-nil}
use argos_career.Base.{
  ℕ, ◌+◌, ◌≤◌, ◌≡◌, refl, sym, ap, ◌∙◌, inl, inr, Option, none, some, List, [], ◌∷◌, ◌++◌, length,
  ltb, arith, Bool-cases, Text,
}
use argos_career.Llm.Body.{
  exceeds, Stream, done, chunk, fails, Read, whole, read_chunks, read_body, HeaderNumber,
  parse_retry_after_ms, max_retry_after_ms,
}

-- All bytes of a stream that does not fail.

unfoldable pub bytes_of : Stream → Option (List ℕ)
bytes_of done = some []
bytes_of (fails aborted) = none
bytes_of (chunk value stream) = elim (bytes_of stream) [
  | none ↦ none
  | some bytes ↦ some (value ++ bytes)
]

abbrev pub body_of : Option Stream → Option (List ℕ)
unfolding bytes_of
body_of none = some []
body_of (some stream) = bytes_of stream

length-++ : (xs ys : List ℕ) → length (xs ++ ys) ≡ length xs + length ys
length-++ [] ys = omega arith
length-++ (x ∷ xs) ys = ground (arith, length-++ xs ys)

kept_bytes : (xs ys : List ℕ) → whole xs ≡ whole ys → xs ≡ ys
kept_bytes xs ys e = cc

-- What reading a stream after the bytes `chunks` leaves.
abbrev IsRead : ℕ → List ℕ → Stream → List ℕ → Type 0
unfolding bytes_of
IsRead max chunks stream bytes =
    (length bytes ≤ max)
    × (rest : List ℕ) × (bytes_of stream ≡ some rest)
    × (bytes ≡ chunks ++ rest)

read_chunks-IsRead :
    (max total : ℕ) (chunks : List ℕ) (stream : Stream) (bytes : List ℕ)
    → total ≡ length chunks
    → total ≤ max
    → read_chunks max total chunks stream ≡ whole bytes
    → IsRead max chunks stream bytes
unfolding read_chunks bytes_of
read_chunks-IsRead max total chunks done bytes t h e =
    let q = kept_bytes chunks bytes e in
    (rw (← q, ← t) h, [], refl, sym q ∙ sym (append-nil chunks))
read_chunks-IsRead max total chunks (fails aborted) bytes t h e = cc
read_chunks-IsRead max total chunks (chunk value stream) bytes t h e =
    elim (Bool-cases (ltb max (total + length value))) [
      | inl k ↦ absurd (ground (arith, e, k))
      | inr k ↦
          let (bound, rest, ended, q) =
            read_chunks-IsRead max (total + length value) (chunks ++ value) stream bytes
              (rw (t, length-++ chunks value) refl) (ground (arith, k)) (rw k at e) in
          (bound, value ++ rest, rw (bytes_of, ended) refl, q ∙ append_assoc chunks value rest)
    ]

undeclared-whole :
    (max : ℕ) (body : Option Stream) (bytes : List ℕ)
    → elim body as (λ _. Read) [ none ↦ whole [] | some stream ↦ read_chunks max 0 [] stream ]
      ≡ whole bytes
    → (length bytes ≤ max) × (body_of body ≡ some bytes)
unfolding bytes_of
undeclared-whole max none bytes e =
    let q = kept_bytes [] bytes e in (rw (← q) (omega arith), ap (λ l. some l) q)
undeclared-whole max (some stream) bytes e =
    let (bound, rest, ended, q) = read_chunks-IsRead max 0 [] stream bytes refl (omega arith) e in
    (bound, rw q ended)

-- A response whose body is read whole had that body: it ended without a failure, and no more bytes
-- than the limit are held. A declared length over the limit is never read.
pub read_body-whole :
    (max : ℕ) (declared : Option ℕ) (body : Option Stream) (bytes : List ℕ)
    → read_body max declared body ≡ whole bytes
    → (length bytes ≤ max) × (body_of body ≡ some bytes) × ((n : ℕ) → declared ≡ some n → n ≤ max)
unfolding read_body bytes_of
read_body-whole max declared body bytes e = elim (Bool-cases (exceeds max declared)) [
  | inl k ↦ absurd (ground (arith, e, k))
  | inr k ↦
      let (bound, held) = undeclared-whole max body bytes (rw k at e) in
      (bound, held, λ n d. ground (arith, d, k))
]

-- However long the wait that a header asks for, it is at most 30 seconds.
pub parse_retry_after_ms_bounds :
    (number_of : Text → HeaderNumber) (date_of : Text → Option ℕ) (now : ℕ) (header : Option Text)
    (ms : ℕ)
    → parse_retry_after_ms number_of date_of now header ≡ some ms
    → ms ≤ max_retry_after_ms
unfolding parse_retry_after_ms
parse_retry_after_ms_bounds number_of date_of now none ms e = cc
parse_retry_after_ms_bounds number_of date_of now (some h) ms e = ground arith
