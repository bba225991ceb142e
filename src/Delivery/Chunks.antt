-- ===== src/Delivery/Chunks.antt =====
-- That the chunks of telegram-notifier.ts can be sent.
use argos_career.Base.{
  ℕ, ◌+◌, ◌≤◌, ◌≡◌, refl, inl, inr, false, not, ◌&&◌, Text, is_empty, some, List, [], ◌∷◌, ◌++◌,
  any, All, ltb, leb, if◌then◌else◌, arith, Bool-cases,
}
use argos_career.Delivery.Split.{
  section_separator, entry_separator, units, utf16_length, split_from, pack_from, pack,
  split_atomic_from, split_atomic_part, flat_map, exceeds, entries_of, split_for_telegram,
}

-- A chunk that can be sent: not empty, and not longer than the limit.

abbrev pub IsSendable : ℕ → Text → Type 0
IsSendable limit s = (is_empty s ≡ false) × (utf16_length s ≤ limit)

utf16_length-append : (s t : Text) → utf16_length (s ++ t) ≡ utf16_length s + utf16_length t
unfolding utf16_length
utf16_length-append [] t = omega arith
utf16_length-append (c ∷ s) t = omega (arith, utf16_length-append s t)

append_not_empty : (s t : Text) → is_empty s ≡ false → is_empty (s ++ t) ≡ false
append_not_empty [] t h = cc
append_not_empty (c ∷ s) t h = refl

pack_from-IsSendable :
    (separator : Text) (limit : ℕ) (current : Text) (parts : List Text)
    → utf16_length current ≤ limit
    → All (λ p. utf16_length p ≤ limit) parts
    → All (IsSendable limit) (pack_from separator limit current parts)
unfolding pack_from
pack_from-IsSendable separator limit current [] low h = elim (Bool-cases (is_empty current)) [
  | inl e ↦ rw e tt
  | inr e ↦ rw e ((e, low), tt)
]
pack_from-IsSendable separator limit current (part ∷ parts) low h =
    let candidate = if is_empty current then part else current ++ (separator ++ part) in
    elim (Bool-cases (ltb limit (utf16_length candidate) && not (is_empty current))) [
      | inl e ↦
          rw (pack_from, e)
            ((ground arith, low), pack_from-IsSendable separator limit part parts h.0 h.1)
      | inr e ↦
          rw (pack_from, e)
            (pack_from-IsSendable separator limit candidate parts (ground (arith, h.0)) h.1)
    ]

split_atomic_from_le :
    (limit : ℕ) (current symbols : Text)
    → 2 ≤ limit
    → utf16_length current ≤ limit
    → All (λ p. utf16_length p ≤ limit) (split_atomic_from limit current symbols)
unfolding split_atomic_from utf16_length
split_atomic_from_le limit current [] two low = elim (Bool-cases (is_empty current)) [
  | inl e ↦ rw e tt
  | inr e ↦ rw e (low, tt)
]
split_atomic_from_le limit current (symbol ∷ symbols) two low =
    elim (Bool-cases (not (is_empty current) && ltb limit (utf16_length current + units symbol))) [
      | inl e ↦
          rw (split_atomic_from, e)
            (low, split_atomic_from_le limit (symbol ∷ []) symbols two (ground arith))
      | inr e ↦
          rw (split_atomic_from, e)
            (split_atomic_from_le limit (current ++ symbol ∷ []) symbols two
              (ground (arith, utf16_length-append current (symbol ∷ []))))
    ]

split_atomic_part_le :
    (part : Text) (limit : ℕ)
    → 2 ≤ limit
    → All (λ p. utf16_length p ≤ limit) (split_atomic_part part limit)
unfolding split_atomic_part utf16_length
split_atomic_part_le part limit two = elim (Bool-cases (leb (utf16_length part) limit)) [
  | inl e ↦ rw e (ground arith, tt)
  | inr e ↦ rw e (split_atomic_from_le limit [] part two (omega arith))
]

All-append : (P : Text → Type 0) (xs ys : List Text) → All P xs → All P ys → All P (xs ++ ys)
All-append P [] ys h k = k
All-append P (x ∷ xs) ys h k = (h.0, All-append P xs ys h.1 k)

All-flat_map :
    (P : Text → Type 0) (f : Text → List Text) (xs : List Text)
    → ((x : Text) → All P (f x))
    → All P (flat_map f xs)
All-flat_map P f [] h = tt
All-flat_map P f (x ∷ xs) h = All-append P (f x) (flat_map f xs) (h x) (All-flat_map P f xs h)

entries_of_le :
    (limit : ℕ) (section : Text)
    → 2 ≤ limit
    → All (λ p. utf16_length p ≤ limit) (entries_of limit section)
unfolding entries_of
entries_of_le limit section two =
    All-flat_map (λ p. utf16_length p ≤ limit) (λ entry. split_atomic_part entry limit)
      (if exceeds limit section then split_from entry_separator 0 section else section ∷ [])
      (λ entry. split_atomic_part_le entry limit two)

none_exceeds :
    (limit : ℕ) (parts : List Text)
    → any (exceeds limit) parts ≡ false
    → All (λ p. utf16_length p ≤ limit) parts
none_exceeds limit [] h = tt
none_exceeds limit (p ∷ ps) h = (ground arith, none_exceeds limit ps (ground arith))

-- For every text and every limit from 2 on, the split returns chunks, and each of them is not empty
-- and not longer than the limit.
pub split_for_telegram-IsSendable :
    (text : Text) (limit : ℕ)
    → 2 ≤ limit
    → (chunks : List Text) × (split_for_telegram text limit ≡ some chunks)
      × All (IsSendable limit) chunks
unfolding split_for_telegram pack
split_for_telegram-IsSendable text limit two =
    let sections = split_from section_separator 0 text in
    let finer = flat_map (entries_of limit) sections in
    elim (Bool-cases (any (exceeds limit) sections)) [
      | inl e ↦ (
        pack finer entry_separator limit,
        ground arith,
        pack_from-IsSendable entry_separator limit [] finer (omega arith) (
            All-flat_map (λ p. utf16_length p ≤ limit) (entries_of limit) sections
              (λ s. entries_of_le limit s two)),
      )
      | inr e ↦ (
        pack sections section_separator limit,
        ground arith,
        pack_from-IsSendable section_separator limit [] sections (omega arith)
            (none_exceeds limit sections e),
      )
    ]
