-- ===== src/Delivery/Split.antt =====
-- src/delivery/infrastructure/telegram-notifier.ts: `splitForTelegram` and its helpers. A text is its
-- code points; the lengths that the source compares count UTF-16 units.
use argos_career.Base.{
  ◌≡◌, refl, ℕ, zero, suc, ◌+◌, ◌-◌, Bool, true, false, not, ◌&&◌, Text, codes, is_empty,
  starts_with, Option, none, some, List, [], ◌∷◌, ◌++◌, length, any, ltb, leb, if◌then◌else◌,
}

abbrev pub telegram_message_limit : ℕ
telegram_message_limit = 4096

abbrev pub section_separator : Text
section_separator = codes "\n\n---\n\n"

abbrev pub entry_separator : Text
entry_separator = codes "\n\n"

abbrev pub units : ℕ → ℕ
units c = if ltb c 0x10000 then 1 else 2

-- `String.prototype.length`.
unfoldable pub utf16_length : Text → ℕ
utf16_length [] = 0
utf16_length (c ∷ s) = units c + utf16_length s

abbrev pub onto_first : ℕ → List Text → List Text
onto_first c [] = (c ∷ []) ∷ []
onto_first c (w ∷ ws) = (c ∷ w) ∷ ws

-- `String.prototype.split` at a separator that is not empty. The number counts the characters of
-- a separator that are still to be passed over.
unfoldable pub split_from : Text → ℕ → Text → List Text
split_from separator skip [] = [] ∷ []
split_from separator (suc skip) (c ∷ s) = split_from separator skip s
split_from separator zero (c ∷ s) = elim (starts_with (c ∷ s) separator) [
  | true ↦ [] ∷ split_from separator (length separator - 1) s
  | false ↦ onto_first c (split_from separator zero s)
]

-- The loop of `pack`, whose variable `current` is the second argument.
unfoldable pub pack_from : Text → ℕ → Text → List Text → List Text
unfolding utf16_length
pack_from separator limit current [] = if is_empty current then [] else current ∷ []
pack_from separator limit current (part ∷ parts) =
    let candidate = if is_empty current then part else current ++ (separator ++ part) in
    elim (ltb limit (utf16_length candidate) && not (is_empty current)) [
      | true ↦ current ∷ pack_from separator limit part parts
      | false ↦ pack_from separator limit candidate parts
    ]

unfoldable pub pack : List Text → Text → ℕ → List Text
unfolding pack_from
pack parts separator limit = pack_from separator limit [] parts

-- The loop of `splitAtomicPart`.
unfoldable pub split_atomic_from : ℕ → Text → Text → List Text
unfolding utf16_length
split_atomic_from limit current [] = if is_empty current then [] else current ∷ []
split_atomic_from limit current (symbol ∷ symbols) =
    elim (not (is_empty current) && ltb limit (utf16_length current + units symbol)) [
      | true ↦ current ∷ split_atomic_from limit (symbol ∷ []) symbols
      | false ↦ split_atomic_from limit (current ++ symbol ∷ []) symbols
    ]

unfoldable pub split_atomic_part : Text → ℕ → List Text
unfolding utf16_length split_atomic_from
split_atomic_part part limit =
    if leb (utf16_length part) limit then part ∷ [] else split_atomic_from limit [] part

abbrev pub flat_map : (Text → List Text) → List Text → List Text
flat_map f [] = []
flat_map f (x ∷ xs) = f x ++ flat_map f xs

abbrev pub exceeds : ℕ → Text → Bool
exceeds limit s = ltb limit (utf16_length s)

unfoldable pub entries_of : ℕ → Text → List Text
unfolding split_from utf16_length split_atomic_part
entries_of limit section =
    flat_map (λ entry. split_atomic_part entry limit)
      (if exceeds limit section then split_from entry_separator 0 section else section ∷ [])

-- `none` where the source throws.
unfoldable pub split_for_telegram : Text → ℕ → Option (List Text)
unfolding split_from utf16_length pack entries_of
split_for_telegram text limit =
    if ltb limit 2
    then none
    else let sections = split_from section_separator 0 text in
      if not (any (exceeds limit) sections)
      then some (pack sections section_separator limit)
      else some (pack (flat_map (entries_of limit) sections) entry_separator limit)

split_runs :
    (split_for_telegram (codes "ab\n\n---\n\ncd") 20 ≡ some (codes "ab\n\n---\n\ncd" ∷ []))
    × (split_for_telegram (codes "ab\n\n---\n\ncd") 8 ≡ some (codes "ab" ∷ codes "cd" ∷ []))
    × (split_for_telegram (codes "ab\n\nabcdefg\n\n---\n\ncd") 4
        ≡ some (codes "ab" ∷ codes "abcd" ∷ codes "efg" ∷ codes "cd" ∷ []))
unfolding split_for_telegram
split_runs = (refl, refl, refl)
