-- ===== src/Delivery/Kept.antt =====
-- What the chunks of telegram-notifier.ts hold, up to the separators.
use argos_career.Base.{
  ℕ, zero, suc, ◌+◌, ◌-◌, ◌≡◌, refl, sym, ◌∙◌, ap, inl, inr, Bool, true, false, not, ◌&&◌, ◌||◌,
  Text, codes, is_empty, starts_with, some, List, [], ◌∷◌, ◌++◌, filter, length, ltb, ◌==◌,
  if◌then◌else◌, arith, Bool-cases,
}
use mathlib.Core.List.{append-nil, append_assoc}
use argos_career.Delivery.Split.{
  section_separator, entry_separator, units, utf16_length, onto_first, split_from, pack_from, pack,
  split_atomic_from, split_atomic_part, flat_map, exceeds, entries_of, split_for_telegram,
}

-- The characters that are not part of a separator.

abbrev pub is_kept : ℕ → Bool
is_kept c = not ((c == 0x0a) || (c == 0x2d))

abbrev pub kept : Text → Text
kept s = filter is_kept s

abbrev pub kept_all : List Text → Text
kept_all [] = []
kept_all (s ∷ ss) = kept s ++ kept_all ss

kept-append : (s t : Text) → kept (s ++ t) ≡ kept s ++ kept t
kept-append [] t = refl
kept-append (c ∷ s) t = ground (arith, kept-append s t)

kept_all-append : (ss ts : List Text) → kept_all (ss ++ ts) ≡ kept_all ss ++ kept_all ts
kept_all-append [] ts = refl
kept_all-append (s ∷ ss) ts =
    rw (kept_all-append ss ts) (sym (append_assoc (kept s) (kept_all ss) (kept_all ts)))

abbrev drop : ℕ → Text → Text
drop zero s = s
drop (suc n) [] = []
drop (suc n) (c ∷ s) = drop n s

kept-drop :
    (s separator : Text)
    → kept separator ≡ []
    → starts_with s separator ≡ true
    → kept (drop (length separator) s) ≡ kept s
kept-drop s [] bare h = refl
kept-drop [] (d ∷ p) bare h = cc
kept-drop (c ∷ s) (d ∷ p) bare h = ground (arith, kept-drop s p)

kept_all-onto_first :
    (c : ℕ) (ws : List Text) → kept_all (onto_first c ws) ≡ kept (c ∷ []) ++ kept_all ws
kept_all-onto_first c [] = ground arith
kept_all-onto_first c (w ∷ ws) = ground arith

kept_all-split_from :
    (d : ℕ) (p : Text) (skip : ℕ) (s : Text)
    → is_kept d ≡ false
    → kept p ≡ []
    → kept_all (split_from (d ∷ p) skip s) ≡ kept (drop skip s)
unfolding split_from
kept_all-split_from d p zero [] first bare = refl
kept_all-split_from d p (suc skip) [] first bare = refl
kept_all-split_from d p (suc skip) (c ∷ s) first bare = kept_all-split_from d p skip s first bare
kept_all-split_from d p zero (c ∷ s) first bare =
    let less_one : suc (length p) - 1 ≡ length p = omega arith in
    elim (Bool-cases (starts_with (c ∷ s) (d ∷ p))) [
      | inl e ↦
          rw (split_from, e)
            (rw less_one
              (kept_all-split_from d p (length p) s first bare ∙ ground (arith, kept-drop s p)))
      | inr e ↦
          rw (split_from, e)
            (kept_all-onto_first c (split_from (d ∷ p) 0 s)
              ∙ ground (arith, kept_all-split_from d p 0 s first bare))
    ]

kept_all-pack_from :
    (separator : Text) (limit : ℕ) (current : Text) (parts : List Text)
    → kept separator ≡ []
    → kept_all (pack_from separator limit current parts) ≡ kept current ++ kept_all parts
unfolding pack_from
kept_all-pack_from separator limit [] [] bare = refl
kept_all-pack_from separator limit (c ∷ current) [] bare = refl
kept_all-pack_from separator limit [] (part ∷ parts) bare =
    elim (Bool-cases (ltb limit (utf16_length part))) [
      | inl e ↦ rw (pack_from, e) (kept_all-pack_from separator limit part parts bare)
      | inr e ↦ rw (pack_from, e) (kept_all-pack_from separator limit part parts bare)
    ]
kept_all-pack_from separator limit (c ∷ current) (part ∷ parts) bare =
    let candidate = (c ∷ current) ++ (separator ++ part) in
    let joined : kept candidate ≡ kept (c ∷ current) ++ kept part =
      kept-append (c ∷ current) (separator ++ part)
      ∙ ap (λ t. kept (c ∷ current) ++ t) (kept-append separator part ∙ rw bare refl) in
    elim (Bool-cases (ltb limit (utf16_length candidate))) [
      | inl e ↦
          rw (pack_from, e)
            (ap (λ t. kept (c ∷ current) ++ t) (kept_all-pack_from separator limit part parts bare))
      | inr e ↦
          rw (pack_from, e)
            (kept_all-pack_from separator limit candidate parts bare
              ∙ (rw joined (append_assoc (kept (c ∷ current)) (kept part) (kept_all parts))))
    ]

kept_all-split_atomic_from :
    (limit : ℕ) (current symbols : Text)
    → kept_all (split_atomic_from limit current symbols) ≡ kept current ++ kept symbols
unfolding split_atomic_from
kept_all-split_atomic_from limit [] [] = refl
kept_all-split_atomic_from limit (c ∷ current) [] = refl
kept_all-split_atomic_from limit current (symbol ∷ symbols) =
    let one : kept (symbol ∷ []) ++ kept symbols ≡ kept (symbol ∷ symbols) = ground arith in
    elim (Bool-cases (not (is_empty current) && ltb limit (utf16_length current + units symbol))) [
      | inl e ↦
          rw (split_atomic_from, e)
            (ap (λ t. kept current ++ t)
              (kept_all-split_atomic_from limit (symbol ∷ []) symbols ∙ one))
      | inr e ↦
          rw (split_atomic_from, e)
            (kept_all-split_atomic_from limit (current ++ symbol ∷ []) symbols
              ∙ (ap (λ t. t ++ kept symbols) (kept-append current (symbol ∷ []))
                  ∙ (append_assoc (kept current) (kept (symbol ∷ [])) (kept symbols)
                      ∙ ap (λ t. kept current ++ t) one)))
    ]

kept_all-split_atomic_part :
    (part : Text) (limit : ℕ) → kept_all (split_atomic_part part limit) ≡ kept part
unfolding split_atomic_part
kept_all-split_atomic_part part limit =
    ground (arith, kept_all-split_atomic_from limit [] part, append-nil (kept part))

kept_all-flat_map :
    (f : Text → List Text) (xs : List Text)
    → ((x : Text) → kept_all (f x) ≡ kept x)
    → kept_all (flat_map f xs) ≡ kept_all xs
kept_all-flat_map f [] h = refl
kept_all-flat_map f (x ∷ xs) h =
    kept_all-append (f x) (flat_map f xs)
    ∙ (ap (λ t. t ++ kept_all (flat_map f xs)) (h x)
        ∙ ap (λ t. kept x ++ t) (kept_all-flat_map f xs h))

kept_all-entries_of :
    (limit : ℕ) (section : Text) → kept_all (entries_of limit section) ≡ kept section
unfolding entries_of
kept_all-entries_of limit section =
    kept_all-flat_map (λ entry. split_atomic_part entry limit)
      (if exceeds limit section then split_from entry_separator 0 section else section ∷ [])
      (λ entry. kept_all-split_atomic_part entry limit)
    ∙ elim (Bool-cases (exceeds limit section)) [
      | inl e ↦ rw e (kept_all-split_from 0x0a (0x0a ∷ []) 0 section refl refl)
      | inr e ↦ rw e (append-nil (kept section))
    ]

-- Whatever the split returns, its chunks hold the text in order: nothing is lost, repeated or moved
-- but line feeds and hyphens, of which the separators are made.
pub kept_all-split_for_telegram :
    (text : Text) (limit : ℕ) (chunks : List Text)
    → split_for_telegram text limit ≡ some chunks
    → kept_all chunks ≡ kept text
unfolding split_for_telegram pack
kept_all-split_for_telegram text limit chunks h =
    let sections = split_from section_separator 0 text in
    let finer = flat_map (entries_of limit) sections in
    let whole : kept_all sections ≡ kept text =
      kept_all-split_from 0x0a (codes "\n---\n\n") 0 text refl refl in
    ground (
      arith,
      whole,
      kept_all-flat_map (entries_of limit) sections (kept_all-entries_of limit),
      kept_all-pack_from section_separator limit [] sections refl,
      kept_all-pack_from entry_separator limit [] finer refl,
    )
