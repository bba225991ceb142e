-- ===== src/Llm/Within.antt =====
-- That `normalizeModelOutput` of llm-output.ts only cuts.
use mathlib.Core.Path.{subst}
use mathlib.Core.Option.{some-injective}
use mathlib.Core.List.{append_assoc, append-nil}
use argos_career.Base.{
  ℕ, zero, suc, ◌-◌, ◌+◌, ◌≡◌, refl, sym, ap, inl, inr, Bool, true, false, Option, none, some, List,
  [], ◌∷◌, ◌++◌, take, drop, Text, codes, starts_with, trim, trim_start, trim_end, is_space, ltb,
  Bool-cases, Option-cases, if◌then◌else◌, arith, All,
}
use argos_career.Llm.Normalize.{
  slice, skip_letters, skip_newline, strip_opening_fence, strip_closing_fence, slice_from,
  slices_of, first_parsing, chosen, cons_some, without_fences, normalize_model_output,
}

-- A text stands in another, in one piece.

abbrev pub IsWithin : Text → Text → Type 0
IsWithin s t = (before after : Text) × (t ≡ before ++ (s ++ after))

IsWithin-refl : (s : Text) → IsWithin s s
IsWithin-refl s = ([], [], sym (append-nil s))

IsWithin-trans : (s t u : Text) → IsWithin s t → IsWithin t u → IsWithin s u
IsWithin-trans s t u (a, b, p) (c, d, q) = (
  c ++ a,
  b ++ d,
  rw (q, p, append_assoc c a (s ++ (b ++ d)), append_assoc a (s ++ b) d, append_assoc s b d) refl,
)

IsWithin-cons : (c : ℕ) (s t : Text) → IsWithin s t → IsWithin s (c ∷ t)
IsWithin-cons c s t (a, b, p) = (c ∷ a, b, ap (λ l. c ∷ l) p)

IsWithin-drop : (n : ℕ) (s : Text) → IsWithin (drop n s) s
IsWithin-drop zero s = IsWithin-refl s
IsWithin-drop (suc n) [] = IsWithin-refl []
IsWithin-drop (suc n) (c ∷ s) = IsWithin-cons c (drop n s) s (IsWithin-drop n s)

-- A text that stands at the front of another.

abbrev IsFront : Text → Text → Type 0
IsFront s t = (after : Text) × (t ≡ s ++ after)

IsFront-cons : (c : ℕ) (s t : Text) → IsFront s t → IsFront (c ∷ s) (c ∷ t)
IsFront-cons c s t (a, p) = (a, ap (λ l. c ∷ l) p)

IsWithin-of_IsFront : (s t : Text) → IsFront s t → IsWithin s t
IsWithin-of_IsFront s t (a, p) = ([], a, p)

IsFront-take : (n : ℕ) (s : Text) → IsFront (take n s) s
IsFront-take zero s = (s, refl)
IsFront-take (suc n) [] = ([], refl)
IsFront-take (suc n) (c ∷ s) = IsFront-cons c (take n s) s (IsFront-take n s)

IsWithin-slice : (from to : ℕ) (s : Text) → IsWithin (slice from to s) s
IsWithin-slice from to s =
    IsWithin-trans _ (drop from s) s
      (IsWithin-of_IsFront _ _ (IsFront-take (to - from) (drop from s))) (IsWithin-drop from s)

IsWithin-if_cons :
    (b : Bool) (c : ℕ) (s t : Text) → IsWithin t s → IsWithin (if b then t else c ∷ s) (c ∷ s)
IsWithin-if_cons true c s t h = IsWithin-cons c t s h
IsWithin-if_cons false c s t h = IsWithin-refl (c ∷ s)

IsWithin-skip_letters : (s : Text) → IsWithin (skip_letters s) s
unfolding skip_letters
IsWithin-skip_letters [] = IsWithin-refl []
IsWithin-skip_letters (c ∷ s) = IsWithin-if_cons _ c s _ (IsWithin-skip_letters s)

IsWithin-skip_newline : (s : Text) → IsWithin (skip_newline s) s
unfolding skip_newline
IsWithin-skip_newline [] = IsWithin-refl []
IsWithin-skip_newline (c ∷ s) = IsWithin-if_cons _ c s _ (IsWithin-refl s)

IsWithin-trim_start : (s : Text) → IsWithin (trim_start s) s
unfolding trim_start
IsWithin-trim_start [] = IsWithin-refl []
IsWithin-trim_start (c ∷ s) = IsWithin-if_cons _ c s _ (IsWithin-trim_start s)

IsFront-trim_end : (s : Text) → IsFront (trim_end s) s
unfolding trim_end
IsFront-trim_end [] = ([], refl)
IsFront-trim_end (c ∷ s) = go (trim_end s) refl (IsFront-trim_end s)
  where
    go : (t : Text) → trim_end s ≡ t → IsFront t s → IsFront (trim_end (c ∷ s)) (c ∷ s)
    go [] e (a, p) = elim (Bool-cases (is_space c)) [
      | inl k ↦ rw (trim_end, e, k) (c ∷ s, refl)
      | inr k ↦ rw (trim_end, e, k) (IsFront-cons c [] s (a, p))
    ]
    go (d ∷ t) e (a, p) = rw (trim_end, e) (IsFront-cons c (d ∷ t) s (a, p))

IsWithin-trim : (s : Text) → IsWithin (trim s) s
unfolding trim
IsWithin-trim s =
    IsWithin-trans _ (trim_start s) s (IsWithin-of_IsFront _ _ (IsFront-trim_end (trim_start s)))
      (IsWithin-trim_start s)

IsWithin-strip_opening_fence : (s : Text) → IsWithin (strip_opening_fence s) s
unfolding strip_opening_fence
IsWithin-strip_opening_fence s = elim (Bool-cases (starts_with s (codes "```"))) [
  | inl e ↦ rw e (
      IsWithin-trans _ (skip_letters (drop 3 s)) s (IsWithin-skip_newline _)
        (IsWithin-trans _ (drop 3 s) s (IsWithin-skip_letters _) (IsWithin-drop 3 s)))
  | inr e ↦ rw e (IsWithin-refl s)
]

IsFront-strip_closing_fence : (s : Text) → IsFront (strip_closing_fence s) s
unfolding strip_closing_fence
IsFront-strip_closing_fence [] = ([], refl)
IsFront-strip_closing_fence (c ∷ s) = go _ (IsFront-strip_closing_fence s)
  where
    go :
        (b : Bool)
        → IsFront (strip_closing_fence s) s
        → IsFront (if b then [] else c ∷ strip_closing_fence s) (c ∷ s)
    go true h = (c ∷ s, refl)
    go false h = IsFront-cons c (strip_closing_fence s) s h

IsWithin-without_fences : (raw : Text) → IsWithin (without_fences raw) raw
unfolding without_fences
IsWithin-without_fences raw =
    let opened = strip_opening_fence (trim raw) in
    IsWithin-trans _ (strip_closing_fence opened) raw (IsWithin-trim _) (
      IsWithin-trans _ opened raw (IsWithin-of_IsFront _ _ (IsFront-strip_closing_fence opened))
        (IsWithin-trans _ (trim raw) raw (IsWithin-strip_opening_fence _) (IsWithin-trim raw)))

-- The slices, and the choice among them.

AllWithin : Text → List Text → Type 0
AllWithin s slices = All (λ t. IsWithin t s) slices

AllWithin-cons_some :
    (s : Text) (o : Option Text) (slices : List Text)
    → ((t : Text) → o ≡ some t → IsWithin t s)
    → AllWithin s slices
    → AllWithin s (cons_some o slices)
unfolding AllWithin
AllWithin-cons_some s none slices h k = k
AllWithin-cons_some s (some t) slices h k = (h t refl, k)

IsWithin-slice_from :
    (s : Text) (open_char start : ℕ) (t : Text)
    → slice_from s open_char start ≡ some t
    → IsWithin t s
unfolding slice_from
IsWithin-slice_from s open_char start t e = go _ e
  where
    go :
        (o : Option ℕ)
        → elim o as (λ _. Option Text) [
          | none ↦ none
          | some end ↦ (if ltb end start then none else some (slice start (end + 1) s))
        ]
          ≡ some t
        → IsWithin t s
    go none e = cc
    go (some end) e = elim (Bool-cases (ltb end start)) [
      | inl k ↦ absurd (ground (arith, e, k))
      | inr k ↦
          subst (λ u. IsWithin u s) (some-injective _ _ (rw k at e))
            (IsWithin-slice start (end + 1) s)
    ]

AllWithin-slices_of : (s : Text) (starts : List (ℕ × ℕ)) → AllWithin s (slices_of s starts)
unfolding slices_of AllWithin
AllWithin-slices_of s [] = tt
AllWithin-slices_of s ((open_char, start) ∷ starts) =
    AllWithin-cons_some s (slice_from s open_char start) (slices_of s starts)
      (IsWithin-slice_from s open_char start) (AllWithin-slices_of s starts)

IsWithin-first_parsing :
    (parses : Text → Bool) (s : Text) (slices : List Text) (t : Text)
    → AllWithin s slices
    → first_parsing parses slices ≡ some t
    → IsWithin t s
unfolding first_parsing AllWithin
IsWithin-first_parsing parses s [] t h e = cc
IsWithin-first_parsing parses s (u ∷ slices) t h e = elim (Bool-cases (parses u)) [
  | inl k ↦ subst (λ v. IsWithin v s) (some-injective _ _ (rw k at e)) h.0
  | inr k ↦ IsWithin-first_parsing parses s slices t h.1 (rw k at e)
]

IsWithin-chosen :
    (parses : Text → Bool) (s : Text) (slices : List Text)
    → AllWithin s slices
    → IsWithin (chosen parses s slices) s
unfolding chosen AllWithin
IsWithin-chosen parses s [] h = IsWithin-refl s
IsWithin-chosen parses s (t ∷ slices) h = elim (Option-cases (first_parsing parses (t ∷ slices))) [
  | inl e ↦ rw (chosen, e) h.0
  | inr (found, e) ↦ rw (chosen, e) (IsWithin-first_parsing parses s (t ∷ slices) found h e)
]

-- Normalizing only cuts: what it leaves of an answer stands in the answer in one piece, whatever
-- texts JSON.parse takes.
pub IsWithin-normalize_model_output :
    (parses : Text → Bool) (raw : Text) → IsWithin (normalize_model_output parses raw) raw
unfolding normalize_model_output
IsWithin-normalize_model_output parses raw =
    IsWithin-trans _ (without_fences raw) raw
      (IsWithin-chosen parses (without_fences raw) _ (AllWithin-slices_of (without_fences raw) _))
      (IsWithin-without_fences raw)
