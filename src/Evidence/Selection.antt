-- ===== src/Evidence/Selection.antt =====
-- What recommendation.ts recommends: the first of the best variants.
use mathlib.Core.Path.{subst}
use mathlib.Core.List.{append_assoc, append-nil}
use argos_career.Base.{
  ℕ, ◌≤◌, ◌<◌, ◌≡◌, refl, sym, ap, ◌∙◌, inl, inr, true, false, Bool-cases, Text, Option, none, some,
  List, [], ◌∷◌, ◌++◌, All, has, filter, length, arith,
}
use argos_career.Scoring.Types.{Match}
use argos_career.Profile.Period.{UtcDate}
use argos_career.Posting.Unicode.{Unicode}
use argos_career.Evidence.Catalog.{Profile, ResumeVariant}
use argos_career.Evidence.Recommendation.{
  overlap_of, is_better, best_from, recommend_variant, matched_competency_names,
  compute_recommendation,
}

module _ {A : Type 0} where
  All-join : (P : A → Type 0) (xs ys : List A) → All P xs → All P ys → All P (xs ++ ys)
  All-join P [] ys hx hy = hy
  All-join P (x ∷ xs) ys hx hy = (hx.0, All-join P xs ys hx.1 hy)

  All-weaken : (P Q : A → Type 0) → ((a : A) → P a → Q a) → (xs : List A) → All P xs → All Q xs
  All-weaken P Q f [] h = tt
  All-weaken P Q f (x ∷ xs) h = (f x h.0, All-weaken P Q f xs h.1)

module _ (names : List Text) where
  -- No variant overlaps; or it overlaps, more than each one before it and no less than each one after.
  abbrev pub IsFirstBest : Option ResumeVariant → List ResumeVariant → Type 0
  IsFirstBest none variants = All (λ (v : ResumeVariant). overlap_of names v ≡ 0) variants
  IsFirstBest (some best) variants =
      (before : List ResumeVariant) × (after : List ResumeVariant) × (variants
        ≡ before ++ (best ∷ after))
      × (0 < overlap_of names best)
      × All (λ (v : ResumeVariant). overlap_of names v < overlap_of names best) before
      × All (λ (v : ResumeVariant). overlap_of names v ≤ overlap_of names best) after

  AreBelow : ℕ → List ResumeVariant → Type 0
  AreBelow n = All (λ (v : ResumeVariant). overlap_of names v < n)

  IsFirstBest-better :
      (best : Option ResumeVariant) (seen : List ResumeVariant) (v : ResumeVariant)
      → IsFirstBest best seen
      → is_better names best v ≡ true
      → IsFirstBest (some v) (seen ++ (v ∷ []))
  unfolding is_better
  IsFirstBest-better none seen v h e = (
    seen,
    [],
    refl,
    ground arith,
    All-weaken _ _ (λ w (k : overlap_of names w ≡ 0). ground (arith, k, e)) seen h,
    tt,
  )
  IsFirstBest-better (some b) seen v (before, after, split, pos, less, most) e = (
    seen,
    [],
    refl,
    ground arith,
    subst (All below) (sym split) (
        All-join below before (b ∷ after)
          (All-weaken _ below
            (λ w (k : overlap_of names w < overlap_of names b). ground (arith, k, e)) before less)
          (
            ground (arith, e),
            All-weaken _ below
                (λ w (k : overlap_of names w ≤ overlap_of names b). ground (arith, k, e)) after
                most,
          )),
    tt,
  )
    where
      below : ResumeVariant → Type 0
      below w = overlap_of names w < overlap_of names v

  IsFirstBest-kept :
      (best : Option ResumeVariant) (seen : List ResumeVariant) (v : ResumeVariant)
      → IsFirstBest best seen
      → is_better names best v ≡ false
      → IsFirstBest best (seen ++ (v ∷ []))
  unfolding is_better
  IsFirstBest-kept none seen v h e = All-join _ seen (v ∷ []) h (ground (arith, e), tt)
  IsFirstBest-kept (some b) seen v (before, after, split, pos, less, most) e = (
    before,
    after ++ (v ∷ []),
    ap (λ vs. vs ++ (v ∷ [])) split ∙ append_assoc before (b ∷ after) (v ∷ []),
    pos,
    less,
    All-join _ after (v ∷ []) most (ground (arith, e), tt),
  )

  best_from-IsFirstBest :
      (best : Option ResumeVariant) (seen rest : List ResumeVariant)
      → IsFirstBest best seen
      → IsFirstBest (best_from names best rest) (seen ++ rest)
  unfolding best_from
  best_from-IsFirstBest best seen [] h = subst (IsFirstBest best) (sym (append-nil seen)) h
  best_from-IsFirstBest best seen (v ∷ rest) h =
      subst (IsFirstBest (best_from names best (v ∷ rest))) (append_assoc seen (v ∷ []) rest)
        (elim (Bool-cases (is_better names best v)) [
          | inl e ↦ rw e (
              best_from-IsFirstBest (some v) (seen ++ (v ∷ [])) rest
                (IsFirstBest-better best seen v h e))
          | inr e ↦ rw e (
              best_from-IsFirstBest best (seen ++ (v ∷ [])) rest (IsFirstBest-kept best seen v h e))
        ])

overlap_nil :
    (variants : List ResumeVariant) → All (λ (v : ResumeVariant). overlap_of [] v ≡ 0) variants
unfolding has
overlap_nil [] = tt
overlap_nil (v ∷ variants) = (none_in v.competency_names, overlap_nil variants)
  where
    none_in : (names : List Text) → length (filter (has []) names) ≡ 0
    none_in [] = refl
    none_in (n ∷ names) = none_in names

abbrev pub id_of : Option ResumeVariant → Option Text
id_of none = none
id_of (some v) = some v.id

-- The recommended variant is that of a variant of the profile whose competencies overlap with those
-- of the matches, more than each variant before it and no less than each one after it; and if none is
-- recommended, no variant overlaps.
pub compute_recommendation-IsFirstBest :
    (u : Unicode) (matches : List Match) (profile : Profile) (today : UtcDate)
    → (best : Option ResumeVariant) × ((compute_recommendation u matches profile
          today).recommended_variant
        ≡ id_of best)
      × IsFirstBest (matched_competency_names matches profile today) best profile.resume_variants
unfolding compute_recommendation recommend_variant
compute_recommendation-IsFirstBest u matches profile today =
    chosen (matched_competency_names matches profile today)
  where
    id_of_best :
        (o : Option ResumeVariant)
        → (elim o as (λ _. Option Text) [ none ↦ none | some v ↦ some v.id ]) ≡ id_of o
    id_of_best none = refl
    id_of_best (some v) = refl

    chosen :
        (names : List Text)
        → (best : Option ResumeVariant) × (recommend_variant names profile.resume_variants
            ≡ id_of best)
          × IsFirstBest names best profile.resume_variants
    chosen [] = (none, refl, overlap_nil profile.resume_variants)
    chosen (n ∷ names) = (
      best_from (n ∷ names) none profile.resume_variants,
      id_of_best (best_from (n ∷ names) none profile.resume_variants),
      best_from-IsFirstBest (n ∷ names) none [] profile.resume_variants tt,
    )
