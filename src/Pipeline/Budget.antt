-- ===== src/Pipeline/Budget.antt =====
-- What the budget of posting-origin.ts and main.ts admits.
use argos_career.Base.{
  ℕ, zero, suc, ◌+◌, ◌≤◌, ◌≡◌, refl, sym, ap, ◌∙◌, ◌⊎◌, inl, inr, Bool, not, Text, Option, none,
  some, List, [], ◌∷◌, ◌++◌, filter, length, take, drop, arith, Bool-cases,
}
use mathlib.Core.List.{append-nil}
use argos_career.Posting.Posting.{Posting}
use argos_career.Pipeline.Origin.{
  OriginCriteria, is_national_posting, partition_by_origin, within_budget, admit,
}

length-append : (xs ys : List Posting) → length (xs ++ ys) ≡ length xs + length ys
length-append [] ys = omega arith
length-append (x ∷ xs) ys = ground (arith, length-append xs ys)

take-append-drop : (n : ℕ) (xs : List Posting) → take n xs ++ drop n xs ≡ xs
take-append-drop zero xs = refl
take-append-drop (suc n) [] = refl
take-append-drop (suc n) (x ∷ xs) = ap (λ l. x ∷ l) (take-append-drop n xs)

length-take : (n : ℕ) (xs : List Posting) → length (take n xs) ≤ n
length-take zero xs = omega arith
length-take (suc n) [] = omega arith
length-take (suc n) (x ∷ xs) = ground (arith, length-take n xs)

length-filter-not :
    (p : Posting → Bool) (xs : List Posting)
    → length (filter p xs) + length (filter (λ x. not (p x)) xs) ≡ length xs
length-filter-not p [] = omega arith
length-filter-not p (x ∷ xs) = ground (arith, length-filter-not p xs)

-- Of the international postings, `n` are scored and some deferred: without a budget none is deferred,
-- and under a budget it is used up if any is.
abbrev pub FitsBudget : Option ℕ → ℕ → List Posting → Type 0
FitsBudget none n deferred = deferred ≡ []
FitsBudget (some budget) n deferred = (n ≤ budget) × ((n ≡ budget) ⊎ (deferred ≡ []))

take_fits :
    (budget : ℕ) (xs : List Posting) → (length (take budget xs) ≡ budget) ⊎ (drop budget xs ≡ [])
take_fits zero xs = inl refl
take_fits (suc n) [] = inr refl
take_fits (suc n) (x ∷ xs) = elim (take_fits n xs) [ inl e ↦ inl (ap suc e) | inr e ↦ inr e ]

within_budget-append :
    (budget : Option ℕ) (xs : List Posting)
    → ((within_budget budget xs).0 ++ (within_budget budget xs).1 ≡ xs)
      × FitsBudget budget (length (within_budget budget xs).0) (within_budget budget xs).1
unfolding within_budget
within_budget-append none xs = (append-nil xs, refl)
within_budget-append (some budget) xs =
    (take-append-drop budget xs, (length-take budget xs, take_fits budget xs))

module _ (upper : Text → Text) (criteria : OriginCriteria) where
  partition_by_origin-filter :
      (postings : List Posting)
      → partition_by_origin upper criteria postings ≡ (
        filter (is_national_posting upper criteria) postings,
        filter (λ p. not (is_national_posting upper criteria p)) postings,
      )
  unfolding partition_by_origin
  partition_by_origin-filter [] = refl
  partition_by_origin-filter (p ∷ postings) =
      elim (Bool-cases (is_national_posting upper criteria p)) [
        | inl e ↦ rw (partition_by_origin-filter postings, e) refl
        | inr e ↦ rw (partition_by_origin-filter postings, e) refl
      ]

  -- The run scores every national posting, in the order of the ranking, and then the first of the
  -- international ones; it defers exactly the rest of these, in order. Without a budget none is
  -- deferred; under a budget no more are scored than it has, and fewer only if none is deferred.
  pub admit-within_budget :
      (ranked : List Posting)
      → (admitted : List Posting) × ((admit upper criteria ranked).0
          ≡ filter (is_national_posting upper criteria) ranked ++ admitted)
        × (admitted ++ (admit upper criteria ranked).1
            ≡ filter (λ p. not (is_national_posting upper criteria p)) ranked)
        × FitsBudget criteria.max_international_per_run
            (length admitted)
            (admit upper criteria ranked).1
  unfolding admit
  admit-within_budget ranked =
      let international = filter (λ p. not (is_national_posting upper criteria p)) ranked in
      let (whole, bound) = within_budget-append criteria.max_international_per_run international in
      rw (admit, partition_by_origin-filter ranked)
        ((within_budget criteria.max_international_per_run international).0, refl, whole, bound)

  pub length-admit :
      (ranked : List Posting)
      → length (admit upper criteria ranked).0 + length (admit upper criteria ranked).1
        ≡ length ranked
  length-admit ranked =
      let (admitted, first, rest, bound) = admit-within_budget ranked in
      let national = filter (is_national_posting upper criteria) ranked in
      let a = ap length first ∙ length-append national admitted in
      let b = sym (length-append admitted (admit upper criteria ranked).1) ∙ ap length rest in
      let c = length-filter-not (is_national_posting upper criteria) ranked in
      omega (arith, a, b, c)
