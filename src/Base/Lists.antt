-- ===== src/Base/Lists.antt =====
-- Lists by Boolean tests and native numbers, with the predicates `All` and `Member`.
use Prim.Native.Nat.{ℕ, zero, suc}
use mathlib.Core.Path.{◌≡◌, refl}
use mathlib.Core.Logic.{◌⊎◌, inl, inr}
use mathlib.Core.Bool.{Bool, true, false, ◌&&◌, ◌||◌}
use mathlib.Core.List.{List, [], ◌∷◌}
use mathlib.Core.Option.{Option, none, some}
use native.Mathlib.Omega.{arith}
use argos_career.Base.Tests.{if◌then◌else◌, Bool-cases}

module _ {ℓ} {A : Type ℓ} where
  abbrev pub length : List A → ℕ
  length [] = 0
  length (x ∷ xs) = suc (length xs)

  -- `Array.prototype.filter`, `some`, `every` and `find`.
  abbrev pub filter : (A → Bool) → List A → List A
  filter p [] = []
  filter p (x ∷ xs) = if p x then x ∷ filter p xs else filter p xs

  abbrev pub any : (A → Bool) → List A → Bool
  any p [] = false
  any p (x ∷ xs) = p x || any p xs

  abbrev pub every : (A → Bool) → List A → Bool
  every p [] = true
  every p (x ∷ xs) = p x && every p xs

  abbrev pub take : ℕ → List A → List A
  take zero xs = []
  take (suc n) [] = []
  take (suc n) (x ∷ xs) = x ∷ take n xs

  abbrev pub drop : ℕ → List A → List A
  drop zero xs = xs
  drop (suc n) [] = []
  drop (suc n) (x ∷ xs) = drop n xs

  abbrev pub head? : List A → Option A
  head? [] = none
  head? (x ∷ xs) = some x

  abbrev pub All {κ} : (A → Type κ) → List A → Type κ
  All P [] = Unit
  All P (x ∷ xs) = P x × All P xs

module _ {ℓ} {A : Type ℓ} where
  pub filter_idem : (p : A → Bool) (xs : List A) → filter p (filter p xs) ≡ filter p xs
  filter_idem p [] = refl
  filter_idem p (x ∷ xs) = ground (arith, filter_idem p xs)

  pub All-filter {κ} :
      (P : A → Type κ) (p : A → Bool) (xs : List A) → All P xs → All P (filter p xs)
  All-filter P p [] h = h
  All-filter P p (x ∷ xs) h = elim (Bool-cases (p x)) [
    | inl e ↦ rw e (h.0, All-filter P p xs h.1)
    | inr e ↦ rw e (All-filter P p xs h.1)
  ]

module _ {A : Type 0} where
  abbrev pub Member : A → List A → Type 0
  Member a [] = ⊥
  Member a (x ∷ xs) = (a ≡ x) ⊎ Member a xs

  pub All-of_Member {κ} : (P : A → Type κ) (xs : List A) → ((a : A) → Member a xs → P a) → All P xs
  All-of_Member P [] h = tt
  All-of_Member P (x ∷ xs) h = (h x (inl refl), All-of_Member P xs (λ a m. h a (inr m)))

  Member-filter_if :
      (p : A → Bool) (x : A) (ys zs : List A) (a : A)
      → (Member a zs → Member a ys × (p a ≡ true))
      → Member a (if p x then x ∷ zs else zs)
      → Member a (x ∷ ys) × (p a ≡ true)
  Member-filter_if p x ys zs a rec m = elim (Bool-cases (p x)) [
    | inl e ↦ elim (kept e) [ inl q ↦ (inl q, rw q e) | inr k ↦ (inr (rec k).0, (rec k).1) ]
    | inr e ↦ (inr (rec (dropped e)).0, (rec (dropped e)).1)
  ]
    where
      kept : p x ≡ true → (a ≡ x) ⊎ Member a zs
      kept e = rw e at m

      dropped : p x ≡ false → Member a zs
      dropped e = rw e at m

  pub Member-filter :
      (p : A → Bool) (xs : List A) (a : A) → Member a (filter p xs) → Member a xs × (p a ≡ true)
  Member-filter p [] a m = absurd m
  Member-filter p (x ∷ xs) a m = Member-filter_if p x xs (filter p xs) a (Member-filter p xs a) m

  pub filter-Member :
      (p : A → Bool) (xs : List A) {a : A} → Member a xs → p a ≡ true → Member a (filter p xs)
  filter-Member p [] m e = absurd m
  filter-Member p (x ∷ xs) (inl q) e = rw (← q, e) (inl refl)
  filter-Member p (x ∷ xs) {a} (inr m) e = elim (Bool-cases (p x)) [
    | inl k ↦ rw k (inr (filter-Member p xs m e))
    | inr k ↦ rw k (filter-Member p xs m e)
  ]
