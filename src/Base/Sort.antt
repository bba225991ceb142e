-- ===== src/Base/Sort.antt =====
-- `Array.prototype.sort`, which is stable: `before a b` is a negative result of the comparator.
use mathlib.Core.Path.{◌≡◌, refl}
use mathlib.Core.Logic.{inl, inr}
use mathlib.Core.Bool.{Bool, true, false, ◌||◌}
use mathlib.Core.List.{List, [], ◌∷◌, Perm}
use mathlib.Core.List.Perm
use native.Mathlib.Omega.{arith}
use argos_career.Base.Tests.{if◌then◌else◌, Bool-cases}
use argos_career.Base.Lists.{filter, any, All}

-- What the language asks of a comparator.
pub record IsComparator {ℓ} {A : Type ℓ} (before : A → A → Bool) : Type ℓ where
  pub asymmetric : (a b : A) → before a b ≡ true → before b a ≡ false
  pub negative_trans : (a b c : A) → before b a ≡ false → before c b ≡ false → before c a ≡ false

module _ {ℓ} {A : Type ℓ} (before : A → A → Bool) where
  unfoldable pub place : A → List A → List A
  place x [] = x ∷ []
  place x (y ∷ ys) = if before y x then y ∷ place x ys else x ∷ y ∷ ys

  unfoldable pub sort : List A → List A
  unfolding place
  sort [] = []
  sort (x ∷ xs) = place x (sort xs)

  -- No element comes before an earlier one.
  abbrev pub IsRanked : List A → Type ℓ
  IsRanked [] = Unit
  IsRanked (x ∷ xs) = All (λ y. before y x ≡ false) xs × IsRanked xs

  place-perm : (x : A) (ys : List A) → Perm (place x ys) (x ∷ ys)
  unfolding place
  place-perm x [] = Perm.refl _
  place-perm x (y ∷ ys) = elim (Bool-cases (before y x)) [
    | inl e ↦ rw e (Perm.trans (Perm.cons y (place-perm x ys)) (Perm.swap x y ys))
    | inr e ↦ rw e (Perm.refl _)
  ]

  -- Sorting loses nothing and adds nothing.
  pub sort-perm : (xs : List A) → Perm (sort xs) xs
  unfolding sort
  sort-perm [] = Perm.refl _
  sort-perm (x ∷ xs) = Perm.trans (place-perm x (sort xs)) (Perm.cons x (sort-perm xs))

  All-place {κ} : (P : A → Type κ) (x : A) (ys : List A) → P x → All P ys → All P (place x ys)
  unfolding place
  All-place P x [] h hs = (h, tt)
  All-place P x (y ∷ ys) h hs = elim (Bool-cases (before y x)) [
    | inl e ↦ rw e (hs.0, All-place P x ys h hs.1)
    | inr e ↦ rw e (h, hs)
  ]

  pub All-sort {κ} : (P : A → Type κ) (xs : List A) → All P xs → All P (sort xs)
  unfolding sort
  All-sort P [] h = tt
  All-sort P (x ∷ xs) h = All-place P x (sort xs) h.0 (All-sort P xs h.1)

  filter-place_in :
      (p : A → Bool)
      → ((a b : A) → p a ≡ true → p b ≡ true → before a b ≡ false)
      → (x : A) (ys : List A) → p x ≡ true
      → filter p (place x ys) ≡ x ∷ filter p ys
  unfolding place
  filter-place_in p flat x [] e = rw e
  filter-place_in p flat x (y ∷ ys) e = ground (arith, flat y x, filter-place_in p flat x ys)

  filter-place_out :
      (p : A → Bool) (x : A) (ys : List A) → p x ≡ false → filter p (place x ys) ≡ filter p ys
  unfolding place
  filter-place_out p x [] e = rw e
  filter-place_out p x (y ∷ ys) e = ground (arith, filter-place_out p x ys)

  -- Elements that the comparator ties keep their order.
  pub sort_stable :
      (p : A → Bool)
      → ((a b : A) → p a ≡ true → p b ≡ true → before a b ≡ false)
      → (xs : List A) → filter p (sort xs) ≡ filter p xs
  unfolding sort
  sort_stable p flat [] = refl
  sort_stable p flat (x ∷ xs) = elim (Bool-cases (p x)) [
    | inl e ↦ rw (filter-place_in p flat x (sort xs) e, sort_stable p flat xs, e)
    | inr e ↦ rw (filter-place_out p x (sort xs) e, sort_stable p flat xs, e)
  ]

  module _ (laws : IsComparator before) where
    open laws use {asymmetric, negative_trans}

    All-after :
        (x y : A) (ys : List A)
        → before y x ≡ false
        → All (λ z. before z y ≡ false) ys
        → All (λ z. before z x ≡ false) ys
    All-after x y [] h hs = tt
    All-after x y (z ∷ zs) h hs = (negative_trans x y z h hs.0, All-after x y zs h hs.1)

    place-IsRanked : (x : A) (ys : List A) → IsRanked ys → IsRanked (place x ys)
    unfolding place
    place-IsRanked x [] h = (tt, tt)
    place-IsRanked x (y ∷ ys) h = elim (Bool-cases (before y x)) [
      | inl e ↦
          rw e (
            All-place (λ z. before z y ≡ false) x ys (asymmetric y x e) h.0,
            place-IsRanked x ys h.1,
          )
      | inr e ↦ rw e ((e, All-after x y ys e h.0), h)
    ]

    pub sort-IsRanked : (xs : List A) → IsRanked (sort xs)
    unfolding sort
    sort-IsRanked [] = tt
    sort-IsRanked (x ∷ xs) = place-IsRanked x (sort xs) (sort-IsRanked xs)

module _ {ℓ} {A : Type ℓ} (before : A → A → Bool) (q : A → Bool) where
  any-place : (x : A) (ys : List A) → any q (place before x ys) ≡ (q x || any q ys)
  unfolding place
  any-place x [] = refl
  any-place x (y ∷ ys) = ground (arith, any-place x ys)

  -- Sorting keeps what some element satisfies.
  pub any-sort : (xs : List A) → any q (sort before xs) ≡ any q xs
  unfolding sort
  any-sort [] = refl
  any-sort (x ∷ xs) = ground (arith, any-place x (sort before xs), any-sort xs)
