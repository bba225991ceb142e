-- ===== src/Scoring/Number.antt =====
-- What stage C does with the numbers of the language, IEEE doubles where no operation gives NaN:
-- constants, rounded arithmetic and the order. `-0` and `0` are two values of the same place in the order.
use mathlib.Core.Logic.{◌⊎◌}
use argos_career.Base.{ℕ, suc, ◌≡◌, Bool, true, false, if◌then◌else◌}

pub record Double (D : Type 0) : Type 0 where
  pub of_nat : ℕ → D
  pub half : D
  pub add : D → D → D
  pub mul : D → D → D
  pub div : D → D → D
  pub le : D → D → Bool

infix 50 ◌≼◌
abbrev pub ◌≼◌ : {D : Type 0} ⦃d : Double D⦄ → D → D → Type 0
◌≼◌ ⦃d⦄ x y = d.le x y ≡ true

-- `Math.min` and `Math.max`.
abbrev pub min_of : {D : Type 0} ⦃d : Double D⦄ → D → D → D
min_of ⦃d⦄ x y = if d.le x y then x else y

abbrev pub max_of : {D : Type 0} ⦃d : Double D⦄ → D → D → D
max_of ⦃d⦄ x y = if d.le x y then y else x

-- `a < b`, and the sign of a comparator `a - b`, which rounding keeps.
abbrev pub less : {D : Type 0} ⦃d : Double D⦄ → D → D → Bool
less ⦃d⦄ x y = if d.le y x then false else true

-- The order is total, and rounding is monotone in each operand.
pub record IsDouble (D : Type 0) ⦃d : Double D⦄ : Type 0 where
  pub le_refl : (x : D) → x ≼ x
  pub le_trans : (x y z : D) → x ≼ y → y ≼ z → x ≼ z
  pub le_total : (x y : D) → (x ≼ y) ⊎ (y ≼ x)
  pub zero_le_half : d.of_nat 0 ≼ d.half
  pub half_le_one : d.half ≼ d.of_nat 1
  pub zero_le_one : d.of_nat 0 ≼ d.of_nat 1
  pub zero_le_hundred : d.of_nat 0 ≼ d.of_nat 100
  pub add_mono : (x y v w : D) → x ≼ y → v ≼ w → d.add x v ≼ d.add y w
  pub add_nonneg : (x y : D) → d.of_nat 0 ≼ x → d.of_nat 0 ≼ y → d.of_nat 0 ≼ d.add x y
  pub add_one_le : (n : ℕ) → d.add (d.of_nat n) (d.of_nat 1) ≼ d.of_nat (suc n)
  pub mul_mono : (w x y : D) → d.of_nat 0 ≼ w → x ≼ y → d.mul w x ≼ d.mul w y
  pub mul_nonneg : (w x : D) → d.of_nat 0 ≼ w → d.of_nat 0 ≼ x → d.of_nat 0 ≼ d.mul w x
  pub mul_one_le : (w : D) → d.mul w (d.of_nat 1) ≼ w
  pub div_mono : (n : ℕ) (x y : D) → x ≼ y → d.div x (d.of_nat (suc n)) ≼ d.div y (d.of_nat (suc n))
  pub div_nonneg : (n : ℕ) (x : D) → d.of_nat 0 ≼ x → d.of_nat 0 ≼ d.div x (d.of_nat (suc n))
  pub div_self : (n : ℕ) → d.div (d.of_nat (suc n)) (d.of_nat (suc n)) ≡ d.of_nat 1
