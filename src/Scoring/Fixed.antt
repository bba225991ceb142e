-- ===== src/Scoring/Fixed.antt =====
-- A value of the interface of doubles: thousandths, rounded down.
use argos_career.Base.{ℕ, suc, ◌+◌, ◌*◌, ◌/◌, ◌≤◌, ◌<◌, ◌≡◌, refl, true, leb, arith, leb→le, le→leb}
use native.Mathlib.Nat.{
  mul-le-mul, le_refl, le_trans, le-div_iff_mul-le, div-mul-le_self, mul-div_cancel_left,
}
use argos_career.Scoring.Number.{Double, IsDouble}

instance abbrev pub fixed : Double ℕ
fixed = record {
  of_nat = λ n. n * 1000;
  half = 500;
  add = λ x y. x + y;
  mul = λ x y. x * y / 1000;
  div = λ x y. x * 1000 / y;
  le = leb;
}

div_le : (a b k : ℕ) → 0 < k → a ≤ b → a / k ≤ b / k
div_le a b k pos h = (le-div_iff_mul-le pos).1 (le_trans (div-mul-le_self a k) h)

mul_mono : (w x y : ℕ) → leb x y ≡ true → leb (w * x / 1000) (w * y / 1000) ≡ true
mul_mono w x y h =
    le→leb _ _ (div_le (w * x) (w * y) 1000 (omega arith) (mul-le-mul (le_refl w) (leb→le x y h)))

div_mono :
    (n x y : ℕ)
    → leb x y ≡ true
    → leb (x * 1000 / (suc n * 1000)) (y * 1000 / (suc n * 1000)) ≡ true
div_mono n x y h = le→leb _ _ (
    div_le (x * 1000) (y * 1000) (suc n * 1000) (omega arith)
      (mul-le-mul (leb→le x y h) (le_refl 1000)))

div_self : (n : ℕ) → suc n * 1000 * 1000 / (suc n * 1000) ≡ 1 * 1000
div_self n = mul-div_cancel_left 1000 {n = suc n * 1000} (omega arith)

pub fixed-IsDouble : IsDouble ℕ
fixed-IsDouble = record {
  le_refl = λ x. ground arith;
  le_trans = λ x y z h k. ground arith;
  le_total = λ x y. ground arith;
  zero_le_half = refl;
  half_le_one = refl;
  zero_le_one = refl;
  zero_le_hundred = refl;
  add_mono = λ x y v w h k. ground arith;
  add_nonneg = λ x y h k. ground arith;
  add_one_le = λ n. ground arith;
  mul_mono = λ w x y _ h. mul_mono w x y h;
  mul_nonneg = λ w x h k. ground arith;
  mul_one_le = λ w. ground arith;
  div_mono = div_mono;
  div_nonneg = λ n x h. ground arith;
  div_self = div_self;
}
