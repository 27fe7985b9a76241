-- ===== src/Double/Fixed.antt =====
-- A platform that computes: numbers with seven decimals. It shows that the laws can be met, and
-- the examples run on it.
use native.Mathlib.Nat.{
  one-le-pow, div-mul-le_self, mul-le-mul, le_refl, le-div_iff_mul-le, le_of_mul-le-mul_right,
}
use ur_modern_driver.Common.{
  ℕ, suc, ◌+◌, ◌-◌, ◌*◌, ◌/◌, ◌%◌, ◌^◌, ◌≤◌, ◌<◌, true, [], ◌∷◌, arith, ltb, u32, if◌then◌else◌,
  ◌&&◌,
}
use ur_modern_driver.Common.Int.{
  ℤ, pos, pos_part, neg_part, sub_ℕ, ◌+ℤ◌, ◌-ℤ◌, ◌*ℤ◌, quot_ℕ, ltb_ℤ, leb_ℤ,
}
use ur_modern_driver.Double.{Platform, IsOrdered}

-- 10 ^ 7 stands for one.
abbrev unit : ℕ
unit = 10_000_000

abbrev pow_fixed : ℤ → ℕ → ℤ
pow_fixed x ℕ.zero = pos unit
pow_fixed x (suc n) = quot_ℕ (x *ℤ pow_fixed x n) unit

abbrev whole : ℤ → ℤ
whole x = quot_ℕ x unit

abbrev word : ℤ → ℕ
word x = u32 (pos_part x + (2 ^ 32 - neg_part x % 2 ^ 32))

abbrev of_word : ℕ → ℤ
of_word w = if ltb w (2 ^ 31) then pos (w * unit) else sub_ℕ 0 ((2 ^ 32 - w) * unit)

instance abbrev pub fixed : Platform ℤ
fixed = record {
  lit = λ n k. pos (n * unit / 10 ^ k);
  lt = ltb_ℤ;
  le = leb_ℤ;
  eq = λ x y. leb_ℤ x y && leb_ℤ y x;
  neg = λ x. pos 0 -ℤ x;
  add = ◌+ℤ◌;
  sub = ◌-ℤ◌;
  mul = λ x y. quot_ℕ (x *ℤ y) unit;
  div = λ x y.
      if ltb_ℤ y (pos 0)
      then quot_ℕ ((pos 0 -ℤ x) *ℤ pos unit) (neg_part y)
      else quot_ℕ (x *ℤ pos unit) (pos_part y);
  pow = pow_fixed;
  fabs = λ x. pos (pos_part x + neg_part x);
  is_finite = λ x. true;
  of_bits = λ b. pos b;
  of_float_bits = λ b. pos b;
  to_int = λ x. word (whole x);
  of_int = of_word;
  to_u32 = λ x. word (whole x);
  of_u32 = λ w. pos (w * unit);
  printed = λ n x. (pos_part x ∷ []);
  printed_int = λ n. ((48 + n % 10) ∷ []);
  wide_shift = λ i. 0;
}

div_mono : (n m a b : ℕ) → 0 < a → 0 < b → n * b ≤ m * a → n * unit / a ≤ m * unit / b
div_mono n m a b ha hb h =
    let x = n * unit / a in
    let small : x * a ≤ n * unit = div-mul-le_self (n * unit) a in
    let big : x * b * a ≤ m * unit * a =
      omega (arith, mul-le-mul small (le_refl b), mul-le-mul h (le_refl unit)) in
    (le-div_iff_mul-le hb).1 (le_of_mul-le-mul_right big ha)

pub fixed-IsOrdered : IsOrdered fixed
fixed-IsOrdered = record {
  lt_irrefl = λ x. ground arith;
  lt_trans = λ x y z p q. ground arith;
  le_of_lt = λ x y p. ground arith;
  le_lit = λ n k m j h. ground (
    arith,
    div_mono n m (10 ^ k) (10 ^ j) (one-le-pow k 10 (omega arith)) (one-le-pow j 10 (omega arith)),
  );
  lt-false-of_le = λ x y p. ground arith;
  eq_lit_refl = λ n k. ground arith;
  printed_zero = omega arith;
  printed_hundred = omega arith;
}
