-- ===== src/Double.antt =====
-- What the driver takes from the platform: `double` and `float` with the C library's functions on
-- them, and the shift whose result C++ leaves open. Parameters of the model: no definition depends
-- on how they are represented.

pub mod Fixed
use ur_modern_driver.Common.{ℕ, length, ◌*◌, ◌^◌, ◌≤◌, ◌≡◌, Bool, true, false, List}

pub record Platform (D : Type 0) : Type 0 where
  -- The literal n / 10 ^ k.
  pub lit : ℕ → ℕ → D
  pub lt : D → D → Bool
  pub le : D → D → Bool
  pub eq : D → D → Bool
  pub neg : D → D
  pub add : D → D → D
  pub sub : D → D → D
  pub mul : D → D → D
  pub div : D → D → D
  -- `pow` at a whole exponent, and `fabs`.
  pub pow : D → ℕ → D
  pub fabs : D → D
  pub is_finite : D → Bool
  -- The value with a given pattern of 64 bits, and of a `float` with one of 32 bits.
  pub of_bits : ℕ → D
  pub of_float_bits : ℕ → D
  -- A conversion to and from `int`, which is given by its pattern of 32 bits.
  pub to_int : D → ℕ
  pub of_int : ℕ → D
  -- A conversion of a `float` to and from `uint32_t`.
  pub to_u32 : D → ℕ
  pub of_u32 : ℕ → D
  -- `printf` with "%.nf".
  pub printed : ℕ → D → List ℕ
  -- `printf` with "%d" or "%i" of the pattern of an `int`.
  pub printed_int : ℕ → List ℕ
  -- `1 << i` as a pattern of 64 bits where `i` is 31 or more.
  pub wide_shift : ℕ → ℕ

-- The order that IEEE 754 gives to `<` and `<=`. No law speaks of NaN but that it is not less than
-- itself; a literal is rounded, and rounding keeps the order. The last two are the bytes that 0 and
-- 100 take in print.
pub record IsOrdered {D : Type 0} (d : Platform D) : Type 0 where
  pub lt_irrefl : (x : D) → d.lt x x ≡ false
  pub lt_trans : (x y z : D) → d.lt x y ≡ true → d.lt y z ≡ true → d.lt x z ≡ true
  pub le_of_lt : (x y : D) → d.lt x y ≡ true → d.le x y ≡ true
  pub le_lit : (n k m j : ℕ) → n * 10 ^ j ≤ m * 10 ^ k → d.le (d.lit n k) (d.lit m j) ≡ true
  pub lt-false-of_le : (x y : D) → d.le x y ≡ true → d.lt y x ≡ false
  pub eq_lit_refl : (n k : ℕ) → d.eq (d.lit n k) (d.lit n k) ≡ true
  pub printed_zero : length (d.printed 5 (d.lit 0 0)) ≤ 7
  pub printed_hundred : length (d.printed 6 (d.lit 100 0)) ≤ 10
