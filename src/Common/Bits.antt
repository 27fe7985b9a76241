-- ===== src/Common/Bits.antt =====
-- `x & (1 << k)` as arithmetic, for every x and k.
use Prim.Native.Nat.{ℕ, zero, suc, ◌*◌, ◌/◌, ◌%◌, ◌^◌, ◌≤◌, min, bit_and, digits, bit_and-bitwise}
use mathlib.Core.Path.{◌≡◌, refl, sym, ◌∙◌}
use native.Mathlib.Nat.{pow-suc, le_refl, zero-div, div-div-eq-div-mul, mul_comm}
use native.Mathlib.Omega.{arith}

abbrev and_from : ℕ → ℕ → ℕ → ℕ
and_from n a b = digits (λ _. 0) min n a b

and_from-zero : (n a : ℕ) → and_from n a 0 ≡ 0
and_from-zero zero a = refl
and_from-zero (suc n) zero = refl
and_from-zero (suc n) (suc a) = omega (arith, and_from-zero n (suc a / 2))

no_bits : (k : ℕ) → 0 ≡ 0 / 2 ^ k % 2 * 2 ^ k
no_bits k = rw (zero-div (2 ^ k)) (omega arith)

half-pow : (k : ℕ) → (2 ^ suc k / 2 ≡ 2 ^ k) × (2 ^ suc k % 2 ≡ 0)
half-pow k = (omega (arith, pow-suc 2 k), omega (arith, pow-suc 2 k))

div-pow-suc : (a k : ℕ) → a / 2 ^ suc k ≡ a / 2 / 2 ^ k
div-pow-suc a k = rw (pow-suc 2 k, mul_comm (2 ^ k) 2) (sym (div-div-eq-div-mul a 2 (2 ^ k)))

and_from-pow : (n a k : ℕ) → a ≤ n → and_from n a (2 ^ k) ≡ a / 2 ^ k % 2 * 2 ^ k
and_from-pow zero zero k h = no_bits k
and_from-pow zero (suc a) k h = absurd (omega arith)
and_from-pow (suc n) zero k h = no_bits k
and_from-pow (suc n) (suc a) zero h = omega (arith, and_from-zero n (suc a / 2))
and_from-pow (suc n) (suc a) (suc k) h =
    let rest = and_from-pow n (suc a / 2) k (omega arith) in
    let (half, even) = half-pow k in
    rw (half, even, rest, div-pow-suc (suc a) k, pow-suc 2 k) (omega arith)

pub bit_and-pow : (a k : ℕ) → bit_and a (2 ^ k) ≡ a / 2 ^ k % 2 * 2 ^ k
bit_and-pow a k = bit_and-bitwise a (2 ^ k) ∙ and_from-pow a a k (le_refl a)
