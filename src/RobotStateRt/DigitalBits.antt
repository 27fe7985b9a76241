-- ===== src/RobotStateRt/DigitalBits.antt =====
-- `unpackDigitalInputBits` of src/robot_state_RT.cpp: the bits of a word, one by one.
use ur_modern_driver.Common.{
  ℕ, zero, suc, ◌+◌, ◌-◌, ◌*◌, ◌/◌, ◌%◌, ◌^◌, ◌≤◌, ◌<◌, ◌≡◌, refl, ap, bit_and, Bool, not, List, [],
  ◌∷◌, some, ltb, lt→ltb, ◌==◌, if◌then◌else◌, arith, get_elem?, length,
}
use native.Mathlib.Nat.{
  pow-le-pow_right, mul-le-mul, le-pred_of_lt, mul-div_cancel, one-le-pow, add-zero, zero-add,
}
use ur_modern_driver.Common.Bits.{bit_and-pow}

-- `data >> i` of an int64_t, both as patterns: the sign bit comes in from the left.
shift_right : ℕ → ℕ → ℕ
shift_right x i = if ltb x (2 ^ 63) then x / 2 ^ i else x / 2 ^ i + (2 ^ 64 - 2 ^ (64 - i))

shift_right-field : (q i : ℕ) → q < 2 → i < 31 → shift_right (q * 2 ^ i) i ≡ q
unfolding shift_right
shift_right-field q i hq hi =
    let cap : 2 ^ i ≤ 2 ^ 30 = pow-le-pow_right {n = 2} (omega arith) {j = 30} (omega arith) in
    let small : q * 2 ^ i ≤ 1 * 2 ^ 30 = mul-le-mul (le-pred_of_lt hq) cap in
    rw (lt→ltb (q * 2 ^ i) (2 ^ 63) (omega arith)) (mul-div_cancel q (one-le-pow i 2 (omega arith)))

-- What `1 << i` is where `i` is 31 or more: C++ leaves it open.
module _ (wide_shift : ℕ → ℕ) where
  -- `1 << i`, an int, as a pattern of 64 bits.
  shift_one : ℕ → ℕ
  shift_one i = if ltb i 31 then 2 ^ i else wide_shift i

  -- The loop over `i`, with the rounds left.
  digital_bits_from : ℕ → ℕ → ℕ → List Bool
  unfolding shift_right shift_one
  digital_bits_from zero i bits = []
  digital_bits_from (suc n) i bits =
      not (shift_right (bit_and bits (shift_one i)) i == 0) ∷ digital_bits_from n (i + 1) bits

  pub unpack_digital_input_bits : ℕ → List Bool
  unfolding digital_bits_from
  unpack_digital_input_bits bits = digital_bits_from 64 0 bits

  length-digital_bits_from : (n i bits : ℕ) → length (digital_bits_from n i bits) ≡ n
  unfolding digital_bits_from
  length-digital_bits_from zero i bits = refl
  length-digital_bits_from (suc n) i bits = ap suc (length-digital_bits_from n (i + 1) bits)

  pub length-unpack_digital_input_bits : (bits : ℕ) → length (unpack_digital_input_bits bits) ≡ 64
  unfolding unpack_digital_input_bits
  length-unpack_digital_input_bits bits = length-digital_bits_from 64 0 bits

  -- Bit `i` of the word, as the test that the loop makes of it.
  digital_bit :
      (i bits : ℕ)
      → i < 31
      → not (shift_right (bit_and bits (shift_one i)) i == 0) ≡ (bits / 2 ^ i % 2 == 1)
  unfolding shift_one
  digital_bit i bits h =
      rw (lt→ltb i 31 h, bit_and-pow bits i, shift_right-field (bits / 2 ^ i % 2) i (omega arith) h)
        (ground arith)

  get_elem?-digital_bits_from :
      (n i k bits : ℕ)
      → k < n
      → i + k < 31
      → get_elem? (digital_bits_from n i bits) k ≡ some (bits / 2 ^ (i + k) % 2 == 1)
  unfolding digital_bits_from
  get_elem?-digital_bits_from zero i k bits h l = absurd (omega arith)
  get_elem?-digital_bits_from (suc n) i zero bits h l =
      rw add-zero (ap some (digital_bit i bits (omega arith)))
  get_elem?-digital_bits_from (suc n) i (suc k) bits h l =
      let here : i + suc k ≡ i + 1 + k = omega arith in
      rw here (get_elem?-digital_bits_from n (i + 1) k bits (omega arith) (omega arith))

  -- Input `k`, for the first 31 inputs, is bit `k` of the word, whatever `1 << i` is where the
  -- language leaves it open.
  pub get_elem?-unpack_digital_input_bits :
      (k bits : ℕ)
      → k < 31
      → get_elem? (unpack_digital_input_bits bits) k ≡ some (bits / 2 ^ k % 2 == 1)
  unfolding unpack_digital_input_bits
  get_elem?-unpack_digital_input_bits k bits h =
      rw (zero-add k) at (get_elem?-digital_bits_from 64 0 k bits (omega arith) (omega arith))
