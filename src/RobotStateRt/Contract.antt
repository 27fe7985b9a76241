-- ===== src/RobotStateRt/Contract.antt =====
-- What `unpack` and the getters promise to the threads that use the state.
use ur_modern_driver.Common.{
  ℕ, ◌≤◌, ◌≡◌, true, false, List, ok, arith, if◌then◌else◌, Bool-cases, inl, inr, length,
  length-take, take, All, IsByte, be_value, le_value, load-eq-ok, swap_bytes, swap_bytes-le_value,
}
use ur_modern_driver.Double.{Platform}
use ur_modern_driver.RobotStateRt.Defs.{RobotStateRt, lock, unlock}
use ur_modern_driver.RobotStateRt.Unpack.{length_good, unpack_checked, unpack}
use ur_modern_driver.RobotStateRt.Layout.{read_body, publish}
use ur_modern_driver.RobotStateRt.Fields.{unpack_body-eq-ok}

-- The length that the first four bytes give, in network order.
message_length :
    (buf : List ℕ)
    → 4 ≤ length buf
    → All IsByte (take 4 buf)
    → swap_bytes 4 (le_value (take 4 buf)) ≡ be_value (take 4 buf)
message_length buf h bytes = swap_bytes-le_value 4 (take 4 buf) (length-take 4 buf h) bytes

module _ {D : Type 0} ⦃d : Platform D⦄ where
  unpack_checked-eq-ok :
      (buf : List ℕ) (len : ℕ) (s : RobotStateRt D)
      → 932 ≤ length buf
      → unpack_checked buf 4 len s
        ≡ ok (if length_good s.version len then publish (unlock (read_body buf s)) else unlock s)
  unfolding unpack_checked publish
  unpack_checked-eq-ok buf len s h = elim (Bool-cases (length_good s.version len)) [
    | inl e ↦ rw (e, unpack_body-eq-ok buf s h)
    | inr e ↦ rw e
  ]

  -- Given a buffer that holds the longest layout and with the lock free, `unpack` ends without a
  -- fault and with the lock free. If the length in the message is the one that the version asks
  -- for, the fields are those of the layout and both flags are set; else nothing changes.
  pub unpack-eq-ok :
      (buf : List ℕ) (s : RobotStateRt D)
      → 932 ≤ length buf
      → All IsByte (take 4 buf)
      → s.val_lock ≡ false
      → unpack buf s
        ≡ ok (
            if length_good s.version (be_value (take 4 buf))
            then publish (unlock (read_body buf (record s { val_lock = true })))
            else s)
  unfolding unpack lock unlock
  unpack-eq-ok buf s h bytes free = rw (
    free,
    load-eq-ok 4 buf 0 (omega arith),
    message_length buf (omega arith) bytes,
    unpack_checked-eq-ok buf (be_value (take 4 buf)) (record s { val_lock = true }) h,
  )
