-- ===== src/RobotStateRt/Overread.antt =====
-- Where `unpack` reads past the end of a message: version 1.6 has no robot mode, and the test for
-- it, `version_ > 1.6`, also passes for a 1.6 with a revision number.
use ur_modern_driver.Common.{
  ℕ, ◌≤◌, ◌<◌, ◌≡◌, true, false, List, fault, arith, length, take, All, IsByte, be_value,
  load-eq-ok, load-eq-fault, length-take, swap_bytes-le_value,
}
use ur_modern_driver.Double.{Platform}
use ur_modern_driver.RobotStateRt.Defs.{RobotStateRt, lock}
use ur_modern_driver.RobotStateRt.Unpack.{
  unpack_double, length_good, unpack_modes, unpack_body, unpack_checked, unpack,
}
use ur_modern_driver.RobotStateRt.Layout.{
  read_joints, read_tool_v1, read_tool_v3, read_tool, read_inputs,
}
use ur_modern_driver.RobotStateRt.Fields.{
  unpack_joints-eq-ok, unpack_tool-eq-ok, unpack_inputs-eq-ok,
}

module _ {D : Type 0} ⦃d : Platform D⦄ where
  open d use {lit, lt, le}

  unpack_modes-eq-fault :
      (buf : List ℕ) (s : RobotStateRt D)
      → length buf < 764
      → lt (lit 16 1) s.version ≡ true
      → unpack_modes buf 740 s ≡ fault
  unfolding unpack_modes unpack_double
  unpack_modes-eq-fault buf s h new = rw (new, load-eq-fault 8 buf 756 (omega arith))

  version-read_inputs :
      (buf : List ℕ) (s : RobotStateRt D)
      → (read_inputs buf (read_tool buf (read_joints buf s))).version ≡ s.version
  unfolding read_inputs read_tool read_tool_v1 read_tool_v3 read_joints
  version-read_inputs buf s = ground arith

  unpack_body-eq-fault :
      (buf : List ℕ) (s : RobotStateRt D)
      → 748 ≤ length buf
      → length buf < 764
      → lt (lit 16 1) s.version ≡ true
      → unpack_body buf 4 s ≡ fault
  unfolding unpack_body
  unpack_body-eq-fault buf s h l new =
      let joints = read_joints buf s in
      let tool = read_tool buf joints in
      let inputs = read_inputs buf tool in
      rw (
        unpack_joints-eq-ok buf s (omega arith),
        unpack_tool-eq-ok buf joints (omega arith),
        unpack_inputs-eq-ok buf tool (omega arith),
        unpack_modes-eq-fault buf inputs l (rw (version-read_inputs buf s) new),
      )

  -- A message of 756 bytes, which is the length for versions from 1.6 up to 1.7, cannot be parsed
  -- from those bytes alone when the version is above 1.6: `unpack` reads past its last byte.
  pub unpack_overreads :
      (buf : List ℕ) (s : RobotStateRt D)
      → length buf ≡ 756
      → All IsByte (take 4 buf)
      → be_value (take 4 buf) ≡ 756
      → s.val_lock ≡ false
      → le (lit 16 1) s.version ≡ true
      → lt s.version (lit 17 1) ≡ true
      → lt (lit 16 1) s.version ≡ true
      → unpack buf s ≡ fault
  unfolding unpack lock unpack_checked length_good
  unpack_overreads buf s size bytes len free from to new = rw (
    free,
    load-eq-ok 4 buf 0 (omega arith),
    swap_bytes-le_value 4 (take 4 buf) (length-take 4 buf (omega arith)) bytes,
    len,
    from,
    to,
    unpack_body-eq-fault buf (record s { val_lock = true }) (omega arith) (omega arith) new,
  )
