-- ===== src/RobotStateRt/Shape.antt =====
-- The sizes of the vectors in the state: what callers that index them rely on.
use ur_modern_driver.Common.{
  ℕ, zero, suc, ◌+◌, ◌≤◌, ◌≡◌, refl, ap, ◌∙◌, true, false, List, ok, arith, Bool-cases, inl, inr,
  length, take, All, IsByte, be_value,
}
use ur_modern_driver.Double.{Platform}
use ur_modern_driver.RobotStateRt.Defs.{RobotStateRt, new, unlock}
use ur_modern_driver.RobotStateRt.DigitalBits.{length-unpack_digital_input_bits}
use ur_modern_driver.RobotStateRt.Unpack.{length_good, unpack}
use ur_modern_driver.RobotStateRt.Layout.{
  doubles_at, read_joints, read_tool_v1, read_tool_v3, read_tool, read_inputs, read_modes,
  modes_end, read_power, read_body, publish,
}
use ur_modern_driver.RobotStateRt.Contract.{unpack-eq-ok}

-- Six values for six joints, three for the accelerometer, and 64 inputs.
pub record IsValid {D : Type 0} (s : RobotStateRt D) : Type 0 where
  pub q_target : length s.q_target ≡ 6
  pub qd_target : length s.qd_target ≡ 6
  pub qdd_target : length s.qdd_target ≡ 6
  pub i_target : length s.i_target ≡ 6
  pub m_target : length s.m_target ≡ 6
  pub q_actual : length s.q_actual ≡ 6
  pub qd_actual : length s.qd_actual ≡ 6
  pub i_actual : length s.i_actual ≡ 6
  pub i_control : length s.i_control ≡ 6
  pub tool_vector_actual : length s.tool_vector_actual ≡ 6
  pub tcp_speed_actual : length s.tcp_speed_actual ≡ 6
  pub tcp_force : length s.tcp_force ≡ 6
  pub tool_vector_target : length s.tool_vector_target ≡ 6
  pub tcp_speed_target : length s.tcp_speed_target ≡ 6
  pub motor_temperatures : length s.motor_temperatures ≡ 6
  pub joint_modes : length s.joint_modes ≡ 6
  pub v_actual : length s.v_actual ≡ 6
  pub tool_accelerometer_values : length s.tool_accelerometer_values ≡ 3
  pub digital_input_bits : length s.digital_input_bits ≡ 64

module _ (D : Type 0) ⦃d : Platform D⦄ where
  length-doubles_at : (buf : List ℕ) (offset n : ℕ) → length (doubles_at {D = D} buf offset n) ≡ n
  unfolding doubles_at
  length-doubles_at buf offset zero = refl
  length-doubles_at buf offset (suc n) = ap suc (length-doubles_at buf (offset + 8) n)

module _ {D : Type 0} ⦃d : Platform D⦄ where
  open d use {wide_shift}

  pub new-IsValid : IsValid (new {D = D})
  unfolding new
  new-IsValid = ground arith

  read_joints-IsValid :
      (buf : List ℕ) {s : RobotStateRt D} → IsValid s → IsValid (read_joints buf s)
  unfolding read_joints
  read_joints-IsValid buf v = grind (arith, length-doubles_at D)

  read_tool-IsValid : (buf : List ℕ) {s : RobotStateRt D} → IsValid s → IsValid (read_tool buf s)
  unfolding read_tool read_tool_v1 read_tool_v3
  read_tool-IsValid buf v = grind (arith, length-doubles_at D)

  read_inputs-IsValid :
      (buf : List ℕ) {s : RobotStateRt D} → IsValid s → IsValid (read_inputs buf s)
  unfolding read_inputs
  read_inputs-IsValid buf v = grind (arith, length-doubles_at D, length-unpack_digital_input_bits)

  read_modes-IsValid : (buf : List ℕ) {s : RobotStateRt D} → IsValid s → IsValid (read_modes buf s)
  unfolding read_modes
  read_modes-IsValid buf v = grind (arith, length-doubles_at D)

  read_power-IsValid :
      (buf : List ℕ) (from : ℕ) {s : RobotStateRt D} → IsValid s → IsValid (read_power buf from s)
  unfolding read_power
  read_power-IsValid buf from v = grind (arith, length-doubles_at D)

  read_body-IsValid : (buf : List ℕ) {s : RobotStateRt D} → IsValid s → IsValid (read_body buf s)
  unfolding read_body
  read_body-IsValid buf v = read_power-IsValid buf _ (
      read_modes-IsValid buf
        (read_inputs-IsValid buf (read_tool-IsValid buf (read_joints-IsValid buf v))))

  publish-IsValid : {s : RobotStateRt D} → IsValid s → IsValid (publish (unlock s))
  unfolding publish unlock
  publish-IsValid v = ground arith

  version-read_tool : (buf : List ℕ) (s : RobotStateRt D) → (read_tool buf s).version ≡ s.version
  unfolding read_tool read_tool_v1 read_tool_v3
  version-read_tool buf s = ground arith

  version-read_modes : (buf : List ℕ) (s : RobotStateRt D) → (read_modes buf s).version ≡ s.version
  unfolding read_modes
  version-read_modes buf s = ground arith

  version-read_power :
      (buf : List ℕ) (from : ℕ) (s : RobotStateRt D) → (read_power buf from s).version ≡ s.version
  unfolding read_power
  version-read_power buf from s = ground arith

  version-read_body : (buf : List ℕ) (s : RobotStateRt D) → (read_body buf s).version ≡ s.version
  unfolding read_body read_inputs read_joints
  version-read_body buf s =
      let joints = read_joints buf s in
      let inputs = read_inputs buf (read_tool buf joints) in
      version-read_power buf (modes_end inputs.version) (read_modes buf inputs)
      ∙ version-read_modes buf inputs
      ∙ version-read_tool buf joints

  -- Given a buffer that holds the longest layout, `unpack` on a well-formed state that is not
  -- locked ends, faults nowhere, and leaves a well-formed state that is not locked.
  pub unpack-IsValid :
      (buf : List ℕ) (s : RobotStateRt D)
      → 932 ≤ length buf
      → All IsByte (take 4 buf)
      → s.val_lock ≡ false
      → IsValid s
      → (t : RobotStateRt D) × (unpack buf s ≡ ok t)
        × IsValid t
        × (t.val_lock ≡ false)
        × (t.version ≡ s.version)
  unfolding publish unlock
  unpack-IsValid buf s h bytes free v =
      elim (Bool-cases (length_good s.version (be_value (take 4 buf)))) [
        | inl e ↦ (
          _,
          rw e at (unpack-eq-ok buf s h bytes free),
          publish-IsValid (read_body-IsValid buf (ground arith)),
          refl,
          version-read_body buf (record s { val_lock = true }),
        )
        | inr e ↦ (s, rw e at (unpack-eq-ok buf s h bytes free), v, free, refl)
      ]
