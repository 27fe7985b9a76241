-- ===== src/RobotStateRt/Fields.antt =====
-- Each part of `unpack` reads the fields of the layout, and nothing else.
use ur_modern_driver.Common.{
  Bool-cases, inl, inr, ℕ, zero, suc, ◌+◌, ◌*◌, ◌^◌, ◌≤◌, ◌<◌, ◌≡◌, refl, List, ok, arith, u16,
  length, load-eq-ok,
}
use ur_modern_driver.Double.{Platform}
use ur_modern_driver.RobotStateRt.Defs.{RobotStateRt}
use ur_modern_driver.RobotStateRt.Layout.{
  word_at, double_at, doubles_at, read_joints, read_tool_v1, read_tool_v3, read_tool, read_inputs,
  read_modes, modes_end, read_power, read_body,
}
use ur_modern_driver.RobotStateRt.Unpack.{
  unpack_vector, unpack_double, unpack_joints, unpack_tool_v1, unpack_tool_v3, unpack_tool,
  unpack_inputs, unpack_joint_modes, unpack_modes, unpack_power, unpack_body,
}

no_wrap_first : (from : ℕ) → from ≤ 764 → u16 (from + 48) ≡ from + 48
no_wrap_first from h = omega arith

no_wrap : (from k n : ℕ) → from + k + n < 2 ^ 16 → u16 (from + k + n) ≡ from + (k + n)
no_wrap from k n h = omega arith

module _ {D : Type 0} ⦃d : Platform D⦄ where
  open d use {lit, lt, le, wide_shift}

  unpack_vector-eq-ok :
      (buf : List ℕ) (offset n : ℕ)
      → offset + 8 * n ≤ length buf
      → unpack_vector {D = D} buf offset n ≡ ok (doubles_at buf offset n)
  unfolding unpack_vector doubles_at double_at word_at
  unpack_vector-eq-ok buf offset zero h = refl
  unpack_vector-eq-ok buf offset (suc n) h =
      rw (
        load-eq-ok 8 buf offset (omega arith),
        unpack_vector-eq-ok buf (offset + 8) n (omega arith),
      )

  unpack_double-eq-ok :
      (buf : List ℕ) (offset : ℕ)
      → offset + 8 ≤ length buf
      → unpack_double {D = D} buf offset ≡ ok (double_at buf offset)
  unfolding unpack_double double_at word_at
  unpack_double-eq-ok buf offset h = rw (load-eq-ok 8 buf offset h)

  pub unpack_joints-eq-ok :
      (buf : List ℕ) (s : RobotStateRt D)
      → 396 ≤ length buf
      → unpack_joints buf 4 s ≡ ok (read_joints buf s, 396)
  unfolding unpack_joints read_joints
  unpack_joints-eq-ok buf s h = rw (
    unpack_double-eq-ok buf 4 (omega arith),
    unpack_vector-eq-ok buf 12 6 (omega arith),
    unpack_vector-eq-ok buf 60 6 (omega arith),
    unpack_vector-eq-ok buf 108 6 (omega arith),
    unpack_vector-eq-ok buf 156 6 (omega arith),
    unpack_vector-eq-ok buf 204 6 (omega arith),
    unpack_vector-eq-ok buf 252 6 (omega arith),
    unpack_vector-eq-ok buf 300 6 (omega arith),
    unpack_vector-eq-ok buf 348 6 (omega arith),
  )

  unpack_tool_v1-eq-ok :
      (buf : List ℕ) (s : RobotStateRt D)
      → 684 ≤ length buf
      → unpack_tool_v1 buf 396 s ≡ ok (read_tool_v1 buf s, 636)
  unfolding unpack_tool_v1 read_tool_v1
  unpack_tool_v1-eq-ok buf s h =
      rw
        (
          unpack_vector-eq-ok buf 396 3 (omega arith),
          unpack_vector-eq-ok buf 540 6 (omega arith),
          unpack_vector-eq-ok buf 588 6 (omega arith),
          unpack_vector-eq-ok buf 636 6 (omega arith),
        )
        (elim (Bool-cases (lt (lit 16 1) s.version)) [ inl e ↦ rw e refl | inr e ↦ rw e refl ])

  unpack_tool_v3-eq-ok :
      (buf : List ℕ) (s : RobotStateRt D)
      → 684 ≤ length buf
      → unpack_tool_v3 buf 396 s ≡ ok (read_tool_v3 buf s, 636)
  unfolding unpack_tool_v3 read_tool_v3
  unpack_tool_v3-eq-ok buf s h = rw (
    unpack_vector-eq-ok buf 396 6 (omega arith),
    unpack_vector-eq-ok buf 444 6 (omega arith),
    unpack_vector-eq-ok buf 492 6 (omega arith),
    unpack_vector-eq-ok buf 540 6 (omega arith),
    unpack_vector-eq-ok buf 588 6 (omega arith),
    unpack_vector-eq-ok buf 636 6 (omega arith),
  )

  pub unpack_tool-eq-ok :
      (buf : List ℕ) (s : RobotStateRt D)
      → 684 ≤ length buf
      → unpack_tool buf 396 s ≡ ok (read_tool buf s, 684)
  unfolding unpack_tool read_tool
  unpack_tool-eq-ok buf s h = elim (Bool-cases (le s.version (lit 19 1))) [
    | inl e ↦ rw (e, unpack_tool_v1-eq-ok buf s h)
    | inr e ↦ rw (e, unpack_tool_v3-eq-ok buf s h)
  ]

  pub unpack_inputs-eq-ok :
      (buf : List ℕ) (s : RobotStateRt D)
      → 748 ≤ length buf
      → unpack_inputs buf 684 s ≡ ok (read_inputs buf s, 740)
  unfolding unpack_inputs read_inputs word_at
  unpack_inputs-eq-ok buf s h = rw (
    load-eq-ok 8 buf 684 (omega arith),
    unpack_vector-eq-ok buf 692 6 (omega arith),
    unpack_double-eq-ok buf 740 (omega arith),
  )

  unpack_modes-eq-ok :
      (buf : List ℕ) (s : RobotStateRt D)
      → 812 ≤ length buf
      → unpack_modes buf 740 s ≡ ok (read_modes buf s, modes_end s.version)
  unfolding unpack_modes read_modes unpack_joint_modes modes_end
  unpack_modes-eq-ok buf s h = elim (Bool-cases (lt (lit 16 1) s.version)) [
    | inl e ↦
        rw (e, unpack_double-eq-ok buf 756 (omega arith))
          (elim (Bool-cases (lt (lit 17 1) s.version)) [
            | inl f ↦ rw (f, unpack_vector-eq-ok buf 764 6 (omega arith))
            | inr f ↦ rw f
          ])
    | inr e ↦ rw e
  ]

  unpack_power-eq-ok :
      (buf : List ℕ) (from : ℕ) (s : RobotStateRt D)
      → from + 168 ≤ length buf
      → from ≤ 764
      → unpack_power buf from s ≡ ok (read_power buf from s)
  unfolding unpack_power read_power
  unpack_power-eq-ok buf from s h l = elim (Bool-cases (lt (lit 18 1) s.version)) [
    | inl e ↦ rw (
      e,
      no_wrap_first from (omega arith),
      no_wrap from 48 8 (omega arith),
      no_wrap from 56 24 (omega arith),
      no_wrap from 80 8 (omega arith),
      no_wrap from 88 8 (omega arith),
      no_wrap from 96 8 (omega arith),
      no_wrap from 104 8 (omega arith),
      no_wrap from 112 8 (omega arith),
      unpack_double-eq-ok buf (from + 48) (omega arith),
      unpack_vector-eq-ok buf (from + 56) 3 (omega arith),
      unpack_double-eq-ok buf (from + 80) (omega arith),
      unpack_double-eq-ok buf (from + 88) (omega arith),
      unpack_double-eq-ok buf (from + 96) (omega arith),
      unpack_double-eq-ok buf (from + 104) (omega arith),
      unpack_double-eq-ok buf (from + 112) (omega arith),
      unpack_vector-eq-ok buf (from + 120) 6 (omega arith),
    )
    | inr e ↦ rw e
  ]

  modes_end-le : (version : D) → modes_end version ≤ 764
  unfolding modes_end
  modes_end-le version = ground arith

  -- The body of a message is read as the layout says, whatever the version.
  pub unpack_body-eq-ok :
      (buf : List ℕ) (s : RobotStateRt D)
      → 932 ≤ length buf
      → unpack_body buf 4 s ≡ ok (read_body buf s)
  unfolding unpack_body read_body
  unpack_body-eq-ok buf s h =
      let joints = read_joints buf s in
      let tool = read_tool buf joints in
      let inputs = read_inputs buf tool in
      let from = modes_end inputs.version in
      let low = modes_end-le inputs.version in
      rw (
        unpack_joints-eq-ok buf s (omega arith),
        unpack_tool-eq-ok buf joints (omega arith),
        unpack_inputs-eq-ok buf tool (omega arith),
        unpack_modes-eq-ok buf inputs (omega arith),
        unpack_power-eq-ok buf from (read_modes buf inputs) (omega arith) low,
      )
