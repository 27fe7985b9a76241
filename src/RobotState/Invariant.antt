-- ===== src/RobotState/Invariant.antt =====
-- What unpacking keeps of the state: the mutex is given back and the arrays keep their sizes.
use ur_modern_driver.Common.{
  ℕ, zero, suc, ◌+◌, ◌≡◌, inl, inr, List, Outcome, ok, ltb, ◌==◌, if◌then◌else◌, u32, length, load,
  Bool-cases, Keeps, Keeps-bind, Keeps-any, Keeps-if, kept, endless, Keeps-value,
}
use ur_modern_driver.Double.{Platform}
use ur_modern_driver.RobotState.Defs.{
  RobotState, lock, get_version, robot_mode_package, masterboard_package, robot_message,
  robot_state_message,
}
use ur_modern_driver.RobotState.Packages.{
  load_swapped, unpack_robot_mode, unpack_robot_state_masterboard, unpack_mode_flags,
  unpack_mode_speeds, unpack_digital, unpack_analog, unpack_board, unpack_euromap,
}
use ur_modern_driver.RobotState.Unpack.{
  unpack_package, package_round, package_loop, unpack_robot_state, unpack_message, message_round,
  message_loop, unpack,
}
use ur_modern_driver.RobotState.VersionInvariant.{
  IsHeld, lock-IsHeld, unlock-IsHeld, unpack_robot_message-Keeps,
}

module _ {D : Type 0} ⦃d : Platform D⦄ (depth : ℕ) where
  open d use {lit, lt}

  unpack_robot_mode-Keeps :
      (buf : List ℕ) (offset : ℕ) (s : RobotState D)
      → IsHeld depth s
      → Keeps (IsHeld depth) (unpack_robot_mode buf offset s)
  unfolding unpack_robot_mode
  unpack_robot_mode-Keeps buf offset s h =
      Keeps-any (unpack_mode_flags buf offset s.robot_mode) λ mode1.
        Keeps-any (unpack_mode_speeds (lt (lit 2 0) (get_version s)) buf (offset + 16) mode1)
          λ mode2. kept record { depth = h.depth; sized = h.sized; running = h.running }

  unpack_robot_state_masterboard-Keeps :
      (buf : List ℕ) (offset : ℕ) (s : RobotState D)
      → IsHeld depth s
      → Keeps (IsHeld depth) (unpack_robot_state_masterboard buf offset s)
  unfolding unpack_robot_state_masterboard
  unpack_robot_state_masterboard-Keeps buf offset s h =
      Keeps-any (unpack_digital (lt (get_version s) (lit 30 1)) buf offset s.mb_data) λ (m1, o1).
        Keeps-any (unpack_analog buf o1 m1) λ m2. Keeps-any (unpack_board buf (o1 + 36) m2) λ m3.
          Keeps-any
            (if m3.euromap67_interface_installed == 0
              then ok m3
              else unpack_euromap (lt (get_version s) (lit 30 1)) buf (o1 + 55) m3)
            λ m4. kept record { depth = h.depth; sized = h.sized; running = h.running }

module _ {D : Type 0} ⦃d : Platform D⦄ (depth : ℕ) where
  unpack_package-Keeps :
      (kind : ℕ) (buf : List ℕ) (offset : ℕ) (s : RobotState D)
      → IsHeld depth s
      → Keeps (IsHeld depth) (unpack_package kind buf offset s)
  unfolding unpack_package
  unpack_package-Keeps kind buf offset s h =
      let held = lock-IsHeld depth s h in
      let mode = unpack_robot_mode-Keeps (suc depth) buf (u32 (offset + 5)) (lock s) held in
      let board =
        unpack_robot_state_masterboard-Keeps (suc depth) buf (u32 (offset + 5)) (lock s) held in
      let release =
        λ (s' : RobotState D) (h' : IsHeld (suc depth) s'). kept (unlock-IsHeld depth s' h') in
      Keeps-if (kind == robot_mode_package) (λ e. Keeps-bind mode release)
        (λ e.
          Keeps-if (kind == masterboard_package) (λ e'. Keeps-bind board release) (λ e'. kept h))

  HasHeld : RobotState D × ℕ → Type 0
  HasHeld r = IsHeld depth r.0

  package_round-Keeps :
      (buf : List ℕ) (offset : ℕ) (s : RobotState D)
      → IsHeld depth s
      → Keeps HasHeld (package_round buf offset s)
  unfolding package_round HasHeld
  package_round-Keeps buf offset s h = Keeps-any (load_swapped 4 buf offset) λ length.
      Keeps-any (load 1 buf (offset + 4)) λ package_type.
        Keeps-bind (unpack_package-Keeps package_type buf offset s h) λ s' h'. kept h'

  package_loop-Keeps :
      (fuel : ℕ) (buf : List ℕ) (offset len : ℕ) (s : RobotState D)
      → IsHeld depth s
      → Keeps (IsHeld depth) (package_loop fuel buf offset len s)
  unfolding package_loop HasHeld
  package_loop-Keeps zero buf offset len s h = endless
  package_loop-Keeps (suc fuel) buf offset len s h = elim (Bool-cases (ltb offset len)) [
    | inl e ↦
        rw (e, package_loop)
          (Keeps-bind (package_round-Keeps buf offset s h)
            (λ r h'. package_loop-Keeps fuel buf r.1 len r.0 h'))
    | inr e ↦ rw (e, package_loop) (kept h)
  ]

  unpack_robot_state-Keeps :
      (buf : List ℕ) (offset len : ℕ) (s : RobotState D)
      → IsHeld depth s
      → Keeps (IsHeld depth) (unpack_robot_state buf offset len s)
  unfolding unpack_robot_state
  unpack_robot_state-Keeps buf offset len s h =
      Keeps-bind (package_loop-Keeps (length buf + 1) buf (u32 (offset + 5)) len s h)
        (λ s' h'. kept record { depth = h'.depth; sized = h'.sized; running = h'.running })

  unpack_message-Keeps :
      (kind : ℕ) (buf : List ℕ) (offset len : ℕ) (s : RobotState D)
      → IsHeld depth s
      → Keeps (IsHeld depth) (unpack_message kind buf offset len s)
  unfolding unpack_message
  unpack_message-Keeps kind buf offset len s h =
      Keeps-if (kind == robot_message) (λ e. unpack_robot_message-Keeps depth buf offset len s h)
        (λ e.
          Keeps-if (kind == robot_state_message) (λ e'. unpack_robot_state-Keeps buf offset len s h)
            (λ e'. kept h))

  message_round-Keeps :
      (rest : ℕ → RobotState D → Outcome (RobotState D)) (buf : List ℕ) (buf_length offset len : ℕ)
      (s : RobotState D)
      → ((o : ℕ) (s' : RobotState D) → IsHeld depth s' → Keeps (IsHeld depth) (rest o s'))
      → IsHeld depth s
      → Keeps (IsHeld depth) (message_round rest buf buf_length offset len s)
  unfolding message_round
  message_round-Keeps rest buf buf_length offset len s k h =
      Keeps-if (ltb buf_length (u32 (len + offset))) (λ e. kept h)
        (λ e. Keeps-any (load 1 buf (offset + 4)) λ message_type.
          Keeps-bind (unpack_message-Keeps message_type buf offset len s h)
            λ s' h'. k (u32 (offset + len)) s' h')

  message_loop-Keeps :
      (fuel : ℕ) (buf : List ℕ) (buf_length offset : ℕ) (s : RobotState D)
      → IsHeld depth s
      → Keeps (IsHeld depth) (message_loop fuel buf buf_length offset s)
  unfolding message_loop
  message_loop-Keeps zero buf buf_length offset s h = endless
  message_loop-Keeps (suc fuel) buf buf_length offset s h =
      elim (Bool-cases (ltb offset buf_length)) [
        | inl e ↦
            rw (e, message_loop)
              (Keeps-any (load_swapped 4 buf offset) λ len.
                message_round-Keeps (message_loop fuel buf buf_length) buf buf_length offset len s
                  (λ o s' h'. message_loop-Keeps fuel buf buf_length o s' h') h)
        | inr e ↦ rw (e, message_loop) (kept h)
      ]

  -- However the new bytes look, a run of `unpack` that comes to an end gives the mutex back as often
  -- as it takes it, keeps the sizes of the two arrays of the version message, and leaves a running
  -- mode of one of the two generations of controllers.
  pub unpack-IsHeld :
      (buf : List ℕ) (buf_length : ℕ) (s s' : RobotState D)
      → IsHeld depth s
      → unpack buf buf_length s ≡ ok s'
      → IsHeld depth s'
  unfolding unpack
  unpack-IsHeld buf buf_length s s' h e =
      Keeps-value s' (message_loop-Keeps (length buf + 1) buf buf_length 0 s h) e
