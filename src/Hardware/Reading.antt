-- ===== src/Hardware/Reading.antt =====
-- What `read` copies from the realtime state.
use ur_modern_driver.Common.{
  ℕ, zero, suc, ◌+◌, ◌≤◌, ◌<◌, ◌≡◌, refl, ap, ◌∙◌, false, List, [], ◌∷◌, ok, arith, length,
  length-drop, take, drop,
}
use ur_modern_driver.Double.{Platform}
use ur_modern_driver.RobotStateRt.Getters.{
  locked-eq-ok, get_q_actual, get_qd_actual, get_i_actual, get_tcp_force,
}
use ur_modern_driver.RobotStateRt.Shape.{IsValid}
use ur_modern_driver.Driver.Trajectory.{at}
use ur_modern_driver.Hardware.Defs.{UrHardwareInterface, copy_from, read}

module _ {D : Type 0} where
  at-drop :
      (xs : List D) (i : ℕ)
      → i < length xs
      → (x : D) × (at xs i ≡ ok x) × (drop i xs ≡ x ∷ drop (suc i) xs)
  at-drop [] i h = absurd (omega arith)
  at-drop (x ∷ xs) zero h = (x, refl, refl)
  at-drop (x ∷ xs) (suc i) h = at-drop xs i (omega arith)

  take-length : (xs : List D) (n : ℕ) → length xs ≡ n → take n xs ≡ xs
  take-length [] zero h = refl
  take-length [] (suc n) h = refl
  take-length (x ∷ xs) zero h = absurd (omega (arith, h))
  take-length (x ∷ xs) (suc n) h = ap (◌∷◌ x) (take-length xs n (omega (arith, h)))

module _ {D : Type 0} ⦃d : Platform D⦄ where
  copy_from-take :
      (n i : ℕ) (xs : List D) → i + n ≤ length xs → copy_from n i xs ≡ ok (take n (drop i xs))
  unfolding copy_from
  copy_from-take zero i xs h = refl
  copy_from-take (suc n) i xs h =
      let (x, e, f) = at-drop xs i (omega arith) in
      let next : i + 1 ≡ suc i = omega arith in
      rw (e, f, copy_from-take n (i + 1) xs (omega arith), next)

  copy_from-all : (xs : List D) → length xs ≡ 6 → copy_from 6 0 xs ≡ ok xs
  copy_from-all xs h = copy_from-take 6 0 xs (omega (arith, h)) ∙ ap ok (take-length xs 6 h)

  -- On six joints, a well-formed realtime state that is not locked: `read` takes over the positions,
  -- the speeds and the currents of the joints, and the six values of the TCP force as three of
  -- force and three of torque. The rest, the realtime state included, stays as it was.
  pub read-eq-ok :
      (hw : UrHardwareInterface D)
      → hw.num_joints ≡ 6
      → hw.robot.rt_interface.robot_state.val_lock ≡ false
      → IsValid hw.robot.rt_interface.robot_state
      → let state = hw.robot.rt_interface.robot_state in
        read hw
        ≡ ok (record hw {
          joint_position = state.q_actual;
          joint_velocity = state.qd_actual;
          joint_effort = state.i_actual;
          robot_force = take 3 state.tcp_force;
          robot_torque = drop 3 state.tcp_force;
        })
  unfolding read get_q_actual get_qd_actual get_i_actual get_tcp_force
  read-eq-ok hw six free v =
      let state = hw.robot.rt_interface.robot_state in
      let torque : take 3 (drop 3 state.tcp_force) ≡ drop 3 state.tcp_force =
        take-length (drop 3 state.tcp_force) 3
          (omega (arith, length-drop 3 state.tcp_force, v.tcp_force)) in
      rw (
        locked-eq-ok (λ s. s.q_actual) state free,
        locked-eq-ok (λ s. s.qd_actual) state free,
        locked-eq-ok (λ s. s.i_actual) state free,
        locked-eq-ok (λ s. s.tcp_force) state free,
        six,
        copy_from-all state.q_actual v.q_actual,
        copy_from-all state.qd_actual v.qd_actual,
        copy_from-all state.i_actual v.i_actual,
        copy_from-take 3 0 state.tcp_force (omega (arith, v.tcp_force)),
        copy_from-take 3 3 state.tcp_force (omega (arith, v.tcp_force)),
        torque,
      )
