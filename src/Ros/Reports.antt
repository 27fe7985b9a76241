-- ===== src/Ros/Reports.antt =====
-- What a round of `publishRTMsg` says of the realtime state.
use ur_modern_driver.Common.{◌≡◌, refl, false, List, [], ◌∷◌, ok, length, arith, Returns, returns}
use ur_modern_driver.Double.{Platform}
use ur_modern_driver.RobotStateRt.Defs.{RobotStateRt, set_data_published}
use ur_modern_driver.RobotStateRt.Getters.{
  get_q_actual, get_qd_actual, get_i_actual, get_tcp_force, get_tool_vector_actual,
  get_tcp_speed_actual, locked-eq-ok,
}
use ur_modern_driver.RobotStateRt.Shape.{IsValid}
use ur_modern_driver.Driver.Defs.{get_joint_names}
use ur_modern_driver.Ros.Defs.{RosWrapper}
use ur_modern_driver.Ros.Motion.{
  Vector3, RtMessages, Geometry, three, add_offsets, rotation_of, rt_messages, publish_rt,
}

module _ {D : Type 0} where
  -- The six values in two vectors.
  abbrev pub six_of : Vector3 D → Vector3 D → List D
  six_of v w = v.x ∷ v.y ∷ v.z ∷ w.x ∷ w.y ∷ w.z ∷ []

  -- Six values as two vectors.
  halves :
      (xs : List D)
      → length xs ≡ 6
      → (v w : Vector3 D) × (three xs 0 ≡ ok v) × (three xs 3 ≡ ok w) × (xs ≡ six_of v w)
  unfolding three
  halves (a ∷ b ∷ c ∷ e ∷ f ∷ g ∷ []) h =
      (record { x = a; y = b; z = c }, record { x = e; y = f; z = g }, refl, refl, refl)
  halves [] h = absurd (omega (arith, h))
  halves (a ∷ []) h = absurd (omega (arith, h))
  halves (a ∷ b ∷ []) h = absurd (omega (arith, h))
  halves (a ∷ b ∷ c ∷ []) h = absurd (omega (arith, h))
  halves (a ∷ b ∷ c ∷ e ∷ []) h = absurd (omega (arith, h))
  halves (a ∷ b ∷ c ∷ e ∷ f ∷ []) h = absurd (omega (arith, h))
  halves (a ∷ b ∷ c ∷ e ∷ f ∷ g ∷ k ∷ xs) h = absurd (omega (arith, h))

module _ {D : Type 0} ⦃d : Platform D⦄ where
  open d use {add}

  -- The sums of two lists, place by place.
  abbrev pub sums : List D → List D → List D
  sums [] ys = []
  sums (x ∷ xs) [] = []
  sums (x ∷ xs) (y ∷ ys) = add x y ∷ sums xs ys

  add_offsets-sums :
      (q offsets : List D) → length q ≡ length offsets → add_offsets q offsets ≡ ok (sums q offsets)
  unfolding add_offsets
  add_offsets-sums [] offsets l = refl
  add_offsets-sums (x ∷ xs) [] l = absurd (omega (arith, l))
  add_offsets-sums (x ∷ xs) (o ∷ offsets) l =
      rw (add_offsets-sums xs offsets (omega (arith, l))) refl

module _ {D : Type 0} ⦃d : Platform D⦄ (geometry : Geometry D) where
  -- What the messages say of a realtime state.
  pub record IsReport (ros : RosWrapper D) (s : RobotStateRt D) (msg : RtMessages D) : Type 0 where
    pub names : msg.names ≡ ros.robot.joint_names
    pub positions : msg.positions ≡ sums s.q_actual ros.joint_offsets
    pub velocities : msg.velocities ≡ s.qd_actual
    pub effort : msg.effort ≡ s.i_actual
    pub wrench : s.tcp_force ≡ six_of msg.force msg.torque
    pub twist : s.tcp_speed_actual ≡ six_of msg.linear msg.angular
    pub pose :
        (r : Vector3 D) × (s.tool_vector_actual ≡ six_of msg.origin r)
        × (msg.rotation ≡ rotation_of geometry r)

  -- On a well-formed realtime state that is not locked, with an offset for each joint, a round
  -- publishes the joints' positions with the offsets added, their speeds and currents, the force and
  -- torque, the speed and the pose of the tool, each value in its place; and it marks the data as
  -- published and changes nothing else of the state.
  pub publish_rt-reports :
      (ros : RosWrapper D)
      → let s = ros.robot.rt_interface.robot_state in
        s.val_lock ≡ false
        → IsValid s
        → length ros.joint_offsets ≡ 6
        → Returns
            (λ r. IsReport ros s r.0 × (r.1.robot.rt_interface.robot_state ≡ set_data_published s))
            (publish_rt geometry ros)
  unfolding publish_rt rt_messages get_q_actual get_qd_actual get_i_actual get_tcp_force
      get_tool_vector_actual get_tcp_speed_actual get_joint_names
  publish_rt-reports ros free v l =
      let s = ros.robot.rt_interface.robot_state in
      let (force, torque, f1, f2, f) = halves s.tcp_force v.tcp_force in
      let (origin, r, t1, t2, t) = halves s.tool_vector_actual v.tool_vector_actual in
      let (linear, angular, s1, s2, speed) = halves s.tcp_speed_actual v.tcp_speed_actual in
      rw
        (
          locked-eq-ok (λ s. s.q_actual) s free,
          add_offsets-sums s.q_actual ros.joint_offsets (omega (arith, l, v.q_actual)),
          locked-eq-ok (λ s. s.qd_actual) s free,
          locked-eq-ok (λ s. s.i_actual) s free,
          locked-eq-ok (λ s. s.tcp_force) s free,
          f1,
          f2,
          locked-eq-ok (λ s. s.tool_vector_actual) s free,
          t2,
          t1,
          locked-eq-ok (λ s. s.tcp_speed_actual) s free,
          s1,
          s2,
        )
        (returns (
          record {
            names = refl;
            positions = refl;
            velocities = refl;
            effort = refl;
            wrench = f;
            twist = speed;
            pose = (r, t, refl);
          },
          refl,
        ))
