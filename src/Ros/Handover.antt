-- ===== src/Ros/Handover.antt =====
-- From an accepted goal to `doTraj`: what `goalCB` gives to the thread that it starts.
use ur_modern_driver.Common.{
  ℕ, suc, ◌+◌, ◌≤◌, ◌<◌, ◌≡◌, ◌⊎◌, inl, inr, refl, sym, subst, ap, ◌∙◌, ◌==◌, true, false, not,
  List, [], ◌∷◌, some, map, Returns, returns, Returns-bind, Returns-if, length, get_elem?, All,
  arith, Bool-cases, Option-cases,
}
use mathlib.Core.List.{Perm}
use ur_modern_driver.Double.{Platform, IsOrdered}
use ur_modern_driver.RobotStateRt.Getters.{get_q_actual, get_qd_actual, locked-eq-ok}
use ur_modern_driver.Driver.Defs.{UrDriver, get_joint_names}
use ur_modern_driver.Driver.Steps.{at-Returns, IsSix}
use ur_modern_driver.Driver.Following.{IsTrajectory}
use ur_modern_driver.Ros.Defs.{
  Point, JointTrajectory, GoalHandle, Task, RosWrapper, Result, reject, accept,
}
use ur_modern_driver.Ros.Checks.{positions_match, start_positions_match}
use ur_modern_driver.Ros.Actions.{
  set_robot, call, reject_goal, accept_goal, make_task, take_goal, examine_goal,
}
use ur_modern_driver.Ros.Mapping.{some-at}
use ur_modern_driver.Ros.Reordering.{IsFull, IsMoved, AreReordered, reorder_traj_joints-moves}
use ur_modern_driver.Ros.Accepted.{IsSized, goal_error-checks}

-- The realtime state is not locked, and has six joints and six speeds.
pub record IsReadable {D : Type 0} (drv : UrDriver D) : Type 0 where
  pub free : drv.rt_interface.robot_state.val_lock ≡ false
  pub joints : IsSix drv.rt_interface.robot_state.q_actual
  pub speeds : IsSix drv.rt_interface.robot_state.qd_actual

module _ {D : Type 0} ⦃d : Platform D⦄ where
  open d use {lit, eq}

  -- What a thread can follow: a trajectory of at least two points, or a single point. It starts at
  -- the time 0.
  pub record IsFollowable (task : Task D) : Type 0 where
    pub points :
        IsTrajectory task.timestamps task.positions task.velocities ⊎ (length task.timestamps ≡ 1)
    pub start : (t : D) × (get_elem? task.timestamps 0 ≡ some t) × (eq t (lit 0 0) ≡ true)

  -- The goal was rejected and no thread was started for it, or it was accepted and one was started
  -- that can follow what it is given.
  abbrev pub IsHanded : GoalHandle D → RosWrapper D → RosWrapper D → Type 0
  IsHanded gh ros t =
      ((why : Result) × (t.tasks ≡ ros.tasks)
        × (t.calls ≡ (gh.id, reject why) ∷ ros.calls)
        × (t.has_goal ≡ ros.has_goal)
        × (t.robot ≡ ros.robot))
      ⊎ ((task : Task D) × (t.tasks ≡ task ∷ ros.tasks)
          × (t.calls ≡ (gh.id, accept) ∷ ros.calls)
          × (t.has_goal ≡ true)
          × (t.goal_handle ≡ some gh)
          × (t.robot ≡ ros.robot)
          × IsFollowable task)

module _ {D : Type 0} where
  reordered-IsSized :
      (n : ℕ) (actual names : List (List ℕ)) (ps qs : List (Point D))
      → AreReordered actual names ps qs
      → All (IsSized n) ps
      → All (IsSized n) qs × (length qs ≡ length ps)
  unfolding IsMoved
  reordered-IsSized n actual names [] [] r h = (tt, refl)
  reordered-IsSized n actual names [] (q ∷ qs) r h = absurd r
  reordered-IsSized n actual names (p ∷ ps) [] r h = absurd r
  reordered-IsSized n actual names (p ∷ ps) (q ∷ qs) (r, rs) (h, hs) =
      let (sized, same) = reordered-IsSized n actual names ps qs rs hs in
      (
        (
          record {
            positions = r.positions.0 ∙ h.positions;
            velocities = r.velocities.0 ∙ h.velocities;
          },
          sized,
        ),
        ap suc same,
      )

  -- As many accelerations as there are joints, or none.
  abbrev pub HasAccelerations : List (List ℕ) → Point D → Type 0
  HasAccelerations names p = (length p.accelerations ≡ 0) ⊎ (length p.accelerations ≡ length names)

  points-IsFull :
      (names : List (List ℕ)) (ps : List (Point D))
      → All (IsSized (length names)) ps
      → All (HasAccelerations names) ps
      → All (IsFull names) ps
  points-IsFull names [] h acc = tt
  points-IsFull names (p ∷ ps) (h, hs) (a, as') = (
    record { positions = h.positions; velocities = h.velocities; accelerations = a },
    points-IsFull names ps hs as',
  )

  points-six :
      (ps : List (Point D))
      → All (IsSized 6) ps
      → (length (map (λ p. p.time_from_start) ps) ≡ length ps)
        × (length (map (λ p. p.positions) ps) ≡ length ps)
        × (length (map (λ p. p.velocities) ps) ≡ length ps)
        × All IsSix (map (λ p. p.positions) ps)
        × All IsSix (map (λ p. p.velocities) ps)
  points-six [] h = (refl, refl, refl, tt, tt)
  points-six (p ∷ ps) (h, hs) =
      let (e1, e2, e3, h1, h2) = points-six ps hs in
      (ap suc e1, ap suc e2, ap suc e3, (h.positions, h1), (h.velocities, h2))

module _ {D : Type 0} ⦃d : Platform D⦄ (laws : IsOrdered d) where
  open d use {lit, lt, eq, sub, fabs}

  positions_match-Returns :
      (eps : D) (i : ℕ) (xs : List D) (drv : UrDriver D)
      → i + length xs ≤ 6
      → IsReadable drv
      → Returns (λ r. r.1 ≡ drv) (positions_match eps i xs drv)
  unfolding positions_match get_q_actual
  positions_match-Returns eps i [] drv l c = returns refl
  positions_match-Returns eps i (x ∷ xs) drv l c =
      let state = drv.rt_interface.robot_state in
      let (q, there) = some-at state.q_actual i (omega (arith, l, c.joints)) in
      rw (locked-eq-ok (λ s. s.q_actual) state c.free, there)
        (Returns-if (lt eps (fabs (sub x q))) (λ e. returns refl)
          (λ e. positions_match-Returns eps (suc i) xs drv (omega (arith, l)) c))

  start_positions_match-Returns :
      (traj : JointTrajectory D) (eps : D) (drv : UrDriver D)
      → 0 < length traj.points
      → All (IsSized 6) traj.points
      → IsReadable drv
      → Returns (λ r. r.1 ≡ drv) (start_positions_match traj eps drv)
  unfolding start_positions_match
  start_positions_match-Returns traj eps drv l h c =
      Returns-bind (at-Returns (IsSized 6) traj.points 0 h l)
        λ p hp. positions_match-Returns eps 0 p.positions drv (omega (arith, hp.positions)) c

  first_time :
      (ps : List (Point D)) (p : Point D)
      → get_elem? ps 0 ≡ some p
      → get_elem? (map (λ p. p.time_from_start) ps) 0 ≡ some p.time_from_start
  first_time [] p e = absurd cc
  first_time (q ∷ ps) p e = cc

  make_task-Returns :
      (ps : List (Point D)) (drv : UrDriver D)
      → 0 < length ps
      → All (IsSized 6) ps
      → IsReadable drv
      → Returns (λ r. IsFollowable r.0 × (r.1 ≡ drv)) (make_task ps drv)
  unfolding make_task get_q_actual get_qd_actual
  make_task-Returns ps drv l h c =
      let (p, there) = some-at ps 0 l in
      let state = drv.rt_interface.robot_state in
      let (e1, e2, e3, h1, h2) = points-six ps h in
      rw there (
        Returns-if (not (eq p.time_from_start (lit 0 0)))
          (λ e.
            rw
              (
                locked-eq-ok (λ s. s.q_actual) state c.free,
                locked-eq-ok (λ s. s.qd_actual) state c.free,
              )
              (returns (
                record {
                  points = inl record {
                    points = omega (arith, l, e1);
                    enough_positions = omega (arith, e1, e2);
                    enough_velocities = omega (arith, e1, e3);
                    six_positions = (c.joints, h1);
                    six_velocities = (c.speeds, h2);
                  };
                  start = (lit 0 0, refl, laws.eq_lit_refl 0 0);
                },
                refl,
              )))
          (λ e. returns (
            record {
              points = elim (Bool-cases (length ps == 1)) [
                | inl one ↦ inr (ground (arith, one, e1))
                | inr more ↦ inl record {
                  points = ground (arith, l, more, e1);
                  enough_positions = omega (arith, e1, e2);
                  enough_velocities = omega (arith, e1, e3);
                  six_positions = h1;
                  six_velocities = h2;
                }
              ];
              start = (p.time_from_start, first_time ps p there, ground (arith, e));
            },
            refl,
          )))

  take_goal-Returns :
      (gh : GoalHandle D) (ros : RosWrapper D)
      → length gh.trajectory.joint_names ≡ 6
      → Perm gh.trajectory.joint_names ros.robot.joint_names
      → ros.goal_handle ≡ some gh
      → 0 < length gh.trajectory.points
      → All (IsSized 6) gh.trajectory.points
      → All (IsFull gh.trajectory.joint_names) gh.trajectory.points
      → IsReadable ros.robot
      → Returns (IsHanded gh ros) (take_goal gh ros)
  unfolding take_goal get_joint_names reject_goal accept_goal call set_robot
  take_goal-Returns gh ros six perm current l sized full c =
      let names = gh.trajectory.joint_names in
      Returns-bind (reorder_traj_joints-moves ros.robot.joint_names gh.trajectory perm full)
        λ traj (named, moved).
          let (sized', same) =
            reordered-IsSized 6 ros.robot.joint_names names gh.trajectory.points traj.points moved
              sized in
          let inside : 0 < length traj.points = omega (arith, same, l) in
          Returns-bind (start_positions_match-Returns traj (lit 1 2) ros.robot inside sized' c)
            λ (here, drv) e.
              Returns-if (not here) (λ _. returns (inl (_, refl, refl, refl, e)))
                λ _.
                  Returns-bind
                    (make_task-Returns traj.points drv inside sized' (subst IsReadable (sym e) c))
                    λ (task, drv') (h, same).
                      returns (inr (task, refl, refl, refl, current, same ∙ e, h))

  -- A goal that names the driver's six joints in any order, with as many accelerations at each point
  -- as it has joints or none, while the realtime state can be read: the goal is rejected by one call on
  -- its handle, and no thread is started, or it is accepted by one call, is the goal that is
  -- executed, and a thread is started for it. What the thread is given starts at the time 0, and it is
  -- a trajectory of at least two points with six positions and six velocities at each, as `doTraj`
  -- needs it, or a single point. The robot is left as it was.
  pub examine_goal-hands :
      (gh : GoalHandle D) (ros : RosWrapper D)
      → length gh.trajectory.joint_names ≡ 6
      → Perm gh.trajectory.joint_names ros.robot.joint_names
      → All (HasAccelerations gh.trajectory.joint_names) gh.trajectory.points
      → IsReadable ros.robot
      → Returns (IsHanded gh ros) (examine_goal gh ros)
  unfolding examine_goal get_joint_names reject_goal call
  examine_goal-hands gh ros six perm acc c =
      let names = gh.trajectory.joint_names in
      Returns-bind (goal_error-checks ros.robot.joint_names ros.max_velocity gh.trajectory perm)
        λ error found. elim (Option-cases error) [
          | inl e ↦
              let (l, sized, safe) = found e in
              let sized' : All (IsSized 6) gh.trajectory.points = rw six at sized in
              rw e (
                take_goal-Returns gh (record ros { goal_handle = some gh }) six perm refl l sized'
                  (points-IsFull names gh.trajectory.points sized acc) c)
          | inr (result, e) ↦ rw e (returns (inl (result, refl, refl, refl, refl)))
        ]
