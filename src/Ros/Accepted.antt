-- ===== src/Ros/Accepted.antt =====
-- What the checks of `goalCB` make sure of: a goal that is accepted is one that `doTraj` can follow.
use ur_modern_driver.Common.{
  ℕ, ◌<◌, ◌≡◌, inl, inr, refl, sym, ◌∙◌, Bool, true, false, not, List, [], ◌∷◌, none, some, ◌==◌,
  ==_iff, Bool-cases, Returns, returns, Returns-bind, Returns-if, Returns-mono, length, All, arith,
}
use mathlib.Core.List.{Perm}
use ur_modern_driver.Double.{Platform}
use ur_modern_driver.Ros.Defs.{Point, JointTrajectory}
use ur_modern_driver.Ros.Checks.{
  sizes_match, has_positions, has_velocities, point_is_finite, traj_is_finite, velocities_limited,
  has_limited_velocities, goal_error,
}
use ur_modern_driver.Ros.Matching.{validate_joint_names-Perm}

fails {ℓ} : {A : Type ℓ} → false ≡ true → A
fails e = absurd cc

holds : (b : Bool) → not b ≡ false → b ≡ true
holds true e = refl
holds false e = fails (sym e)

refused {ℓ κ} : {A : Type ℓ} {a : A} {P : Type κ} → some a ≡ none → P
refused e = absurd cc

module _ {D : Type 0} where
  -- As many positions and velocities as there are joints.
  pub record IsSized (n : ℕ) (p : Point D) : Type 0 where
    pub positions : length p.positions ≡ n
    pub velocities : length p.velocities ≡ n

  sizes-IsSized :
      (n : ℕ) (ps : List (Point D))
      → sizes_match n ps ≡ true
      → has_velocities ps ≡ true
      → All (IsSized n) ps
  unfolding sizes_match has_velocities
  sizes-IsSized n [] e1 e2 = tt
  sizes-IsSized n (p ∷ ps) e1 e2 = elim (Bool-cases (length p.positions == n)) [
    | inl h1 ↦ elim (Bool-cases (length p.positions == length p.velocities)) [
      | inl h2 ↦
          let here : length p.positions ≡ n = (==_iff (length p.positions) n).0 h1 in
          let same = (==_iff (length p.positions) (length p.velocities)).0 h2 in
          (
            record { positions = here; velocities = sym same ∙ here },
            sizes-IsSized n ps (rw h1 at e1) (rw h2 at e2),
          )
      | inr h2 ↦ fails (rw h2 at e2)
    ]
    | inr h1 ↦ fails (rw h1 at e1)
  ]

  has_positions-sizes :
      (traj : JointTrajectory D)
      → has_positions traj ≡ true
      → (0 < length traj.points) × (sizes_match (length traj.joint_names) traj.points ≡ true)
  unfolding has_positions
  has_positions-sizes traj e = elim (Bool-cases (length traj.points == 0)) [
    | inl h ↦ fails (rw h at e)
    | inr h ↦ (ground (arith, h), rw h at e)
  ]

module _ {D : Type 0} ⦃d : Platform D⦄ where
  open d use {lt, fabs, is_finite}

  -- Every value is finite, and every velocity within the limit.
  pub record IsSafePoint (max_velocity : D) (p : Point D) : Type 0 where
    pub positions : All (λ x. is_finite x ≡ true) p.positions
    pub velocities : All (λ v. is_finite v ≡ true) p.velocities
    pub limited : All (λ v. lt max_velocity (fabs v) ≡ false) p.velocities

  AreFinite : Bool → List D → List D → Type 0
  AreFinite b xs vs = b ≡ true → All (λ x. is_finite x ≡ true) xs × All (λ v. is_finite v ≡ true) vs

  point_is_finite-Returns :
      (xs vs : List D)
      → length xs ≡ length vs
      → Returns (λ b. AreFinite b xs vs) (point_is_finite xs vs)
  unfolding point_is_finite AreFinite
  point_is_finite-Returns [] [] l = returns (λ e. (tt, tt))
  point_is_finite-Returns [] (v ∷ vs) l = absurd (omega (arith, l))
  point_is_finite-Returns (x ∷ xs) [] l = absurd (omega (arith, l))
  point_is_finite-Returns (x ∷ xs) (v ∷ vs) l = elim (Bool-cases (is_finite x)) [
    | inl h1 ↦ elim (Bool-cases (is_finite v)) [
      | inl h2 ↦
          rw (h1, h2)
            (Returns-mono (point_is_finite-Returns xs vs (omega (arith, l)))
              λ b h e. let (hx, hv) = h e in ((refl, hx), (refl, hv)))
      | inr h2 ↦ rw (h1, h2) (returns fails)
    ]
    | inr h1 ↦ rw h1 (returns fails)
  ]

  traj_is_finite-Returns :
      (n : ℕ) (ps : List (Point D))
      → All (IsSized n) ps
      → Returns
          (λ b. b ≡ true → All (λ p. AreFinite true p.positions p.velocities) ps)
          (traj_is_finite ps)
  unfolding traj_is_finite AreFinite
  traj_is_finite-Returns n [] h = returns (λ e. tt)
  traj_is_finite-Returns n (p ∷ ps) h =
      Returns-bind
        (point_is_finite-Returns p.positions p.velocities
          (omega (arith, h.0.positions, h.0.velocities)))
        λ b hb.
          Returns-if b
            (λ e. Returns-mono (traj_is_finite-Returns n ps h.1) λ b' h' e'. ((λ r. hb e), h' e'))
            (λ e. returns fails)

  velocities_limited-All :
      (limit : D) (vs : List D)
      → velocities_limited limit vs ≡ true
      → All (λ v. lt limit (fabs v) ≡ false) vs
  unfolding velocities_limited
  velocities_limited-All limit [] e = tt
  velocities_limited-All limit (v ∷ vs) e = elim (Bool-cases (lt limit (fabs v))) [
    | inl h ↦ fails (rw h at e)
    | inr h ↦ (h, velocities_limited-All limit vs (rw h at e))
  ]

  points-IsSafePoint :
      (limit : D) (ps : List (Point D))
      → All (λ p. AreFinite true p.positions p.velocities) ps
      → has_limited_velocities limit ps ≡ true
      → All (IsSafePoint limit) ps
  unfolding has_limited_velocities AreFinite
  points-IsSafePoint limit [] h e = tt
  points-IsSafePoint limit (p ∷ ps) h e =
      elim (Bool-cases (velocities_limited limit p.velocities)) [
        | inl l ↦
            let (xs, vs) = h.0 refl in
            (
              record {
                positions = xs;
                velocities = vs;
                limited = velocities_limited-All limit p.velocities l;
              },
              points-IsSafePoint limit ps h.1 (rw l at e),
            )
        | inr l ↦ fails (rw l at e)
      ]

  -- A goal with the driver's joints, in any order: the checks come to an end, and if they find no
  -- error then the goal has points, and each has a finite position and a finite velocity within the
  -- limit for every joint.
  pub goal_error-checks :
      (actual : List (List ℕ)) (limit : D) (traj : JointTrajectory D)
      → Perm traj.joint_names actual
      → Returns
          (λ error.
            error ≡ none
            → (0 < length traj.points)
              × All (IsSized (length traj.joint_names)) traj.points
              × All (IsSafePoint limit) traj.points)
          (goal_error actual limit traj)
  unfolding goal_error
  goal_error-checks actual limit traj p =
      rw ((validate_joint_names-Perm actual traj.joint_names).1 p) (
        Returns-if (not (has_positions traj)) (λ e. returns refused)
          λ e1.
            Returns-if (not (has_velocities traj.points)) (λ e. returns refused)
              λ e2.
                let (some_points, sizes) = has_positions-sizes traj (holds _ e1) in
                let sized =
                  sizes-IsSized (length traj.joint_names) traj.points sizes (holds _ e2) in
                Returns-bind (traj_is_finite-Returns (length traj.joint_names) traj.points sized)
                  λ finite hf.
                    Returns-if (not finite) (λ e. returns refused)
                      λ e3.
                        Returns-if (not (has_limited_velocities limit traj.points))
                          (λ e. returns refused)
                          λ e4. returns λ e. (
                            some_points,
                            sized,
                            points-IsSafePoint limit traj.points (hf (holds _ e3)) (holds _ e4),
                          ))
