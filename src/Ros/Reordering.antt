-- ===== src/Ros/Reordering.antt =====
-- `reorder_traj_joints`: every value stays with the name of its joint.
use ur_modern_driver.Common.{
  ℕ, zero, suc, ◌+◌, ◌<◌, ◌≡◌, ◌⊎◌, inl, inr, refl, sym, ap, ◌∙◌, List, [], ◌∷◌, some, ◌==◌,
  Returns, returns, Returns-bind, Returns-if, Returns-mono, length, get_elem?, All, arith,
}
use mathlib.Core.List.{Perm}
use ur_modern_driver.Ros.Defs.{Point, JointTrajectory}
use ur_modern_driver.Ros.Joints.{
  name_mapping, pick, reorder_accelerations, reorder_point, reorder_points, reorder_traj_joints,
}
use ur_modern_driver.Ros.Matching.{match_names-Perm}
use ur_modern_driver.Ros.Mapping.{get_elem?-inside, name_mapping-get, some-at}

module _ {D : Type 0} where
  -- The values at the goal's joints and those at the driver's: each stays with its joint's name.
  unfoldable pub IsMoved : List (List ℕ) → List (List ℕ) → List D → List D → Type 0
  IsMoved actual names old new =
      (length new ≡ length old)
      × ((j : ℕ) (a : List ℕ)
          → get_elem? actual j ≡ some a
          → (k : ℕ) × (get_elem? names k ≡ some a) × (get_elem? new j ≡ get_elem? old k))

  -- The values that are picked from the index `j` on.
  IsPicked : List ℕ → List D → ℕ → ℕ → List D → Type 0
  IsPicked mapping values j n xs =
      (length xs ≡ n)
      × ((m k : ℕ)
          → m < n
          → get_elem? mapping (j + m) ≡ some k
          → get_elem? xs m ≡ get_elem? values k)

  HasIndex : List ℕ → List D → ℕ → ℕ → Type 0
  HasIndex mapping values j m = (k : ℕ) × (get_elem? mapping (j + m) ≡ some k) × (k < length values)

  picked-cons :
      (mapping : List ℕ) (values : List D) (j n k : ℕ) (x : D) (xs : List D)
      → get_elem? mapping j ≡ some k
      → get_elem? values k ≡ some x
      → IsPicked mapping values (suc j) n xs
      → (m i : ℕ) → m < suc n
      → get_elem? mapping (j + m) ≡ some i
      → get_elem? (x ∷ xs) m ≡ get_elem? values i
  unfolding IsPicked
  picked-cons mapping values j n k x xs e1 e2 h zero i l e =
      let e' : get_elem? mapping j ≡ some i = ap (get_elem? mapping) (omega arith) ∙ e in
      let same : k ≡ i = cc in sym e2 ∙ ap (get_elem? values) same
  picked-cons mapping values j n k x xs e1 e2 h (suc m) i l e =
      h.1 m i (omega (arith, l)) (ap (get_elem? mapping) (omega arith) ∙ e)

  pick-Returns :
      (mapping : List ℕ) (values : List D) (j n : ℕ)
      → ((m : ℕ) → m < n → HasIndex mapping values j m)
      → Returns (IsPicked mapping values j n) (pick mapping values j n)
  unfolding pick IsPicked HasIndex
  pick-Returns mapping values j zero h = returns (refl, λ m k l e. absurd (omega (arith, l)))
  pick-Returns mapping values j (suc n) h =
      let (k, e, inside) = h 0 (omega arith) in
      let (x, there) = some-at values k inside in
      let here : get_elem? mapping j ≡ some k = ap (get_elem? mapping) (omega arith) ∙ e in
      let rest : (m : ℕ) → m < n → HasIndex mapping values (suc j) m = λ m l.
        let (k', e', inside') = h (suc m) (omega (arith, l)) in
        (k', ap (get_elem? mapping) (omega arith) ∙ e', inside') in
      rw (here, there)
        (Returns-bind (pick-Returns mapping values (suc j) n rest) λ xs h'.
          returns (omega (arith, h'.0), picked-cons mapping values j n k x xs here there h'))

  -- The values of a point whose joints are the driver's in some order.
  IsMoved-Returns :
      (actual names : List (List ℕ)) (values : List D)
      → Perm names actual
      → length values ≡ length names
      → length names ≡ length actual
      → Returns
          (IsMoved actual names values)
          (pick (name_mapping actual names) values 0 (length values))
  unfolding IsMoved IsPicked HasIndex
  IsMoved-Returns actual names values p l1 l2 =
      let mapping = name_mapping actual names in
      let inside : (m : ℕ) → m < length values → HasIndex mapping values 0 m = λ m l.
        let (a, there) = some-at actual m (omega (arith, l, l1, l2)) in
        let (k, e, named) = name_mapping-get actual names m a p there in
        (
          k,
          ap (get_elem? mapping) (omega arith) ∙ e,
          omega (arith, get_elem?-inside names k a named, l1),
        ) in
      Returns-mono (pick-Returns mapping values 0 (length values) inside) λ xs h. (
        h.0,
        λ j a e.
            let (k, e', named) = name_mapping-get actual names j a p e in
            (
              k,
              named,
              h.1 j k (omega (arith, get_elem?-inside actual j a e, l1, l2))
                  (ap (get_elem? mapping) (omega arith) ∙ e'),
            ),
      )

  -- As many positions and velocities as the goal has joints, and as many accelerations or none.
  pub record IsFull (names : List (List ℕ)) (p : Point D) : Type 0 where
    pub positions : length p.positions ≡ length names
    pub velocities : length p.velocities ≡ length names
    pub accelerations : (length p.accelerations ≡ 0) ⊎ (length p.accelerations ≡ length names)

  -- A point in the driver's order of the joints: each value has stayed with its joint. There are no
  -- accelerations if there were none.
  pub record IsReordered (actual names : List (List ℕ)) (p q : Point D) : Type 0 where
    pub positions : IsMoved actual names p.positions q.positions
    pub velocities : IsMoved actual names p.velocities q.velocities
    pub accelerations :
        ((length p.accelerations ≡ 0) × (q.accelerations ≡ []))
        ⊎ IsMoved actual names p.accelerations q.accelerations
    pub time : q.time_from_start ≡ p.time_from_start

  abbrev pub AreReordered : List (List ℕ) → List (List ℕ) → List (Point D) → List (Point D) → Type 0
  AreReordered actual names [] [] = Unit {0}
  AreReordered actual names (p ∷ ps) (q ∷ qs) =
      IsReordered actual names p q × AreReordered actual names ps qs
  AreReordered actual names [] (q ∷ qs) = ⊥
  AreReordered actual names (p ∷ ps) [] = ⊥

  reorder_point-Returns :
      (actual names : List (List ℕ)) (p : Point D)
      → Perm names actual
      → length names ≡ length actual
      → IsFull names p
      → Returns (IsReordered actual names p) (reorder_point (name_mapping actual names) p)
  unfolding reorder_point reorder_accelerations
  reorder_point-Returns actual names p perm l f =
      let velocities = IsMoved-Returns actual names p.velocities perm f.velocities l in
      let same : length p.velocities ≡ length p.positions =
        omega (arith, f.positions, f.velocities) in
      Returns-bind (IsMoved-Returns actual names p.positions perm f.positions l) λ xs hx.
        Returns-bind (rw same at velocities) λ vs hv.
          Returns-bind
            {P = λ as'.
              ((length p.accelerations ≡ 0) × (as' ≡ []))
              ⊎ IsMoved actual names p.accelerations as'}
            (Returns-if (length p.accelerations == 0) (λ e. returns (inl (ground (arith, e), refl)))
              (λ e. elim f.accelerations [
                | inl z ↦ absurd (ground (arith, z, e))
                | inr fits ↦
                    let accelerations = IsMoved-Returns actual names p.accelerations perm fits l in
                    let same' : length p.accelerations ≡ length p.positions =
                      omega (arith, fits, f.positions) in
                    Returns-mono (rw same' at accelerations) (λ xs h. inr h)
              ]))
            λ as' ha.
              returns record { positions = hx; velocities = hv; accelerations = ha; time = refl }

  reorder_points-Returns :
      (actual names : List (List ℕ)) (ps : List (Point D))
      → Perm names actual
      → length names ≡ length actual
      → All (IsFull names) ps
      → Returns (AreReordered actual names ps) (reorder_points (name_mapping actual names) ps)
  unfolding reorder_points
  reorder_points-Returns actual names [] perm l h = returns tt
  reorder_points-Returns actual names (p ∷ ps) perm l h =
      Returns-bind (reorder_point-Returns actual names p perm l h.0) λ q hq.
        Returns-bind (reorder_points-Returns actual names ps perm l h.1) λ qs hqs. returns (hq, hqs)

  -- A goal that names the driver's joints in any order, with a value for each at every point: its
  -- points are put in the driver's order, and in each the position, the velocity and the acceleration
  -- at a joint's place are those that the goal gives under the joint's name. A point has no
  -- accelerations exactly if the goal gives none for it.
  pub reorder_traj_joints-moves :
      (actual : List (List ℕ)) (traj : JointTrajectory D)
      → Perm traj.joint_names actual
      → All (IsFull traj.joint_names) traj.points
      → Returns
          (λ t.
            (t.joint_names ≡ actual) × AreReordered actual traj.joint_names traj.points t.points)
          (reorder_traj_joints actual traj)
  unfolding reorder_traj_joints
  reorder_traj_joints-moves actual traj perm h =
      let same = (match_names-Perm traj.joint_names actual perm).1 in
      Returns-bind (reorder_points-Returns actual traj.joint_names traj.points perm same h)
        λ ps hp. returns (refl, hp)
