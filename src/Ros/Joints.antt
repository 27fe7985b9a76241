-- ===== src/Ros/Joints.antt =====
-- `validateJointNames` and `reorder_traj_joints` of src/ur_ros_wrapper.cpp.
use ur_modern_driver.Common.{
  ℕ, zero, suc, Bool, true, false, List, [], ◌∷◌, ◌++◌, Outcome, ok, ◌>>=◌, ◌==◌, if◌then◌else◌,
  length, take, drop, replicate,
}
use ur_modern_driver.Driver.Trajectory.{at}
use ur_modern_driver.Ros.Defs.{Point, JointTrajectory, equal_text}

-- Where the loop over `j` breaks: at the first equal name, or behind the last one.
unfoldable pub find_name : List ℕ → List (List ℕ) → ℕ
find_name name [] = 0
find_name name (actual ∷ rest) = if equal_text name actual then 0 else suc (find_name name rest)

-- The loop over the names of the goal. A name that is not found is compared with the element
-- behind the last one.
unfoldable pub match_names : List (List ℕ) → List (List ℕ) → Outcome Bool
match_names [] actual = ok true
match_names (name ∷ names) actual =
    let j = find_name name actual in
    at actual j >>= λ found.
    if equal_text name found
    then match_names names (take j actual ++ drop (suc j) actual)
    else ok false

unfoldable pub validate_joint_names : List (List ℕ) → List (List ℕ) → Outcome Bool
validate_joint_names actual names =
    if length names == length actual then match_names names actual else ok false

-- `mapping[j] = i` where the names are equal.
unfoldable pub map_name : ℕ → List ℕ → List (List ℕ) → List ℕ → List ℕ
map_name i name (actual ∷ rest) (k ∷ mapping) =
    (if equal_text name actual then i else k) ∷ map_name i name rest mapping
map_name i name [] mapping = mapping
map_name i name (actual ∷ rest) [] = []

unfoldable pub map_names : ℕ → List (List ℕ) → List (List ℕ) → List ℕ → List ℕ
map_names i [] actual mapping = mapping
map_names i (name ∷ names) actual mapping =
    map_names (suc i) names actual (map_name i name actual mapping)

unfoldable pub name_mapping : List (List ℕ) → List (List ℕ) → List ℕ
name_mapping actual names = map_names 0 names actual (replicate (length actual) (length actual))

module _ {D : Type 0} where
  -- `n` values from the index `j` on, each from where its joint stands in the goal.
  unfoldable pub pick : List ℕ → List D → ℕ → ℕ → Outcome (List D)
  pick mapping values j zero = ok []
  pick mapping values j (suc n) = do
    i ← at mapping j
    x ← at values i
    rest ← pick mapping values (suc j) n
    ok (x ∷ rest)

  unfoldable pub reorder_accelerations : List ℕ → Point D → Outcome (List D)
  reorder_accelerations mapping p =
      if length p.accelerations == 0
      then ok []
      else pick mapping p.accelerations 0 (length p.positions)

  unfoldable pub reorder_point : List ℕ → Point D → Outcome (Point D)
  reorder_point mapping p = do
    positions ← pick mapping p.positions 0 (length p.positions)
    velocities ← pick mapping p.velocities 0 (length p.positions)
    accelerations ← reorder_accelerations mapping p
    ok (record {
      positions = positions;
      velocities = velocities;
      accelerations = accelerations;
      time_from_start = p.time_from_start;
    })

  unfoldable pub reorder_points : List ℕ → List (Point D) → Outcome (List (Point D))
  reorder_points mapping [] = ok []
  reorder_points mapping (p ∷ ps) = do
    q ← reorder_point mapping p
    qs ← reorder_points mapping ps
    ok (q ∷ qs)

  unfoldable pub reorder_traj_joints :
      List (List ℕ) → JointTrajectory D → Outcome (JointTrajectory D)
  reorder_traj_joints actual traj = do
    points ← reorder_points (name_mapping actual traj.joint_names) traj.points
    ok (record { joint_names = actual; points = points })
