-- ===== src/Ros/OpenGoals.antt =====
-- The goals that the calls on their handles leave open.
use ur_modern_driver.Common.{
  ℕ, ◌≡◌, refl, ap, ◌∙◌, Bool, true, false, not, List, [], ◌∷◌, Option, none, some, ◌==◌, ==_iff,
  if◌then◌else◌, Bool-cases, inl, inr, arith,
}
use ur_modern_driver.Ros.Defs.{GoalHandle, Result, Call, accept, reject, abort, cancel, RosWrapper}
use ur_modern_driver.Ros.Actions.{
  call, add_call, call_current, reject_goal, abort_goal, is_current, finish_task,
}

-- All of a list but what equals a number.
unfoldable pub without : ℕ → List ℕ → List ℕ
without id [] = []
without id (x ∷ xs) = if id == x then without id xs else x ∷ without id xs

-- What a call does to the goals that were accepted and have not come to an end.
unfoldable pub after : ℕ → Call → List ℕ → List ℕ
after id accept goals = id ∷ goals
after id (reject _) goals = goals
after id _ goals = without id goals

-- The goals that the calls leave open; the last call comes first.
unfoldable pub open_goals : List (ℕ × Call) → List ℕ
unfolding after
open_goals [] = []
open_goals (c ∷ cs) = after c.0 c.1 (open_goals cs)

without_self : (id : ℕ) → without id (id ∷ []) ≡ []
unfolding without
without_self id = ground arith

without-other : (id now : ℕ) → (id == now) ≡ false → without id (now ∷ []) ≡ now ∷ []
unfolding without
without-other id now e = rw e refl

module _ {D : Type 0} where
  -- The goal that the node says it executes.
  unfoldable pub executed : Bool → Option (GoalHandle D) → List ℕ
  executed false h = []
  executed true none = []
  executed true (some gh) = gh.id ∷ []

  -- What the node says is what the calls on the handles say.
  abbrev pub IsHonest : RosWrapper D → Type 0
  IsHonest ros = open_goals ros.calls ≡ executed ros.has_goal ros.goal_handle

  if-IsHonest :
      (b : Bool) (x y : RosWrapper D)
      → (b ≡ true → IsHonest x)
      → (b ≡ false → IsHonest y)
      → IsHonest (if b then x else y)
  if-IsHonest true x y hx hy = hx refl
  if-IsHonest false x y hx hy = hy refl

  -- A call on the current handle that ends a goal leaves none open.
  add_call-closes :
      (h : Option (GoalHandle D)) (c : Call) (calls : List (ℕ × Call))
      → ((id : ℕ) (goals : List ℕ) → after id c goals ≡ without id goals)
      → open_goals calls ≡ executed true h
      → open_goals (add_call h c calls) ≡ []
  unfolding add_call executed open_goals
  add_call-closes none c calls ends i = i
  add_call-closes (some gh) c calls ends i =
      ends gh.id (open_goals calls) ∙ ap (without gh.id) i ∙ without_self gh.id

  -- A cancelled goal is the current one, or it was not open.
  pub cancel-closes :
      (gh : GoalHandle D) (h : Option (GoalHandle D)) (result : Result) (calls : List (ℕ × Call))
      → open_goals calls ≡ executed true h
      → open_goals ((gh.id, cancel result) ∷ calls) ≡ executed (not (is_current gh h)) h
  unfolding is_current executed open_goals after without
  cancel-closes gh none result calls i = ap (without gh.id) i
  cancel-closes gh (some now) result calls i = elim (Bool-cases (gh.id == now.id)) [
    | inl e ↦
        let same : gh.id ≡ now.id = (==_iff gh.id now.id).0 e in
        rw e (ap (without gh.id) i ∙ rw same (without_self now.id))
    | inr e ↦ rw e (ap (without gh.id) i ∙ without-other gh.id now.id e)
  ]

  pub reject_goal-IsHonest :
      (gh : GoalHandle D) (result : Result) (ros : RosWrapper D)
      → IsHonest ros
      → IsHonest (reject_goal gh result ros)
  unfolding reject_goal call open_goals after
  reject_goal-IsHonest gh result ros i = i

  pub abort_goal-IsHonest :
      (result : Result) (ros : RosWrapper D)
      → ros.has_goal ≡ true
      → IsHonest ros
      → (abort_goal result ros).has_goal ≡ false × IsHonest (abort_goal result ros)
  unfolding abort_goal call_current after executed
  abort_goal-IsHonest result ros h i = (
    refl,
    add_call-closes ros.goal_handle (abort result) ros.calls (λ id goals. refl) (rw h at i),
  )

  pub finish_task-IsHonest : (ros : RosWrapper D) → IsHonest ros → IsHonest (finish_task ros)
  unfolding finish_task call_current after executed
  finish_task-IsHonest ros i =
      if-IsHonest ros.has_goal _ ros
        (λ e. add_call-closes ros.goal_handle _ ros.calls (λ id goals. refl) (rw e at i)) (λ e. i)
