-- ===== src/Driver/Steps.antt =====
-- The steps of `doTraj`: each comes to its end on vectors of six values.
use ur_modern_driver.Common.{
  ℕ, zero, suc, ◌+◌, ◌-◌, ◌≤◌, ◌<◌, ◌≡◌, ◌⊎◌, inl, inr, refl, Bool, true, false, ◌&&◌, text, List,
  [], ◌∷◌, some, ok, Returns, returns, Returns-bind, Returns-if, ltb, lt→ltb, ◌==◌, if◌then◌else◌,
  arith, length, get_elem?, All,
}
use ur_modern_driver.Double.{Platform}
use ur_modern_driver.RobotStateRt.Getters.{get_q_actual, locked-eq-ok}
use ur_modern_driver.Realtime.Commands.{add_command_to_queue-deliver, deliver}
use ur_modern_driver.Driver.Defs.{UrDriver, send, stop_traj}
use ur_modern_driver.Driver.Servo.{joint_bytes, servoj, close_servo}
use ur_modern_driver.Driver.Trajectory.{at, interp_from, interp_cubic, advance}

pub at-Returns {ℓ κ} :
    {A : Type ℓ} (P : A → Type κ) (xs : List A) (i : ℕ)
    → All P xs
    → i < length xs
    → Returns P (at xs i)
at-Returns P [] i h l = absurd (omega arith)
at-Returns P (x ∷ xs) zero h l = returns h.0
at-Returns P (x ∷ xs) (suc i) h l = at-Returns P xs i h.1 (omega arith)

All-Unit {ℓ} : {A : Type ℓ} (xs : List A) → All (λ _. Unit {0}) xs
All-Unit [] = tt
All-Unit (x ∷ xs) = (tt, All-Unit xs)

pub at-some {ℓ} :
    {A : Type ℓ} (xs : List A) (i : ℕ) → i < length xs → Returns (λ _. Unit {0}) (at xs i)
at-some xs i l = at-Returns (λ _. Unit {0}) xs i (All-Unit xs) l

module _ {D : Type 0} where
  -- One value for each of the six joints.
  abbrev pub IsSix : List D → Type 0
  IsSix xs = length xs ≡ 6

module _ {D : Type 0} ⦃d : Platform D⦄ where
  open d use {le}

  interp_from-Returns :
      (n i : ℕ) (t T : D) (p0 p1 v0 v1 : List D)
      → i + n ≡ 6
      → IsSix p0
      → IsSix p1
      → IsSix v0
      → IsSix v1
      → Returns (λ q. length q ≡ n) (interp_from n i t T p0 p1 v0 v1)
  unfolding interp_from
  interp_from-Returns zero i t T p0 p1 v0 v1 e h1 h2 h3 h4 = returns refl
  interp_from-Returns (suc n) i t T p0 p1 v0 v1 e h1 h2 h3 h4 =
      Returns-bind (at-some p0 i (omega arith)) λ pos0 _.
        Returns-bind (at-some v0 i (omega arith)) λ vel0 _.
          Returns-bind (at-some p1 i (omega arith)) λ pos1 _.
            Returns-bind (at-some v1 i (omega arith)) λ vel1 _.
              Returns-bind (interp_from-Returns n (i + 1) t T p0 p1 v0 v1 (omega arith) h1 h2 h3 h4)
                λ rest h. returns (omega (arith, h))

  pub interp_cubic-Returns :
      (t T : D) (p0 p1 v0 v1 : List D)
      → IsSix p0
      → IsSix p1
      → IsSix v0
      → IsSix v1
      → Returns IsSix (interp_cubic t T p0 p1 v0 v1)
  unfolding interp_cubic
  interp_cubic-Returns t T p0 p1 v0 v1 h1 h2 h3 h4 =
      rw h1 (interp_from-Returns 6 0 t T p0 p1 v0 v1 (omega arith) h1 h2 h3 h4)

  joint_bytes-Returns :
      (n i : ℕ) (q : List D) → i + n ≤ length q → Returns (λ _. Unit {0}) (joint_bytes n i q)
  unfolding joint_bytes
  joint_bytes-Returns zero i q h = returns tt
  joint_bytes-Returns (suc n) i q h =
      Returns-bind (at-some q i (omega arith))
        λ x _. Returns-bind (joint_bytes-Returns n (i + 1) q (omega arith)) λ rest _. returns tt

  -- The realtime state is not locked and has six joints.
  pub record IsCalm (drv : UrDriver D) : Type 0 where
    pub free : drv.rt_interface.robot_state.val_lock ≡ false
    pub joints : IsSix drv.rt_interface.robot_state.q_actual

  pub servoj-IsCalm :
      (q : List D) (keepalive : ℕ) (drv : UrDriver D)
      → IsSix q
      → IsCalm drv
      → Returns
          (λ drv'. IsCalm drv' × (drv'.executing_traj ≡ drv.executing_traj))
          (servoj q keepalive drv)
  unfolding servoj
  servoj-IsCalm q keepalive drv h c =
      Returns-if drv.reverse_connected
        (λ e.
          Returns-bind (joint_bytes-Returns 6 0 q (omega (arith, h)))
            λ buf _. returns (record { free = c.free; joints = c.joints }, refl))
        (λ e. returns (c, refl))

  -- After a round of the inner loop there is a point before `j`, and one at it.
  pub advance-Returns :
      (n : ℕ) (timestamps : List D) (t : D) (j : ℕ)
      → length timestamps ≤ n + j
      → j < length timestamps
      → 2 ≤ length timestamps
      → (1 ≤ j) ⊎ ((t0 : D) × (get_elem? timestamps 0 ≡ some t0) × (le t0 t ≡ true))
      → Returns (λ j'. (1 ≤ j') × (j' < length timestamps)) (advance n timestamps t j)
  unfolding advance
  advance-Returns zero timestamps t j enough inside two h = absurd (omega arith)
  advance-Returns (suc n) timestamps t zero enough inside two (inl p) = absurd (omega arith)
  advance-Returns (suc n) timestamps t zero enough inside two (inr (t0, e, l)) =
      rw (e, l, lt→ltb 0 (length timestamps - 1) (omega arith))
        (advance-Returns n timestamps t 1 (omega arith) (omega arith) two (inl (omega arith)))
  advance-Returns (suc n) timestamps t (suc j) enough inside two h =
      Returns-bind (at-some timestamps (suc j) inside) λ tj _.
        Returns-if (le tj t && ltb (suc j) (length timestamps - 1))
          (λ c.
            let next : suc j + 1 < length timestamps = ground arith in
            advance-Returns n timestamps t (suc j + 1) (omega arith) next two (inl (omega arith)))
          (λ c. returns (omega arith, inside))

  get_q_actual-eq-ok :
      (drv : UrDriver D)
      → IsCalm drv
      → get_q_actual drv.rt_interface.robot_state
        ≡ ok (drv.rt_interface.robot_state.q_actual, drv.rt_interface.robot_state)
  unfolding get_q_actual
  get_q_actual-eq-ok drv c = locked-eq-ok (λ r. r.q_actual) drv.rt_interface.robot_state c.free

  pub close_servo-Returns :
      (q : List D) (drv : UrDriver D)
      → IsCalm drv
      → Returns
          (λ drv'.
            (drv'.reverse_connected ≡ false)
            × (drv'.executing_traj ≡ drv.executing_traj)
            × IsCalm drv')
          (close_servo q drv)
  unfolding close_servo
  close_servo-Returns q drv c =
      let Ended = λ (drv' : UrDriver D). IsCalm drv' × (drv'.executing_traj ≡ drv.executing_traj) in
      Returns-bind {P = Ended}
        (Returns-if (length q == 6)
          (λ e. let six : length q ≡ 6 = ground arith in servoj-IsCalm q 0 drv six c)
          (λ e. rw (get_q_actual-eq-ok drv c) (servoj-IsCalm _ 0 drv c.joints c)))
        (λ drv' c'. returns (refl, c'.1, record { free = c'.0.free; joints = c'.0.joints }))

  -- The look at whether another thread has stopped the trajectory.
  pub stopping-Returns :
      (stopped : Bool) (drv : UrDriver D)
      → IsCalm drv
      → Returns
          (λ drv'. IsCalm drv' × (stopped ≡ true → drv'.executing_traj ≡ false))
          (if stopped then stop_traj drv else ok drv)
  unfolding stop_traj send deliver
  stopping-Returns false drv c = returns (c, λ e. cc)
  stopping-Returns true drv c =
      let (line, e, whole, _) =
        add_command_to_queue-deliver (text "stopj(10)\n") drv.rt_interface (omega arith) in
      rw e (returns (ground arith, λ e'. refl))
