-- ===== src/Driver/Trajectory.antt =====
-- `interp_cubic` and `doTraj` of src/ur_driver.cpp. The clock is a list: what each look at it gives.
use ur_modern_driver.Common.{
  ℕ, zero, suc, ◌+◌, ◌-◌, ◌^◌, Bool, true, false, ◌&&◌, List, [], ◌∷◌, Outcome, ok, stuck, ◌>>=◌,
  ltb, ◌==◌, if◌then◌else◌, length, get_elem?, or_fault,
}
use ur_modern_driver.Double.{Platform}
use ur_modern_driver.Driver.Defs.{UrDriver, stop_traj}
use ur_modern_driver.Driver.Servo.{servoj, close_servo}

-- `v[i]`, which must be in range.
abbrev pub at {ℓ} : {A : Type ℓ} → List A → ℕ → Outcome A
at xs i = or_fault (get_elem? xs i)

module _ {D : Type 0} ⦃d : Platform D⦄ where
  open d use {lit, neg, add, sub, mul, div, pow}

  -- One joint.
  unfoldable pub interp_joint : D → D → D → D → D → D → D
  interp_joint t T pos0 pos1 vel0 vel1 =
      let a = pos0 in
      let b = vel0 in
      let c =
        div
          (sub
            (sub (add (mul (neg (lit 3 0)) pos0) (mul (lit 3 0) pos1)) (mul (mul (lit 2 0) T) vel0))
            (mul T vel1))
          (pow T 2) in
      let e =
        div (add (add (sub (mul (lit 2 0) pos0) (mul (lit 2 0) pos1)) (mul T vel0)) (mul T vel1))
          (pow T 3) in
      add (add (add a (mul b t)) (mul c (pow t 2))) (mul e (pow t 3))

  -- The loop over `i`, with the rounds left.
  unfoldable pub interp_from : ℕ → ℕ → D → D → List D → List D → List D → List D → Outcome (List D)
  interp_from zero i t T p0_pos p1_pos p0_vel p1_vel = ok []
  interp_from (suc n) i t T p0_pos p1_pos p0_vel p1_vel = do
    pos0 ← at p0_pos i
    vel0 ← at p0_vel i
    pos1 ← at p1_pos i
    vel1 ← at p1_vel i
    rest ← interp_from n (i + 1) t T p0_pos p1_pos p0_vel p1_vel
    ok (interp_joint t T pos0 pos1 vel0 vel1 ∷ rest)

  unfoldable pub interp_cubic : D → D → List D → List D → List D → List D → Outcome (List D)
  interp_cubic t T p0_pos p1_pos p0_vel p1_vel =
      interp_from (length p0_pos) 0 t T p0_pos p1_pos p0_vel p1_vel

-- A look at the clock: the time since the start, and whether another thread has called `stopTraj`
-- since the look before.
pub record Look (D : Type 0) : Type 0 where
  pub elapsed : D
  pub stopped : Bool

module _ {D : Type 0} ⦃d : Platform D⦄ where
  open d use {lit, le, sub}

  -- The inner loop: `j` goes on to the first later timestamp, or to the last. At most `n` rounds.
  unfoldable pub advance : ℕ → List D → D → ℕ → Outcome ℕ
  advance zero timestamps t j = stuck
  advance (suc n) timestamps t j =
      let rest = advance n timestamps t (j + 1) in
      at timestamps j >>= λ tj. if le tj t && ltb j (length timestamps - 1) then rest else ok j

  -- The body of the outer loop: the new `j`, and the command to the robot. `j - 1` of 0 is the
  -- largest unsigned number.
  unfoldable pub trajectory_round :
      List D
      → List (List D)
      → List (List D)
      → D
      → ℕ
      → UrDriver D
      → Outcome (ℕ × List D × UrDriver D)
  trajectory_round timestamps positions velocities t j drv = do
    j ← advance (length timestamps + 1) timestamps t j
    let before = if j == 0 then 2 ^ 32 - 1 else j - 1
    t0 ← at timestamps before
    t1 ← at timestamps j
    p0 ← at positions before
    p1 ← at positions j
    v0 ← at velocities before
    v1 ← at velocities j
    q ← interp_cubic (sub t t0) (sub t1 t0) p0 p1 v0 v1
    drv ← servoj q 1 drv
    ok (j, q, drv)

  -- The outer loop: what is left of the clock, and the last positions.
  unfoldable pub trajectory_loop :
      List (Look D)
      → List D
      → List (List D)
      → List (List D)
      → ℕ
      → List D
      → UrDriver D
      → Outcome (List D × UrDriver D)
  trajectory_loop [] timestamps positions velocities j q drv = stuck
  trajectory_loop (look ∷ looks) timestamps positions velocities j q drv = do
    drv ← if look.stopped then stop_traj drv else ok drv
    last ← at timestamps (length timestamps - 1)
    elim (le look.elapsed last && drv.executing_traj) [
      | true ↦ trajectory_round timestamps positions velocities look.elapsed j drv >>= λ r.
          trajectory_loop looks timestamps positions velocities r.0 r.1 r.2
      | false ↦ ok (q, drv)
    ]

  -- `doTraj` after the program was uploaded.
  unfoldable pub follow_traj :
      List (Look D) → List D → List (List D) → List (List D) → UrDriver D → Outcome (UrDriver D)
  follow_traj looks timestamps positions velocities drv = do
    (q, drv) ←
        trajectory_loop looks timestamps positions velocities 0 []
          (record drv { executing_traj = true })
    close_servo q (record drv { executing_traj = false })
