-- ===== src/Driver/Following.antt =====
-- `doTraj` on a trajectory with at least two points: it comes to its end, and no index is out of
-- range.
use ur_modern_driver.Common.{
  ℕ, ◌+◌, ◌-◌, ◌^◌, ◌≤◌, ◌<◌, ◌≡◌, inr, refl, Bool, true, false, not, ◌||◌, ◌&&◌, List, [], ◌∷◌,
  some, ok, Returns, returns, Returns-bind, Returns-elim, Returns-value, ◌==◌, if◌then◌else◌, arith,
  length, get_elem?, All,
}
use ur_modern_driver.Double.{Platform}
use ur_modern_driver.Driver.Defs.{UrDriver}
use ur_modern_driver.Driver.Trajectory.{Look, trajectory_round, trajectory_loop, follow_traj}
use ur_modern_driver.Driver.Steps.{
  at-Returns, at-some, IsSix, interp_cubic-Returns, IsCalm, servoj-IsCalm, advance-Returns,
  close_servo-Returns, stopping-Returns,
}

still_over :
    (early stopped later executing : Bool)
    → (not early || stopped || later) ≡ true
    → (early && executing) ≡ true
    → (stopped ≡ true → executing ≡ false)
    → later ≡ true
still_over false stopped later executing h e k = absurd cc
still_over true true later true h e k = let stopping : true ≡ false = k refl in absurd cc
still_over true true later false h e k = absurd cc
still_over true false later executing h e k = h

-- Whether the trajectory is over at one of the looks: its time is past, or it was stopped.
module _ {D : Type 0} ⦃d : Platform D⦄ where
  open d use {le}

  unfoldable pub over : List (Look D) → D → Bool
  over [] last = false
  over (look ∷ looks) last = not (le look.elapsed last) || look.stopped || over looks last

-- A trajectory: at least two points, and six positions and velocities at each.
pub record IsTrajectory {D : Type 0} (timestamps : List D) (positions velocities : List (List D))
    : Type 0 where
  pub points : 2 ≤ length timestamps
  pub enough_positions : length positions ≡ length timestamps
  pub enough_velocities : length velocities ≡ length timestamps
  pub six_positions : All IsSix positions
  pub six_velocities : All IsSix velocities

module _ {D : Type 0} ⦃d : Platform D⦄ (timestamps : List D) (positions velocities : List (List D))
    (t0 : D) (first : get_elem? timestamps 0 ≡ some t0)
    (traj : IsTrajectory timestamps positions velocities) where
  open d use {le}

  -- What a round leaves: `j` in range, six positions to send, and a driver that goes on.
  IsGoing : ℕ × List D × UrDriver D → Type 0
  IsGoing r = (r.0 < length timestamps) × IsSix r.1 × IsCalm r.2

  trajectory_round-Returns :
      (t : D) (j : ℕ) (drv : UrDriver D)
      → le t0 t ≡ true
      → length timestamps < 2 ^ 32
      → j < length timestamps
      → IsCalm drv
      → Returns IsGoing (trajectory_round timestamps positions velocities t j drv)
  unfolding trajectory_round IsGoing
  trajectory_round-Returns t j drv started small inside c =
      Returns-bind
        (advance-Returns (length timestamps + 1) timestamps t j (omega arith) inside traj.points
          (inr (t0, first, started)))
        λ j' (one, inside').
          let before : (if j' == 0 then 2 ^ 32 - 1 else j' - 1) ≡ j' - 1 = ground arith in
          rw before (
            Returns-bind (at-some timestamps (j' - 1) (omega arith)) λ x0 _.
              Returns-bind (at-some timestamps j' inside') λ x1 _.
                Returns-bind
                  (at-Returns IsSix positions (j' - 1) traj.six_positions
                    (omega (arith, traj.enough_positions)))
                  λ p0 h1.
                    Returns-bind
                      (at-Returns IsSix positions j' traj.six_positions
                        (omega (arith, traj.enough_positions)))
                      λ p1 h2.
                        Returns-bind
                          (at-Returns IsSix velocities (j' - 1) traj.six_velocities
                            (omega (arith, traj.enough_velocities)))
                          λ v0 h3.
                            Returns-bind
                              (at-Returns IsSix velocities j' traj.six_velocities
                                (omega (arith, traj.enough_velocities)))
                              λ v1 h4.
                                Returns-bind (interp_cubic-Returns _ _ p0 p1 v0 v1 h1 h2 h3 h4)
                                  λ q hq.
                                    Returns-bind (servoj-IsCalm q 1 drv hq c)
                                      λ drv' c'. returns (inside', hq, c'.0))

  module _ (last : D) (final : get_elem? timestamps (length timestamps - 1) ≡ some last) where
    trajectory_loop-Returns :
        (looks : List (Look D)) (j : ℕ) (q : List D) (drv : UrDriver D)
        → over looks last ≡ true
        → All (λ l. le t0 l.elapsed ≡ true) looks
        → length timestamps < 2 ^ 32
        → j < length timestamps
        → IsCalm drv
        → Returns (λ r. IsCalm r.1) (trajectory_loop looks timestamps positions velocities j q drv)
    unfolding trajectory_loop over IsGoing
    trajectory_loop-Returns [] j q drv o h small inside c = absurd cc
    trajectory_loop-Returns (look ∷ looks) j q drv o (here, h) small inside c =
        Returns-bind (stopping-Returns look.stopped drv c) λ drv' (c', stops). rw final (
          Returns-elim (le look.elapsed last && drv'.executing_traj)
            (λ e.
              let rest =
                still_over (le look.elapsed last) look.stopped (over looks last) drv'.executing_traj
                  o e stops in
              Returns-bind (trajectory_round-Returns look.elapsed j drv' here small inside c')
                λ (j', q', drv2) (inside', six, c2).
                  trajectory_loop-Returns looks j' q' drv2 rest h small inside' c2)
            (λ e. returns c'))

    pub follow_traj-ends :
        (looks : List (Look D)) (drv : UrDriver D)
        → over looks last ≡ true
        → All (λ l. le t0 l.elapsed ≡ true) looks
        → length timestamps < 2 ^ 32
        → IsCalm drv
        → (drv' : UrDriver D) × (follow_traj looks timestamps positions velocities drv ≡ ok drv')
          × (drv'.reverse_connected ≡ false)
          × (drv'.executing_traj ≡ false)
    unfolding follow_traj
    follow_traj-ends looks drv o h small c =
        let (drv', e, ended) = Returns-value (
          Returns-bind
            (trajectory_loop-Returns looks 0 [] (record drv { executing_traj = true }) o h small
              (omega (arith, traj.points)) (record { free = c.free; joints = c.joints }))
            λ (q, drv1) c1.
              close_servo-Returns q (record drv1 { executing_traj = false })
                (record { free = c1.free; joints = c1.joints })) in
        (drv', e, ended.0, ended.1)
