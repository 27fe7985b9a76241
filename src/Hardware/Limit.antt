-- ===== src/Hardware/Limit.antt =====
-- The rate limit of `write` on the speeds that the controllers ask for.
use ur_modern_driver.Common.{◌≡◌, refl, true, false, Bool-cases, inl, inr, List, [], ◌∷◌, ok, ◌>>=◌}
use ur_modern_driver.Double.{Platform, IsOrdered}
use ur_modern_driver.Driver.Defs.{set_speed}
use ur_modern_driver.Hardware.Defs.{UrHardwareInterface, limit, limit_all, write}

module _ {D : Type 0} ⦃d : Platform D⦄ where
  open d use {lit, lt, add, sub, mul}

  -- No command is found to be above or below its predecessor by more than the change.
  abbrev pub IsLimited : D → List D → List D → Type 0
  IsLimited change [] cs = Unit {0}
  IsLimited change (p ∷ ps) [] = Unit {0}
  IsLimited change (p ∷ ps) (c ∷ cs) =
      (lt (add p change) c ≡ false) × (lt c (sub p change) ≡ false) × IsLimited change ps cs

module _ {D : Type 0} ⦃d : Platform D⦄ (laws : IsOrdered d) where
  open d use {lit, lt, add, sub, mul}

  limit-bounds :
      (change p c : D)
      → lt (add p change) (sub p change) ≡ false
      → (lt (add p change) (limit change p c) ≡ false)
        × (lt (limit change p c) (sub p change) ≡ false)
  unfolding limit
  limit-bounds change p c spread = elim (Bool-cases (lt (add p change) c)) [
    | inl e ↦ rw e (laws.lt_irrefl (add p change), spread)
    | inr e ↦ rw e (elim (Bool-cases (lt c (sub p change))) [
      | inl f ↦ rw f (spread, laws.lt_irrefl (sub p change))
      | inr f ↦ rw f (e, f)
    ])
  ]

  -- While the velocity interface runs, `write` calls `setSpeed` with six speeds and remembers them.
  -- None of them is found to be greater than the one before plus `max_vel_change_`, or less than it
  -- minus `max_vel_change_`, whatever the controllers ask for. The change is not negative: a speed
  -- plus the change is not less than the speed minus the change. A comparison with a NaN finds
  -- nothing, so a NaN that a controller asks for passes.
  pub write-IsLimited :
      (p0 p1 p2 p3 p4 p5 c0 c1 c2 c3 c4 c5 : D) (hw : UrHardwareInterface D)
      → hw.velocity_interface_running ≡ true
      → hw.prev_joint_velocity_command ≡ p0 ∷ p1 ∷ p2 ∷ p3 ∷ p4 ∷ p5 ∷ []
      → hw.joint_velocity_command ≡ c0 ∷ c1 ∷ c2 ∷ c3 ∷ c4 ∷ c5 ∷ []
      → ((p : D) → lt (add p hw.max_vel_change) (sub p hw.max_vel_change) ≡ false)
      → (x0 x1 x2 x3 x4 x5 : D) × let cmd = x0 ∷ x1 ∷ x2 ∷ x3 ∷ x4 ∷ x5 ∷ [] in
          (write hw ≡ (
            set_speed x0 x1 x2 x3 x4 x5 (mul hw.max_vel_change (lit 125 0)) hw.robot >>= λ robot.
            ok (record hw { prev_joint_velocity_command = cmd; robot = robot })))
          × IsLimited hw.max_vel_change hw.prev_joint_velocity_command cmd
  unfolding write limit_all
  write-IsLimited p0 p1 p2 p3 p4 p5 c0 c1 c2 c3 c4 c5 hw runs prevs commands spread =
      let change = hw.max_vel_change in
      let (h0, l0) = limit-bounds change p0 c0 (spread p0) in
      let (h1, l1) = limit-bounds change p1 c1 (spread p1) in
      let (h2, l2) = limit-bounds change p2 c2 (spread p2) in
      let (h3, l3) = limit-bounds change p3 c3 (spread p3) in
      let (h4, l4) = limit-bounds change p4 c4 (spread p4) in
      let (h5, l5) = limit-bounds change p5 c5 (spread p5) in
      (
        limit change p0 c0,
        limit change p1 c1,
        limit change p2 c2,
        limit change p3 c3,
        limit change p4 c4,
        limit change p5 c5,
        (
          rw (runs, prevs, commands) refl,
          rw prevs (h0, l0, (h1, l1, (h2, l2, (h3, l3, (h4, l4, (h5, l5, tt)))))),
        ),
      )
