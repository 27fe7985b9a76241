-- ===== src/Realtime/Commands.antt =====
-- What `addCommandToQueue` and `setSpeed` write, and how they leave the rest of the state.
use ur_modern_driver.Common.{
  ℕ, ◌≡◌, refl, ◌∙◌, ◌⊎◌, false, List, [], ◌∷◌, ◌++◌, some, ok, arith, if◌then◌else◌, ◌==◌,
  Bool-cases, inl, inr, get_last?, get_last?-append, length, ◌<◌, lt→ltb, length-append, ◌+◌, ◌*◌,
  ◌≤◌,
}
use ur_modern_driver.Double.{Platform, IsOrdered}
use ur_modern_driver.RobotStateRt.Getters.{get_version, locked-eq-ok}
use ur_modern_driver.RobotStateRt.Defs.{RobotStateRt}
use ur_modern_driver.Realtime.Defs.{
  Realtime, speeds, speed_command, add_command_to_queue, moves, set_speed,
}

-- The newline that ends a command.
abbrev pub EndsLine : List ℕ → Type 0
EndsLine inp = get_last? inp ≡ some b'\n'

-- What is written for a command: the command itself if a newline ends it, else the command with a
-- newline behind it.
abbrev pub Completes : List ℕ → List ℕ → Type 0
Completes inp line = (EndsLine inp × (line ≡ inp)) ⊎ (¬ EndsLine inp × (line ≡ inp ++ (b'\n' ∷ [])))

get_last?-nonempty : (inp : List ℕ) → 0 < length inp → (c : ℕ) × (get_last? inp ≡ some c)
get_last?-nonempty [] h = absurd (omega arith)
get_last?-nonempty (x ∷ []) h = (x, refl)
get_last?-nonempty (x ∷ y ∷ ys) h = get_last?-nonempty (y ∷ ys) (omega arith)

pub EndsLine-append : (xs ys : List ℕ) → EndsLine ys → EndsLine (xs ++ ys)
EndsLine-append xs [] e = cc
EndsLine-append xs (y ∷ ys) e = get_last?-append xs y ys ∙ e

module _ {D : Type 0} where
  -- A complete command is written as it is, if there is a connection.
  unfoldable pub deliver : List ℕ → Realtime D → Realtime D
  deliver inp rt = if rt.connected then record rt { sent = rt.sent ++ (inp ∷ []) } else rt

  -- A command that is not empty: one line is written for it, if there is a connection. The line is the
  -- command if a newline ends it, and else the command with a newline behind it.
  pub add_command_to_queue-deliver :
      (inp : List ℕ) (rt : Realtime D)
      → 0 < length inp
      → (line : List ℕ) × (add_command_to_queue inp rt ≡ ok (deliver line rt))
        × EndsLine line
        × Completes inp line
  unfolding add_command_to_queue deliver
  add_command_to_queue-deliver inp rt h =
      let (c, last) = get_last?-nonempty inp h in
      elim (Bool-cases (c == b'\n')) [
        | inl e ↦ (
          inp,
          rw (last, add_command_to_queue) (rw e refl),
          ground arith,
          inl (ground arith, refl),
        )
        | inr e ↦ (
          inp ++ (b'\n' ∷ []),
          rw (last, add_command_to_queue) (rw e refl),
          EndsLine-append inp (b'\n' ∷ []) refl,
          inr (λ f. absurd (grind arith), refl),
        )
      ]

  pub add_command_to_queue-EndsLine :
      (inp : List ℕ) (rt : Realtime D)
      → EndsLine inp
      → add_command_to_queue inp rt ≡ ok (deliver inp rt)
  unfolding add_command_to_queue deliver
  add_command_to_queue-EndsLine inp rt e = rw (e, add_command_to_queue)

module _ {D : Type 0} ⦃d : Platform D⦄ where
  open d use {lit, le, printed}

  pub speed_command-EndsLine :
      (version q0 q1 q2 q3 q4 q5 acc : D) → EndsLine (speed_command version q0 q1 q2 q3 q4 q5 acc)
  unfolding speed_command
  speed_command-EndsLine version q0 q1 q2 q3 q4 q5 acc =
      let ends : (tail : List ℕ)
          → EndsLine tail
          → EndsLine (speeds q0 q1 q2 q3 q4 q5 ++ (printed 6 acc ++ tail)) =
        λ tail e.
          EndsLine-append (speeds q0 q1 q2 q3 q4 q5) (printed 6 acc ++ tail)
            (EndsLine-append (printed 6 acc) tail e) in
      elim (Bool-cases (le (lit 33 1) version)) [
        | inl e ↦ rw e (ends _ refl)
        | inr e ↦ rw e (elim (Bool-cases (le (lit 31 1) version)) [
          | inl f ↦ rw f (ends _ refl)
          | inr f ↦ rw f (ends _ refl)
        ])
      ]

  speeds-length : (q : D) → length (speeds q q q q q q) ≡ 21 + 6 * length (printed 5 q)
  unfolding speeds
  speeds-length q = grind (arith, length-append)

  speed_command-length :
      (version q acc : D)
      → length (speed_command version q q q q q q acc)
        ≤ 30 + 6 * length (printed 5 q) + length (printed 6 acc)
  unfolding speed_command
  speed_command-length version q acc =
      let joints = speeds q q q q q q in
      let fits : (tail : List ℕ)
          → length tail ≤ 9
          → length (joints ++ (printed 6 acc ++ tail))
            ≤ 30 + 6 * length (printed 5 q) + length (printed 6 acc) =
        λ tail h. omega (
          arith,
          speeds-length q,
          length-append joints (printed 6 acc ++ tail),
          length-append (printed 6 acc) tail,
        ) in
      elim (Bool-cases (le (lit 33 1) version)) [
        | inl e ↦ rw e (fits _ (omega arith))
        | inr e ↦ rw e (elim (Bool-cases (le (lit 31 1) version)) [
          | inl f ↦ rw f (fits _ (omega arith))
          | inr f ↦ rw f (fits _ (omega arith))
        ])
      ]

  -- The command that stops the robot fits the buffer.
  pub stop-fits :
      IsOrdered d
      → (version : D)
      → length (
          speed_command version
            (lit 0 0)
            (lit 0 0)
            (lit 0 0)
            (lit 0 0)
            (lit 0 0)
            (lit 0 0)
            (lit 100 0))
        < 1024
  stop-fits laws version = omega (
    arith,
    speed_command-length version (lit 0 0) (lit 100 0),
    laws.printed_zero,
    laws.printed_hundred,
  )

  get_version-eq-ok : (s : RobotStateRt D) → s.val_lock ≡ false → get_version s ≡ ok (s.version, s)
  unfolding get_version
  get_version-eq-ok s free = locked-eq-ok (λ r. r.version) s free

  -- `setSpeed` with a command that fits its buffer, while the state is not locked: it delivers the
  -- command of the version, and starts the watchdog's count again exactly if some joint is to move.
  pub set_speed-eq-ok :
      (q0 q1 q2 q3 q4 q5 acc : D) (rt : Realtime D)
      → rt.robot_state.val_lock ≡ false
      → length (speed_command rt.robot_state.version q0 q1 q2 q3 q4 q5 acc) < 1024
      → let sent = deliver (speed_command rt.robot_state.version q0 q1 q2 q3 q4 q5 acc) rt in
        set_speed q0 q1 q2 q3 q4 q5 acc rt
        ≡ ok (if moves q0 q1 q2 q3 q4 q5 then record sent { safety_count = 0 } else sent)
  unfolding set_speed
  set_speed-eq-ok q0 q1 q2 q3 q4 q5 acc rt free short =
      let version = rt.robot_state.version in
      rw (
        get_version-eq-ok rt.robot_state free,
        lt→ltb (length (speed_command version q0 q1 q2 q3 q4 q5 acc)) 1024 short,
        add_command_to_queue-EndsLine (speed_command version q0 q1 q2 q3 q4 q5 acc) rt
            (speed_command-EndsLine version q0 q1 q2 q3 q4 q5 acc),
      )
