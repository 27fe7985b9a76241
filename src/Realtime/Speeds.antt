-- ===== src/Realtime/Speeds.antt =====
-- `setSpeed` as the controller takes it: the program that is sent for six joint speeds, and when the
-- watchdog's count starts again.
use ur_modern_driver.Common.{
  ℕ, ◌≡◌, ◌∙◌, refl, ◌<◌, ◌⊎◌, inl, inr, true, false, List, [], ◌∷◌, ◌++◌, ok, arith, if◌then◌else◌,
  text, length, All, Bool-cases,
}
use mathlib.Core.List.{append_assoc}
use ur_modern_driver.Double.{Platform}
use ur_modern_driver.Realtime.Defs.{Realtime, speeds, speed_command, moves, set_speed}
use ur_modern_driver.Realtime.Commands.{EndsLine, deliver, speed_command-EndsLine, set_speed-eq-ok}

module _ {D : Type 0} ⦃d : Platform D⦄ where
  open d use {lit, le, eq, printed}

  -- The speeds with commas between them, and what follows.
  abbrev listed : List D → List ℕ → List ℕ
  listed [] after = after
  listed (q ∷ []) after = printed 5 q ++ after
  listed (q ∷ r ∷ qs) after = printed 5 q ++ (text ", " ++ listed (r ∷ qs) after)

  abbrev program : List D → D → List ℕ → List ℕ
  program qs acc after = text "speedj([" ++ listed qs (text "], " ++ (printed 6 acc ++ after))

-- The program for a controller of this version: from 3.3 on with a time of 8 ms, from 3.1 on without
-- one, before with 20 ms.
pub data IsSpeedProgram {D : Type 0} ⦃d : Platform D⦄ (version : D) (qs : List D) (acc : D)
    : List ℕ → Type 0 where
  brief :
      d.le (d.lit 33 1) version ≡ true
      → IsSpeedProgram version qs acc (program qs acc (text ", 0.008)\n"))
  untimed :
      d.le (d.lit 33 1) version ≡ false
      → d.le (d.lit 31 1) version ≡ true
      → IsSpeedProgram version qs acc (program qs acc (text ")\n"))
  long :
      d.le (d.lit 33 1) version ≡ false
      → d.le (d.lit 31 1) version ≡ false
      → IsSpeedProgram version qs acc (program qs acc (text ", 0.02)\n"))

module _ {D : Type 0} ⦃d : Platform D⦄ where
  open d use {lit, le, eq}

  speeds-listed :
      (q0 q1 q2 q3 q4 q5 : D) (after : List ℕ)
      → speeds q0 q1 q2 q3 q4 q5 ++ after
        ≡ text "speedj([" ++ listed (q0 ∷ q1 ∷ q2 ∷ q3 ∷ q4 ∷ q5 ∷ []) (text "], " ++ after)
  unfolding speeds
  speeds-listed q0 q1 q2 q3 q4 q5 after = simp append_assoc

  speed_command-IsSpeedProgram :
      (version q0 q1 q2 q3 q4 q5 acc : D)
      → IsSpeedProgram version
          (q0 ∷ q1 ∷ q2 ∷ q3 ∷ q4 ∷ q5 ∷ [])
          acc
          (speed_command version q0 q1 q2 q3 q4 q5 acc)
  unfolding speed_command
  speed_command-IsSpeedProgram version q0 q1 q2 q3 q4 q5 acc =
      elim (Bool-cases (le (lit 33 1) version)) [
        | inl e ↦ rw e (rw (speeds-listed q0 q1 q2 q3 q4 q5 _) (brief e))
        | inr e ↦ rw e (elim (Bool-cases (le (lit 31 1) version)) [
          | inl f ↦ rw f (rw (speeds-listed q0 q1 q2 q3 q4 q5 _) (untimed e f))
          | inr f ↦ rw f (rw (speeds-listed q0 q1 q2 q3 q4 q5 _) (long e f))
        ])
      ]

  -- No joint is to move.
  abbrev pub AreStill : List D → Type 0
  AreStill qs = All (λ q. eq q (lit 0 0) ≡ true) qs

  moves-cases :
      (q0 q1 q2 q3 q4 q5 : D)
      → let qs = q0 ∷ q1 ∷ q2 ∷ q3 ∷ q4 ∷ q5 ∷ [] in
        (AreStill qs × (moves q0 q1 q2 q3 q4 q5 ≡ false))
        ⊎ (¬ AreStill qs × (moves q0 q1 q2 q3 q4 q5 ≡ true))
  unfolding moves
  moves-cases q0 q1 q2 q3 q4 q5 = ground arith

  still-delivered :
      (line : List ℕ) (rt : Realtime D)
      → deliver line rt
        ≡ record rt { sent = if rt.connected then rt.sent ++ (line ∷ []) else rt.sent }
  unfolding deliver
  still-delivered line rt = elim (Bool-cases rt.connected) [ inl e ↦ rw e refl | inr e ↦ rw e refl ]

  -- `setSpeed` with a command that fits its buffer, while the state is not locked: one line is written,
  -- if there is a connection. It is the `speedj` program with the six speeds in their order, the
  -- acceleration, and the time that the controller's version needs. The watchdog's count starts
  -- again if some speed is not 0, and else goes on. Nothing else changes.
  pub set_speed-sends :
      (q0 q1 q2 q3 q4 q5 acc : D) (rt : Realtime D)
      → rt.robot_state.val_lock ≡ false
      → length (speed_command rt.robot_state.version q0 q1 q2 q3 q4 q5 acc) < 1024
      → let qs = q0 ∷ q1 ∷ q2 ∷ q3 ∷ q4 ∷ q5 ∷ [] in
        (line : List ℕ) × (count : ℕ) × IsSpeedProgram rt.robot_state.version qs acc line
        × EndsLine line
        × ((AreStill qs × (count ≡ rt.safety_count)) ⊎ (¬ AreStill qs × (count ≡ 0)))
        × (set_speed q0 q1 q2 q3 q4 q5 acc rt
            ≡ ok (record rt {
              safety_count = count;
              sent = if rt.connected then rt.sent ++ (line ∷ []) else rt.sent;
            }))
  set_speed-sends q0 q1 q2 q3 q4 q5 acc rt free short =
      let version = rt.robot_state.version in
      let line = speed_command version q0 q1 q2 q3 q4 q5 acc in
      let is = speed_command-IsSpeedProgram version q0 q1 q2 q3 q4 q5 acc in
      let ends = speed_command-EndsLine version q0 q1 q2 q3 q4 q5 acc in
      let sends = set_speed-eq-ok q0 q1 q2 q3 q4 q5 acc rt free short in
      elim (moves-cases q0 q1 q2 q3 q4 q5) [
        | inl (still, e) ↦ (
          line,
          rt.safety_count,
          is,
          ends,
          inl (still, refl),
          sends ∙ rw (e, still-delivered line rt) refl,
        )
        | inr (moving, e) ↦
            (line, 0, is, ends, inr (moving, refl), sends ∙ rw (e, still-delivered line rt) refl)
      ]
