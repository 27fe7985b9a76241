-- ===== src/Communication/Safety.antt =====
-- What no order of events can break in the thread of the secondary port, and how `halt` ends it.
use ur_modern_driver.Common.{
  ℕ, Bool, ◌≤◌, ◌≡◌, refl, sym, subst, true, false, List, [], ◌∷◌, ok, Returns, returns,
  Returns-bind, Keeps, Keeps-bind, Keeps-self, Keeps-value, kept, length, All, overlay,
  overlay-size, length-replicate, Bool-cases, inl, inr, if◌then◌else◌,
}
use ur_modern_driver.Common.Int.{ℤ, pos, ltb_ℤ}
use ur_modern_driver.Double.{Platform}
use ur_modern_driver.RobotState.Defs.{
  RobotState, set_disconnected, finished_reading as finish_reading, is_robot_connected,
  is_real_robot_enabled, is_power_on_robot,
}
use ur_modern_driver.RobotState.Unpack.{unpack}
use ur_modern_driver.RobotState.VersionInvariant.{IsHeld}
use ur_modern_driver.RobotState.Invariant.{unpack-IsHeld}
use ur_modern_driver.Communication.Defs.{UrCommunication}
use ur_modern_driver.Communication.Thread.{
  Phase, reading, reconnecting, finished, Thread, Event, answered, attempted, halted, published,
  round, reconnect, settle, begin, on_attempt, on_answer, step, run,
}

-- The state tells that there is no robot.
pub record IsGone {D : Type 0} (s : RobotState D) : Type 0 where
  pub robot : is_robot_connected s ≡ false
  pub enabled : is_real_robot_enabled s ≡ false
  pub power : is_power_on_robot s ≡ false

pub record IsIntact {D : Type 0} (th : Thread D) : Type 0 where
  pub held : IsHeld 0 th.sec.robot_state
  pub size : length th.buf ≡ 2048
  pub gone : th.sec.connected ≡ false → IsGone th.sec.robot_state

pub record IsSteady {D : Type 0} (th : Thread D) : Type 0 where
  pub intact : IsIntact th
  pub listening : th.phase ≡ reading → th.sec.connected ≡ true

-- `read` gives at most 2048 bytes.
abbrev pub IsPossible : Event → Type 0
IsPossible (answered m) = length m ≤ 2048
IsPossible _ = Unit {0}

-- What wakes a thread that waits in this loop.
pub data Wakes : Phase → Event → Type 0 where
  timed_out : Wakes reading (answered [])
  tried : (flag : ℤ) → Wakes reconnecting (attempted flag)
  ended : (e : Event) → Wakes finished e

phase-listens :
    (keepalive connected : Bool)
    → (if keepalive then (if connected then reading else reconnecting) else finished) ≡ reading
    → connected ≡ true
phase-listens keepalive true e = refl
phase-listens true false e = absurd cc
phase-listens false false e = absurd cc

module _ {D : Type 0} where
  set_disconnected-IsGone : (s : RobotState D) → IsGone (set_disconnected s)
  unfolding set_disconnected is_robot_connected is_real_robot_enabled is_power_on_robot
  set_disconnected-IsGone s = record { robot = refl; enabled = refl; power = refl }

  set_disconnected-IsHeld : (s : RobotState D) → IsHeld 0 s → IsHeld 0 (set_disconnected s)
  unfolding set_disconnected
  set_disconnected-IsHeld s h = record { depth = h.depth; sized = h.sized; running = h.running }

  settle-IsSteady : (th : Thread D) → IsIntact th → IsSteady (settle th)
  unfolding settle
  settle-IsSteady th v = record {
    intact = record { held = v.held; size = v.size; gone = v.gone };
    listening = phase-listens th.sec.keepalive th.sec.connected;
  }

  on_attempt-IsSteady :
      (p : Phase) (flag : ℤ) (th : Thread D) → IsSteady th → IsSteady (on_attempt p flag th)
  unfolding on_attempt reconnect
  on_attempt-IsSteady reconnecting flag th v = elim (Bool-cases (ltb_ℤ flag (pos 0))) [
    | inl e ↦ rw e (settle-IsSteady th v.intact)
    | inr e ↦ rw e (
        settle-IsSteady _
          record { held = v.intact.held; size = v.intact.size; gone = λ f. absurd cc })
  ]
  on_attempt-IsSteady reading flag th v = v
  on_attempt-IsSteady finished flag th v = v

module _ {D : Type 0} ⦃d : Platform D⦄ where
  round-IsIntact :
      (m : List ℕ) (th : Thread D)
      → length m ≤ 2048
      → IsIntact th
      → th.sec.connected ≡ true
      → Keeps IsIntact (round m th)
  unfolding round
  round-IsIntact [] th l v c = kept record {
    held = set_disconnected-IsHeld th.sec.robot_state v.held;
    size = v.size;
    gone = λ _. set_disconnected-IsGone th.sec.robot_state;
  }
  round-IsIntact (b ∷ bs) th l v c =
      let buf = overlay (b ∷ bs) th.buf in
      let state = th.sec.robot_state in
      Keeps-bind (Keeps-self (unpack buf (length (b ∷ bs)) state)) λ s same. kept record {
        held = unpack-IsHeld 0 buf (length (b ∷ bs)) state s v.held same;
        size = overlay-size (b ∷ bs) th.buf l v.size;
        gone = λ e. absurd cc;
      }

  on_answer-IsSteady :
      (p : Phase) (m : List ℕ) (th : Thread D)
      → th.phase ≡ p
      → length m ≤ 2048
      → IsSteady th
      → Keeps IsSteady (on_answer p m th)
  unfolding on_answer
  on_answer-IsSteady reading m th e l v =
      Keeps-bind (round-IsIntact m th l v.intact (v.listening e)) λ t w. kept (settle-IsSteady t w)
  on_answer-IsSteady reconnecting m th e l v = kept v
  on_answer-IsSteady finished m th e l v = kept v

  step-IsSteady :
      (e : Event) (th : Thread D) → IsPossible e → IsSteady th → Keeps IsSteady (step e th)
  unfolding step finish_reading is_robot_connected is_real_robot_enabled is_power_on_robot
  step-IsSteady (answered m) th h v = on_answer-IsSteady th.phase m th refl h v
  step-IsSteady (attempted flag) th h v = kept (on_attempt-IsSteady th.phase flag th v)
  step-IsSteady halted th h v = kept record {
    intact = record { held = v.intact.held; size = v.intact.size; gone = v.intact.gone };
    listening = v.listening;
  }
  step-IsSteady published th h v =
      let held = v.intact.held in
      kept record {
        intact = record {
          held = record { depth = held.depth; sized = held.sized; running = held.running };
          size = v.intact.size;
          gone = λ e.
              let g = v.intact.gone e in
              record { robot = g.robot; enabled = g.enabled; power = g.power };
        };
        listening = v.listening;
      }

  run-Keeps :
      (es : List Event) (th : Thread D)
      → All IsPossible es
      → IsSteady th
      → Keeps IsSteady (run es th)
  unfolding run
  run-Keeps [] th h v = kept v
  run-Keeps (e ∷ es) th h v = Keeps-bind (step-IsSteady e th h.0 v) λ t w. run-Keeps es t h.1 w

  -- Whatever is read, fails, is connected again or is called by other threads, in whatever order:
  -- if the thread of the secondary port takes all of it, then the mutex of the robot's state is free
  -- and its arrays have their sizes, and whenever the port is not connected the state says that
  -- the robot is not connected, not enabled and has no power.
  pub run-IsSteady :
      (es : List Event) (th t : Thread D)
      → All IsPossible es
      → IsSteady th
      → run es th ≡ ok t
      → IsSteady t
  run-IsSteady es th t h v e = Keeps-value t (run-Keeps es th h v) e

  -- A thread that begins on a robot's state that is not locked is safe.
  pub begin-IsSteady : (sec : UrCommunication D) → IsHeld 0 sec.robot_state → IsSteady (begin sec)
  unfolding begin
  begin-IsSteady sec h =
      settle-IsSteady _
        record { held = h; size = length-replicate {A = ℕ} 2048 0; gone = λ e. absurd cc }

  attempt-finishes :
      (flag : ℤ) (th : Thread D)
      → th.sec.keepalive ≡ false
      → (on_attempt reconnecting flag th).phase ≡ finished
  unfolding on_attempt reconnect settle
  attempt-finishes flag th k = elim (Bool-cases (ltb_ℤ flag (pos 0))) [
    | inl e ↦ rw (e, k) refl
    | inr e ↦ rw (e, k) refl
  ]

  over-stays :
      (flag : ℤ) (th : Thread D)
      → th.phase ≡ finished
      → (on_attempt th.phase flag th).phase ≡ finished
  unfolding on_attempt
  over-stays flag th here = rw here refl

  finished-stays :
      (e : Event) (th : Thread D)
      → th.phase ≡ finished
      → Returns (λ t. t.phase ≡ finished) (step e th)
  unfolding step on_answer
  finished-stays (answered m) th here = rw here (returns refl)
  finished-stays (attempted flag) th here = returns (over-stays flag th here)
  finished-stays halted th here = returns here
  finished-stays published th here = returns here

  waking-finishes :
      {e : Event} {p : Phase}
      → Wakes p e
      → (th : Thread D) → th.phase ≡ p
      → th.sec.keepalive ≡ false
      → Returns (λ t. t.phase ≡ finished) (step e th)
  unfolding step on_answer round settle
  waking-finishes timed_out th here asleep = rw (here, asleep) (returns refl)
  waking-finishes (tried flag) th here asleep =
      subst (λ p. Returns (λ t. t.phase ≡ finished) (ok (on_attempt p flag th))) (sym here)
        (returns (attempt-finishes flag th asleep))
  waking-finishes (ended e) th here asleep = finished-stays e th here

  -- A thread in whatever loop: after `halt`, the one event that it waits for ends it. In the loop that
  -- reads, that is a read that timed out or failed; in the one that connects again, an attempt that
  -- has succeeded or failed. A thread that has ended stays so.
  pub halted-finishes :
      (e : Event) (th : Thread D)
      → Wakes th.phase e
      → Returns (λ t. t.phase ≡ finished) (run (halted ∷ e ∷ []) th)
  unfolding run step
  halted-finishes e th w =
      Returns-bind
        (waking-finishes w (record th { sec = record (th.sec) { keepalive = false } }) refl refl)
        λ t h. returns h
