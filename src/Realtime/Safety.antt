-- ===== src/Realtime/Safety.antt =====
-- What the other threads and the network do to the thread.
use ur_modern_driver.Common.{
  ℕ, ◌≤◌, ◌<◌, ◌≡◌, false, List, [], ◌∷◌, ok, ◌>>=◌, Returns, returns, Returns-bind, Returns-if,
  Returns-value, arith, overlay, overlay-size, overlay-bytes, ◌==◌, Bool-cases, inl, inr, length,
  All, All-append, All-take, All-replicate, IsByte, length-replicate,
}
use ur_modern_driver.Common.Int.{ℤ}
use ur_modern_driver.Double.{Platform, IsOrdered}
use ur_modern_driver.RobotStateRt.Shape.{IsValid, unpack-IsValid}
use ur_modern_driver.Realtime.Defs.{Realtime, speed_command, moves, set_speed, add_command_to_queue}
use ur_modern_driver.Realtime.Commands.{
  EndsLine, deliver, set_speed-eq-ok, speed_command-EndsLine, stop-fits,
  add_command_to_queue-deliver,
}
use ur_modern_driver.Realtime.Thread.{
  Phase, reading, reconnecting, Thread, Event, answered, attempted, halted, commanded, speed_set,
  stop, count_message, round, reconnect, settle, begin, on_answer, on_attempt, step, run,
}

pub record IsSound {D : Type 0} (rt : Realtime D) : Type 0 where
  pub free : rt.robot_state.val_lock ≡ false
  pub valid : IsValid rt.robot_state
  pub lines : All EndsLine rt.sent

pub record IsSafe {D : Type 0} (th : Thread D) : Type 0 where
  pub sound : IsSound th.rt
  pub size : length th.buf ≡ 2048
  pub bytes : All IsByte th.buf

module _ {D : Type 0} where
  deliver-IsSound :
      (line : List ℕ) (rt : Realtime D) → EndsLine line → IsSound rt → IsSound (deliver line rt)
  unfolding deliver
  deliver-IsSound line rt e v = ground (arith, All-append EndsLine rt.sent (line ∷ []) v.lines)

module _ {D : Type 0} ⦃d : Platform D⦄ where
  -- `read` gives at most 2048 bytes, nobody sends the empty command, and a speed command fits the
  -- buffer that it is printed to.
  abbrev pub IsPossible : Event D → Type 0
  IsPossible (answered m) = (length m ≤ 2048) × All IsByte m
  IsPossible (commanded inp) = 0 < length inp
  IsPossible (speed_set q0 q1 q2 q3 q4 q5 acc) =
      (version : D) → length (speed_command version q0 q1 q2 q3 q4 q5 acc) < 1024
  IsPossible _ = Unit {0}

module _ {D : Type 0} ⦃d : Platform D⦄ (laws : IsOrdered d) where
  open d use {lit}

  set_speed-IsSound :
      (q0 q1 q2 q3 q4 q5 acc : D) (rt : Realtime D)
      → length (speed_command rt.robot_state.version q0 q1 q2 q3 q4 q5 acc) < 1024
      → IsSound rt
      → Returns IsSound (set_speed q0 q1 q2 q3 q4 q5 acc rt)
  set_speed-IsSound q0 q1 q2 q3 q4 q5 acc rt short v =
      let version = rt.robot_state.version in
      let sent =
        deliver-IsSound (speed_command version q0 q1 q2 q3 q4 q5 acc) rt
          (speed_command-EndsLine version q0 q1 q2 q3 q4 q5 acc) v in
      rw (set_speed-eq-ok q0 q1 q2 q3 q4 q5 acc rt v.free short) (
        returns (elim (Bool-cases (moves q0 q1 q2 q3 q4 q5)) [
          | inl e ↦ rw e (record { free = sent.free; valid = sent.valid; lines = sent.lines })
          | inr e ↦ rw e sent
        ]))

  add_command_to_queue-IsSound :
      (inp : List ℕ) (rt : Realtime D)
      → 0 < length inp
      → IsSound rt
      → Returns IsSound (add_command_to_queue inp rt)
  add_command_to_queue-IsSound inp rt h v =
      let (line, e, whole, _) = add_command_to_queue-deliver inp rt h in
      rw e (returns (deliver-IsSound line rt whole v))

  stop-IsSound : (rt : Realtime D) → IsSound rt → Returns IsSound (stop rt)
  unfolding stop
  stop-IsSound rt v = set_speed-IsSound _ _ _ _ _ _ _ rt (stop-fits laws rt.robot_state.version) v

  count_message-IsSound : (rt : Realtime D) → IsSound rt → Returns IsSound (count_message rt)
  unfolding count_message
  count_message-IsSound rt v =
      Returns-bind
        (Returns-if (rt.safety_count == rt.safety_count_max) (λ _. stop-IsSound rt v)
          (λ _. returns v))
        (λ rt' w. returns (record { free = w.free; valid = w.valid; lines = w.lines }))

  round-IsSafe :
      (m : List ℕ) (th : Thread D)
      → (length m ≤ 2048) × All IsByte m
      → IsSafe th
      → Returns IsSafe (round m th)
  unfolding round
  round-IsSafe [] th h v = returns (ground arith)
  round-IsSafe (b ∷ bs) th h v =
      let m = b ∷ bs in
      let buf = overlay m th.buf in
      let size = overlay-size m th.buf h.0 v.size in
      let bytes = overlay-bytes m th.buf h.1 v.bytes in
      let (state, e, valid, free, same) =
        unpack-IsValid buf th.rt.robot_state (omega arith) (All-take IsByte 4 buf bytes)
          v.sound.free v.sound.valid in
      rw e (
        Returns-bind
          (count_message-IsSound (record (th.rt) { robot_state = state })
            (record { free = free; valid = valid; lines = v.sound.lines }))
          (λ rt w. returns (record { sound = w; size = size; bytes = bytes })))

  settle-IsSafe : (th : Thread D) → IsSafe th → Returns IsSafe (settle th)
  unfolding settle
  settle-IsSafe th v =
      Returns-if th.rt.keepalive
        (λ _. returns (record { sound = v.sound; size = v.size; bytes = v.bytes }))
        (λ _.
          Returns-bind (stop-IsSound th.rt v.sound)
            (λ rt w. returns (record { sound = w; size = v.size; bytes = v.bytes })))

  on_answer-IsSafe :
      (p : Phase) (m : List ℕ) (th : Thread D)
      → (length m ≤ 2048) × All IsByte m
      → IsSafe th
      → Returns IsSafe (on_answer p m th)
  unfolding on_answer
  on_answer-IsSafe reading m th h v =
      Returns-bind (round-IsSafe m th h v) (λ th' w. settle-IsSafe th' w)
  on_answer-IsSafe _ m th h v = returns v

  on_attempt-IsSafe :
      (p : Phase) (flag : ℤ) (th : Thread D) → IsSafe th → Returns IsSafe (on_attempt p flag th)
  unfolding on_attempt reconnect
  on_attempt-IsSafe reconnecting flag th v = settle-IsSafe (reconnect flag th) (ground arith)
  on_attempt-IsSafe _ flag th v = returns v

  step-IsSafe :
      (e : Event D) (th : Thread D) → IsPossible e → IsSafe th → Returns IsSafe (step e th)
  unfolding step
  step-IsSafe (answered m) th h v = on_answer-IsSafe th.phase m th h v
  step-IsSafe (attempted flag) th h v = on_attempt-IsSafe th.phase flag th v
  step-IsSafe halted th h v = returns (ground arith)
  step-IsSafe (commanded inp) th h v =
      Returns-bind (add_command_to_queue-IsSound inp th.rt h v.sound)
        (λ rt w. returns (record { sound = w; size = v.size; bytes = v.bytes }))
  step-IsSafe (speed_set q0 q1 q2 q3 q4 q5 acc) th h v =
      Returns-bind
        (set_speed-IsSound q0 q1 q2 q3 q4 q5 acc th.rt (h th.rt.robot_state.version) v.sound)
        (λ rt w. returns (record { sound = w; size = v.size; bytes = v.bytes }))

  run-Returns :
      (es : List (Event D)) (th : Thread D)
      → All IsPossible es
      → IsSafe th
      → Returns IsSafe (run es th)
  unfolding run
  run-Returns [] th h v = returns v
  run-Returns (e ∷ es) th h v =
      Returns-bind (step-IsSafe e th h.0 v) (λ th' w. run-Returns es th' h.1 w)

  begin-Returns : (rt : Realtime D) → IsSound rt → Returns IsSafe (begin rt)
  unfolding begin
  begin-Returns rt v = settle-IsSafe _ (record {
    sound = record { free = v.free; valid = v.valid; lines = v.lines };
    size = length-replicate {A = ℕ} 2048 0;
    bytes = All-replicate IsByte 2048 0 (omega arith);
  })

  -- The thread begins on a state that is well-formed, not locked and has whole lines. Then messages,
  -- failures, connections, `halt`, and calls of other threads come in any order, of which those of
  -- `addCommandToQueue` have a command that is not empty, and those of `setSpeed` one that fits
  -- the buffer: the thread takes them all without a fault or a deadlock. The state stays
  -- well-formed and is not locked between events, and every command on the socket ends a line.
  pub run-IsSafe :
      (es : List (Event D)) (rt : Realtime D)
      → All IsPossible es
      → IsSound rt
      → (t : Thread D) × ((begin rt >>= run es) ≡ ok t) × IsSafe t
  run-IsSafe es rt h v =
      Returns-value (Returns-bind (begin-Returns rt v) (λ th w. run-Returns es th h w))
