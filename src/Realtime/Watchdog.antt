-- ===== src/Realtime/Watchdog.antt =====
-- The watchdog of `run`: a robot that was set in motion is stopped when `setSpeed` is not called
-- again in time.
use ur_modern_driver.Common.{
  ℕ, ◌+◌, ◌^◌, ◌<◌, ◌≡◌, refl, ap, ◌∙◌, true, List, [], ◌∷◌, ◌++◌, map, ok, arith, if◌then◌else◌,
  ltb, length, All,
}
use ur_modern_driver.Double.{Platform, IsOrdered}
use ur_modern_driver.Realtime.Defs.{Realtime, speed_command, moves}
use ur_modern_driver.Realtime.Commands.{deliver, set_speed-eq-ok}
use ur_modern_driver.Realtime.Thread.{Thread, answered, speed_set, step, run}
use ur_modern_driver.Realtime.Listening.{
  IsMessage, IsListening, stop_command, stops, unpacked, heard, heard-stops, heard-IsListening,
  step-heard, no_stop,
}

module _ {D : Type 0} ⦃d : Platform D⦄ (laws : IsOrdered d) where
  -- While no other thread calls `setSpeed`, a listening thread takes any messages without a fault
  -- and goes on listening; it counts them, and it writes the stop command once, at the message
  -- before which the count is `safety_count_max_`, and nothing else. The count is to stay below
  -- 2 ^ 32.
  pub watchdog :
      (ms : List (List ℕ)) (th : Thread D)
      → IsListening th
      → All IsMessage ms
      → th.rt.safety_count + length ms < 2 ^ 32
      → (t : Thread D) × (run (map answered ms) th ≡ ok t)
        × IsListening t
        × (t.rt.safety_count ≡ th.rt.safety_count + length ms)
        × (t.rt.sent ≡ th.rt.sent ++ stops th.rt (length ms))
  unfolding run
  watchdog [] th l h low = (th, refl, l, omega arith, no_stop th)
  watchdog (m ∷ ms) th l h low =
      let (state, e, v, free, same) = unpacked th m l.ready h.0 in
      let next = heard m state th in
      let (one, sent) = heard-stops th m state (length ms) low l.connected same in
      let (t, runs, l', count, rest) =
        watchdog ms next (heard-IsListening th m state l h.0 v free) h.1 (omega arith) in
      (t, rw (step-heard laws th m state l h.0 e free) runs, l', omega arith, rest ∙ sent)

  -- The thread after a call of `setSpeed` that moves a joint.
  abbrev started : List ℕ → Thread D → Thread D
  started command th = record th {
    rt = record (th.rt) { safety_count = 0; sent = th.rt.sent ++ (command ∷ []) };
  }

  started-IsListening :
      (command : List ℕ) (th : Thread D) → IsListening th → IsListening (started command th)
  started-IsListening command th l = record {
    ready = record {
      free = l.ready.free;
      valid = l.ready.valid;
      size = l.ready.size;
      bytes = l.ready.bytes;
    };
    phase = l.phase;
    keepalive = l.keepalive;
    connected = l.connected;
  }

  step-started :
      (q0 q1 q2 q3 q4 q5 acc : D) (th : Thread D)
      → IsListening th
      → moves q0 q1 q2 q3 q4 q5 ≡ true
      → length (speed_command th.rt.robot_state.version q0 q1 q2 q3 q4 q5 acc) < 1024
      → step (speed_set q0 q1 q2 q3 q4 q5 acc) th
        ≡ ok (started (speed_command th.rt.robot_state.version q0 q1 q2 q3 q4 q5 acc) th)
  unfolding step deliver
  step-started q0 q1 q2 q3 q4 q5 acc th l going short =
      rw (set_speed-eq-ok q0 q1 q2 q3 q4 q5 acc th.rt l.ready.free short, going, l.connected)

  all_stops :
      (rt : Realtime D) (n : ℕ)
      → rt.safety_count ≡ 0
      → stops rt n
        ≡ (if ltb rt.safety_count_max n then stop_command rt.robot_state.version ∷ [] else [])
  all_stops rt n zeroed = ground arith

  -- A robot is set in motion by a command that fits the buffer, and then left alone, while any
  -- number of messages below 2 ^ 32 come: the command that moves it is written, and after it the stop
  -- command if there are more than `safety_count_max_` messages, and nothing else. So the stop is
  -- written at the message after the first `safety_count_max_`, and not before.
  pub moving_stops :
      (q0 q1 q2 q3 q4 q5 acc : D) (ms : List (List ℕ)) (th : Thread D)
      → IsListening th
      → moves q0 q1 q2 q3 q4 q5 ≡ true
      → length (speed_command th.rt.robot_state.version q0 q1 q2 q3 q4 q5 acc) < 1024
      → All IsMessage ms
      → length ms < 2 ^ 32
      → let version = th.rt.robot_state.version in
        (t : Thread D) × (run (speed_set q0 q1 q2 q3 q4 q5 acc ∷ map answered ms) th ≡ ok t)
        × (t.rt.sent
            ≡ (th.rt.sent ++ (speed_command version q0 q1 q2 q3 q4 q5 acc ∷ []))
              ++ (if ltb th.rt.safety_count_max (length ms) then stop_command version ∷ [] else []))
  unfolding run
  moving_stops q0 q1 q2 q3 q4 q5 acc ms th l going short h low =
      let version = th.rt.robot_state.version in
      let next = started (speed_command version q0 q1 q2 q3 q4 q5 acc) th in
      let (t, runs, l', count, sent) =
        watchdog ms next (started-IsListening _ th l) h (omega arith) in
      (
        t,
        rw (step-started q0 q1 q2 q3 q4 q5 acc th l going short) runs,
        sent ∙ ap (◌++◌ next.rt.sent) (all_stops next.rt (length ms) refl),
      )
