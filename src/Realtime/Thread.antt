-- ===== src/Realtime/Thread.antt =====
-- The communication thread, `UrRealtimeCommunication::run`: one event is what a blocking call
-- answers, or what another thread does meanwhile.
use ur_modern_driver.Common.{
  ℕ, ◌+◌, true, false, List, [], ◌∷◌, Outcome, ok, ◌>>=◌, overlay, ◌==◌, if◌then◌else◌, u32,
  replicate,
}
use ur_modern_driver.Common.Int.{ℤ, pos, ltb_ℤ}
use ur_modern_driver.Double.{Platform}
use ur_modern_driver.RobotStateRt.Unpack.{unpack}
use ur_modern_driver.Realtime.Defs.{Realtime, add_command_to_queue, set_speed}

-- Which loop the thread is in.
pub data Phase : Type 0 where
  reading reconnecting finished : Phase

pub record Thread (D : Type 0) : Type 0 where
  pub rt : Realtime D
  -- The bytes of `buf`: a shorter message leaves the end of a longer one behind it.
  pub buf : List ℕ
  pub phase : Phase

pub data Event (D : Type 0) : Type 0 where
  -- `read` gives these bytes; none at all for a result of 0 or less.
  answered : List ℕ → Event D
  -- A connection was tried, and this is the socket's pending error.
  attempted : ℤ → Event D
  -- Calls by other threads: `halt`, `addCommandToQueue` and `setSpeed`.
  halted : Event D
  commanded : List ℕ → Event D
  speed_set : D → D → D → D → D → D → D → Event D

module _ {D : Type 0} ⦃d : Platform D⦄ where
  open d use {lit}

  unfoldable pub stop : Realtime D → Outcome (Realtime D)
  stop = set_speed (lit 0 0) (lit 0 0) (lit 0 0) (lit 0 0) (lit 0 0) (lit 0 0) (lit 100 0)

  -- After `unpack`: the watchdog, and the counter, which wraps.
  unfoldable pub count_message : Realtime D → Outcome (Realtime D)
  count_message rt = do
    rt ← if rt.safety_count == rt.safety_count_max then stop rt else ok rt
    ok (record rt { safety_count = u32 (rt.safety_count + 1) })

  -- The body of the inner loop.
  unfoldable pub round : List ℕ → Thread D → Outcome (Thread D)
  round [] th = ok (record th { rt = record (th.rt) { connected = false } })
  round (b ∷ bs) th = do
    let buf = overlay (b ∷ bs) th.buf
    let rt = th.rt
    state ← unpack buf rt.robot_state
    rt ← count_message (record rt { robot_state = state })
    ok (record th { rt = rt; buf = buf })

  -- The body of the loop that connects again.
  unfoldable pub reconnect : ℤ → Thread D → Thread D
  reconnect flag th =
      if ltb_ℤ flag (pos 0) then th else record th { rt = record (th.rt) { connected = true } }

  -- The tests of the loops: where control goes next, the last commands of `run` included.
  unfoldable pub settle : Thread D → Outcome (Thread D)
  settle th =
      if th.rt.keepalive
      then ok (record th { phase = if th.rt.connected then reading else reconnecting })
      else (do rt ← stop th.rt; ok (record th { rt = rt; phase = finished }))

  -- The start of `run`.
  unfoldable pub begin : Realtime D → Outcome (Thread D)
  begin rt =
      settle
        (record { rt = record rt { connected = true }; buf = replicate 2048 0; phase = reading })

  unfoldable pub on_answer : Phase → List ℕ → Thread D → Outcome (Thread D)
  on_answer reading bytes th = do th ← round bytes th; settle th
  on_answer _ bytes th = ok th

  unfoldable pub on_attempt : Phase → ℤ → Thread D → Outcome (Thread D)
  on_attempt reconnecting flag th = settle (reconnect flag th)
  on_attempt _ flag th = ok th

  unfoldable pub step : Event D → Thread D → Outcome (Thread D)
  step (answered bytes) th = on_answer th.phase bytes th
  step (attempted flag) th = on_attempt th.phase flag th
  step halted th = ok (record th { rt = record (th.rt) { keepalive = false } })
  step (commanded inp) th = do rt ← add_command_to_queue inp th.rt; ok (record th { rt = rt })
  step (speed_set q0 q1 q2 q3 q4 q5 acc) th = do
    rt ← set_speed q0 q1 q2 q3 q4 q5 acc th.rt
    ok (record th { rt = rt })

  unfoldable pub run : List (Event D) → Thread D → Outcome (Thread D)
  run [] th = ok th
  run (e ∷ es) th = do th ← step e th; run es th
