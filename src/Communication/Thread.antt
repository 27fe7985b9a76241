-- ===== src/Communication/Thread.antt =====
-- The thread of the secondary port, `UrCommunication::run`: one event is what a blocking call
-- answers, or what another thread does meanwhile.
use ur_modern_driver.Common.{
  ℕ, true, false, List, [], ◌∷◌, Outcome, ok, ◌>>=◌, if◌then◌else◌, length, replicate, overlay,
}
use ur_modern_driver.Common.Int.{ℤ, pos, ltb_ℤ}
use ur_modern_driver.Double.{Platform}
use ur_modern_driver.RobotState.Defs.{set_disconnected, finished_reading as finish_reading}
use ur_modern_driver.RobotState.Unpack.{unpack}
use ur_modern_driver.Communication.Defs.{UrCommunication}

-- Which loop the thread is in.
pub data Phase : Type 0 where
  reading reconnecting finished : Phase

pub record Thread (D : Type 0) : Type 0 where
  pub sec : UrCommunication D
  pub buf : List ℕ
  pub phase : Phase

pub data Event : Type 0 where
  -- `read` gives these bytes; none at all for a result of 0 or less.
  answered : List ℕ → Event
  -- A connection was tried, and this is the socket's pending error.
  attempted : ℤ → Event
  -- Calls by other threads: `halt`, and `finishedReading` of the robot's state.
  halted : Event
  published : Event

module _ {D : Type 0} ⦃d : Platform D⦄ where
  -- The body of the inner loop.
  unfoldable pub round : List ℕ → Thread D → Outcome (Thread D)
  round [] th =
      let sec = th.sec in
      ok (record th {
        sec = record sec { connected = false; robot_state = set_disconnected sec.robot_state };
      })
  round (b ∷ bs) th = do
    let buf = overlay (b ∷ bs) th.buf
    let sec = th.sec
    state ← unpack buf (length (b ∷ bs)) sec.robot_state
    ok (record th { sec = record sec { robot_state = state }; buf = buf })

module _ {D : Type 0} where
  -- The body of the loop that connects again.
  unfoldable pub reconnect : ℤ → Thread D → Thread D
  reconnect flag th =
      if ltb_ℤ flag (pos 0) then th else record th { sec = record (th.sec) { connected = true } }

  -- The tests of the loops: where control goes next.
  unfoldable pub settle : Thread D → Thread D
  settle th = record th {
    phase =
        if th.sec.keepalive then (if th.sec.connected then reading else reconnecting) else finished;
  }

  -- The start of `run`.
  unfoldable pub begin : UrCommunication D → Thread D
  begin sec =
      settle
        (record { sec = record sec { connected = true }; buf = replicate 2048 0; phase = reading })

  unfoldable pub on_attempt : Phase → ℤ → Thread D → Thread D
  on_attempt reconnecting flag th = settle (reconnect flag th)
  on_attempt _ flag th = th

module _ {D : Type 0} ⦃d : Platform D⦄ where
  unfoldable pub on_answer : Phase → List ℕ → Thread D → Outcome (Thread D)
  on_answer reading bytes th = do th ← round bytes th; ok (settle th)
  on_answer _ bytes th = ok th

  unfoldable pub step : Event → Thread D → Outcome (Thread D)
  step (answered bytes) th = on_answer th.phase bytes th
  step (attempted flag) th = ok (on_attempt th.phase flag th)
  step halted th = ok (record th { sec = record (th.sec) { keepalive = false } })
  step published th =
      let sec = th.sec in
      ok (record th { sec = record sec { robot_state = finish_reading sec.robot_state } })

  unfoldable pub run : List Event → Thread D → Outcome (Thread D)
  run [] th = ok th
  run (e ∷ es) th = do th ← step e th; run es th
