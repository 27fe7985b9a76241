-- ===== src/Realtime/Listening.antt =====
-- A message that the waiting thread of `run` takes: the state that it is unpacked to, and the count of
-- the watchdog.
use ur_modern_driver.Common.{
  ℕ, suc, ◌+◌, ◌^◌, ◌≤◌, ◌<◌, ◌≡◌, refl, true, false, ◌&&◌, List, [], ◌∷◌, ◌++◌, ok, arith,
  if◌then◌else◌, ◌==◌, ltb, leb, Bool-cases, inl, inr, u32, overlay, overlay-size, overlay-bytes,
  length, All, All-take, IsByte,
}
use mathlib.Core.List.{append-nil}
use ur_modern_driver.Double.{Platform, IsOrdered}
use ur_modern_driver.RobotStateRt.Defs.{RobotStateRt}
use ur_modern_driver.RobotStateRt.Unpack.{unpack}
use ur_modern_driver.RobotStateRt.Shape.{IsValid, unpack-IsValid}
use ur_modern_driver.Realtime.Defs.{Realtime, speed_command, moves}
use ur_modern_driver.Realtime.Commands.{deliver, set_speed-eq-ok, stop-fits}
use ur_modern_driver.Realtime.Thread.{
  reading, Thread, answered, stop, count_message, round, settle, on_answer, step,
}

-- A state that is not locked, over a buffer of 2048 bytes.
pub record IsReady {D : Type 0} (th : Thread D) : Type 0 where
  pub free : th.rt.robot_state.val_lock ≡ false
  pub valid : IsValid th.rt.robot_state
  pub size : length th.buf ≡ 2048
  pub bytes : All IsByte th.buf

-- What one `read` can give.
abbrev pub IsMessage : List ℕ → Type 0
IsMessage m = (0 < length m) × (length m ≤ 2048) × All IsByte m

-- One step of the count towards its maximum, as a statement about lists.
once :
    (c limit n : ℕ) (sent : List (List ℕ)) (command : List ℕ)
    → (if (c == limit) && true then sent ++ (command ∷ []) else sent)
        ++ (if leb (c + 1) limit && ltb limit (c + 1 + n) then command ∷ [] else [])
      ≡ sent ++ (if leb c limit && ltb limit (c + suc n) then command ∷ [] else [])
once c limit n sent command = ground (arith, append-nil sent, append-nil (sent ++ (command ∷ [])))

-- The thread waits for a message on a connection that nobody has closed.
pub record IsListening {D : Type 0} (th : Thread D) : Type 0 where
  pub ready : IsReady th
  pub phase : th.phase ≡ reading
  pub keepalive : th.rt.keepalive ≡ true
  pub connected : th.rt.connected ≡ true

module _ {D : Type 0} ⦃d : Platform D⦄ where
  open d use {lit, eq}

  -- All joint speeds 0, with the default acceleration.
  pub stop_command : D → List ℕ
  stop_command version =
      speed_command version (lit 0 0) (lit 0 0) (lit 0 0) (lit 0 0) (lit 0 0) (lit 0 0) (lit 100 0)

  -- The stop command is among the next n messages' effects exactly if the count reaches its
  -- maximum at one of them.
  abbrev pub stops : Realtime D → ℕ → List (List ℕ)
  stops rt n =
      if leb rt.safety_count rt.safety_count_max && ltb rt.safety_count_max (rt.safety_count + n)
      then stop_command rt.robot_state.version ∷ []
      else []

  -- What a message does to the counter and to the socket.
  abbrev counted : Realtime D → Realtime D
  counted rt = record rt {
    safety_count = u32 (rt.safety_count + 1);
    sent =
        if (rt.safety_count == rt.safety_count_max) && rt.connected
        then rt.sent ++ (stop_command rt.robot_state.version ∷ [])
        else rt.sent;
  }

  -- The thread after a message, given the state that was unpacked from it.
  pub heard : List ℕ → RobotStateRt D → Thread D → Thread D
  heard m state th = record th {
    rt = counted (record (th.rt) { robot_state = state });
    buf = overlay m th.buf;
    phase = reading;
  }

  pub unpacked :
      (th : Thread D) (m : List ℕ)
      → IsReady th
      → IsMessage m
      → (t : RobotStateRt D) × (unpack (overlay m th.buf) th.rt.robot_state ≡ ok t)
        × IsValid t
        × (t.val_lock ≡ false)
        × (t.version ≡ th.rt.robot_state.version)
  unpacked th m r h =
      unpack-IsValid (overlay m th.buf) th.rt.robot_state
        (omega (arith, overlay-size m th.buf h.1 r.size))
        (All-take IsByte 4 (overlay m th.buf) (overlay-bytes m th.buf h.2 r.bytes)) r.free r.valid

  pub heard-IsListening :
      (th : Thread D) (m : List ℕ) (t : RobotStateRt D)
      → IsListening th
      → IsMessage m
      → IsValid t
      → t.val_lock ≡ false
      → IsListening (heard m t th)
  unfolding heard
  heard-IsListening th m t l h v free = record {
    ready = record {
      free = free;
      valid = v;
      size = overlay-size m th.buf h.1 l.ready.size;
      bytes = overlay-bytes m th.buf h.2 l.ready.bytes;
    };
    phase = refl;
    keepalive = l.keepalive;
    connected = l.connected;
  }

  pub heard-stops :
      (th : Thread D) (m : List ℕ) (state : RobotStateRt D) (n : ℕ)
      → th.rt.safety_count + suc n < 2 ^ 32
      → th.rt.connected ≡ true
      → state.version ≡ th.rt.robot_state.version
      → let next = (heard m state th).rt in
        (next.safety_count ≡ th.rt.safety_count + 1)
        × (next.sent ++ stops next n ≡ th.rt.sent ++ stops th.rt (suc n))
  unfolding heard
  heard-stops th m state n low on same =
      let c = th.rt.safety_count in
      let wrap : u32 (c + 1) ≡ c + 1 = omega arith in
      (
        wrap,
        rw (on, same, wrap)
            (once c th.rt.safety_count_max n th.rt.sent (stop_command th.rt.robot_state.version)),
      )

  pub no_stop : (th : Thread D) → th.rt.sent ≡ th.rt.sent ++ stops th.rt 0
  no_stop th = ground (arith, append-nil th.rt.sent)

module _ {D : Type 0} ⦃d : Platform D⦄ (laws : IsOrdered d) where
  open d use {lit, eq}

  still : moves (lit 0 0) (lit 0 0) (lit 0 0) (lit 0 0) (lit 0 0) (lit 0 0) ≡ false
  unfolding moves
  still = rw (laws.eq_lit_refl 0 0)

  stop-eq-ok :
      (rt : Realtime D)
      → rt.robot_state.val_lock ≡ false
      → stop rt ≡ ok (deliver (stop_command rt.robot_state.version) rt)
  unfolding stop stop_command
  stop-eq-ok rt free = rw (
    set_speed-eq-ok _ _ _ _ _ _ (lit 100 0) rt free (stop-fits laws rt.robot_state.version),
    still,
  )

  count_message-eq-ok :
      (rt : Realtime D) → rt.robot_state.val_lock ≡ false → count_message rt ≡ ok (counted rt)
  unfolding count_message deliver
  count_message-eq-ok rt free =
      rw (stop-eq-ok rt free) (elim (Bool-cases (rt.safety_count == rt.safety_count_max)) [
        | inl e ↦ rw e (elim (Bool-cases rt.connected) [ inl f ↦ rw f | inr f ↦ rw f ])
        | inr e ↦ rw e
      ])

  pub step-heard :
      (th : Thread D) (m : List ℕ) (t : RobotStateRt D)
      → IsListening th
      → IsMessage m
      → unpack (overlay m th.buf) th.rt.robot_state ≡ ok t
      → t.val_lock ≡ false
      → step (answered m) th ≡ ok (heard m t th)
  unfolding step on_answer round settle heard
  step-heard th [] t l h e free = absurd (omega arith)
  step-heard th (b ∷ bs) t l h e free = rw (
    l.phase,
    e,
    count_message-eq-ok (record (th.rt) { robot_state = t }) free,
    l.keepalive,
    l.connected,
  )
