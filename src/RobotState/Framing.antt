-- ===== src/RobotState/Framing.antt =====
-- Messages and packages: how `unpack` and `unpackRobotState` walk over what a buffer holds.
use ur_modern_driver.Common.{
  ℕ, zero, suc, ◌+◌, ◌*◌, ◌^◌, ◌≤◌, ◌<◌, ◌≡◌, ◌∙◌, true, List, [], ◌∷◌, Outcome, ok, bind-congr,
  bind-bind, ◌>>=◌, arith, lt→ltb, u32, length, load,
}
use native.Mathlib.Numerals.{add-one}
use ur_modern_driver.Double.{Platform}
use ur_modern_driver.RobotState.Defs.{RobotState}
use ur_modern_driver.RobotState.Packages.{load_swapped}
use ur_modern_driver.RobotState.Unpack.{
  unpack_package, package_round, package_loop, unpack_robot_state,
}

-- A package or a message: its type and its length, which counts the five bytes of the header.
pub record Frame : Type 0 where
  pub kind : ℕ
  pub size : ℕ

-- From `offset` up to `stop` the buffer holds these frames, one after the other.
abbrev pub AreFrames : List ℕ → ℕ → ℕ → List Frame → Type 0
AreFrames buf offset stop [] = offset ≡ stop
AreFrames buf offset stop (f ∷ fs) =
    (load_swapped 4 buf offset ≡ ok f.size)
    × (load 1 buf (offset + 4) ≡ ok f.kind)
    × (5 ≤ f.size)
    × (offset + f.size ≤ stop)
    × AreFrames buf (offset + f.size) stop fs

-- A handler at each frame, in order.
unfoldable pub for_frames {ℓ} :
    {S : Type ℓ} → (Frame → ℕ → S → Outcome S) → ℕ → List Frame → S → Outcome S
for_frames handle offset [] s = ok s
for_frames handle offset (f ∷ fs) s = do
  s ← handle f offset s
  for_frames handle (offset + f.size) fs s

pub frames-fit :
    (buf : List ℕ) (offset stop : ℕ) (fs : List Frame)
    → AreFrames buf offset stop fs
    → offset + 5 * length fs ≤ stop
frames-fit buf offset stop [] h = omega arith
frames-fit buf offset stop (f ∷ fs) h = omega (arith, frames-fit buf (offset + f.size) stop fs h.4)

module _ {D : Type 0} ⦃d : Platform D⦄ where
  package_round-eq :
      (buf : List ℕ) (offset : ℕ) (f : Frame) (s : RobotState D)
      → load_swapped 4 buf offset ≡ ok f.size
      → load 1 buf (offset + 4) ≡ ok f.kind
      → package_round buf offset s
        ≡ (unpack_package f.kind buf offset s >>= λ s'. ok (s', u32 (offset + f.size)))
  unfolding package_round
  package_round-eq buf offset f s e1 e2 = rw (e1, e2)

  package_loop-stop :
      (fuel : ℕ) (buf : List ℕ) (stop : ℕ) (s : RobotState D)
      → package_loop (suc fuel) buf stop stop s ≡ ok s
  unfolding package_loop
  package_loop-stop fuel buf stop s = ground arith

  -- What is left to do once the frame at the offset is known.
  package_loop-step :
      (fuel : ℕ) (buf : List ℕ) (offset stop : ℕ) (f : Frame) (s : RobotState D)
      → offset < stop
      → load_swapped 4 buf offset ≡ ok f.size
      → load 1 buf (offset + 4) ≡ ok f.kind
      → u32 (offset + f.size) ≡ offset + f.size
      → package_loop (suc fuel) buf offset stop s ≡ (
          unpack_package f.kind buf offset s >>= λ s'.
          package_loop fuel buf (offset + f.size) stop s')
  unfolding package_loop
  package_loop-step fuel buf offset stop f s l e1 e2 e3 =
      rw (lt→ltb offset stop l, package_loop, package_round-eq buf offset f s e1 e2)
        (bind-bind (unpack_package f.kind buf offset s) (λ s'. ok (s', u32 (offset + f.size)))
            (λ r. package_loop fuel buf r.1 stop r.0)
          ∙ bind-congr (unpack_package f.kind buf offset s) (λ s'. rw (e3)))

  -- The loop over the packages, on enough fuel, is `unpack_package` at each package in order.
  pub package_loop-eq-for_frames :
      (fuel : ℕ) (buf : List ℕ) (offset stop : ℕ) (fs : List Frame) (s : RobotState D)
      → length fs < fuel
      → stop < 2 ^ 32
      → AreFrames buf offset stop fs
      → package_loop fuel buf offset stop s
        ≡ for_frames (λ f o. unpack_package f.kind buf o) offset fs s
  unfolding for_frames
  package_loop-eq-for_frames zero buf offset stop fs s h l fr = absurd (omega arith)
  package_loop-eq-for_frames (suc fuel) buf offset stop [] s h l fr =
      rw (fr) (package_loop-stop fuel buf stop s)
  package_loop-eq-for_frames (suc fuel) buf offset stop (f ∷ fs) s h l (e1, e2, e3, e4, fr) =
      let next = package_loop-step fuel buf offset stop f s (omega arith) e1 e2 (omega arith) in
      next
      ∙ bind-congr (unpack_package f.kind buf offset s) (λ s'.
        package_loop-eq-for_frames fuel buf (offset + f.size) stop fs s' (omega arith) l fr)

  -- What `unpackRobotState` does at its end.
  abbrev pub announce : RobotState D → RobotState D
  announce s = record s { new_data_available = true; notified = s.notified + 1 }

  -- A state message at the start of the buffer whose packages fill it, in a buffer of less than
  -- 4 GiB: `unpackRobotState` unpacks each package once, in order, and then announces new data.
  pub unpack_robot_state-eq-for_frames :
      (buf : List ℕ) (len : ℕ) (fs : List Frame) (s : RobotState D)
      → len ≤ length buf
      → len < 2 ^ 32
      → AreFrames buf 5 len fs
      → unpack_robot_state buf 0 len s
        ≡ (for_frames (λ f o. unpack_package f.kind buf o) 5 fs s >>= λ s'. ok (announce s'))
  unfolding unpack_robot_state
  unpack_robot_state-eq-for_frames buf len fs s h l fr =
      let enough : length fs < length buf + 1 = omega (arith, frames-fit buf 5 len fs fr) in
      rw (package_loop-eq-for_frames (length buf + 1) buf 5 len fs s enough l fr)

  package_loop-past :
      (fuel : ℕ) (buf : List ℕ) (offset stop : ℕ) (s : RobotState D)
      → stop ≤ offset
      → package_loop (suc fuel) buf offset stop s ≡ ok s
  unfolding package_loop
  package_loop-past fuel buf offset stop s h = ground arith

  -- A state message at an offset that is not less than its length without the header: no package of
  -- it is unpacked, and new data is announced all the same. The loop compares an offset from
  -- the start of the buffer to the length of the message.
  pub unpack_robot_state_skips :
      (buf : List ℕ) (offset len : ℕ) (s : RobotState D)
      → len ≤ offset + 5
      → offset + 5 < 2 ^ 32
      → unpack_robot_state buf offset len s ≡ ok (announce s)
  unfolding unpack_robot_state
  unpack_robot_state_skips buf offset len s h l =
      let kept : u32 (offset + 5) ≡ offset + 5 = omega arith in
      rw (kept, add-one (length buf), package_loop-past (length buf) buf (offset + 5) len s h)
