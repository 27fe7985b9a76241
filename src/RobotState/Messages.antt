-- ===== src/RobotState/Messages.antt =====
-- The loop of `unpack` over the messages of a buffer.
use ur_modern_driver.Common.{
  ℕ, zero, suc, ◌+◌, ◌^◌, ◌≤◌, ◌<◌, ◌≡◌, ◌≢◌, ◌⊎◌, inl, inr, refl, ◌∙◌, false, List, [], ◌∷◌,
  Outcome, ok, stuck, bind-congr, ◌>>=◌, arith, ltb, lt→ltb, u32, length, load,
}
use native.Mathlib.Nat.{add-zero}
use ur_modern_driver.Double.{Platform}
use ur_modern_driver.RobotState.Defs.{RobotState, robot_message, robot_state_message}
use ur_modern_driver.RobotState.Packages.{load_swapped}
use ur_modern_driver.RobotState.Unpack.{unpack_message, message_round, message_loop, unpack}
use ur_modern_driver.RobotState.Framing.{Frame, AreFrames, frames-fit, for_frames}

-- At `offset` the new bytes end, or the length that the buffer gives there goes past them.
abbrev pub IsTail : List ℕ → ℕ → ℕ → Type 0
IsTail buf buf_length offset =
    (buf_length ≤ offset)
    ⊎ ((len : ℕ) × (offset < buf_length)
        × (load_swapped 4 buf offset ≡ ok len)
        × (buf_length < len + offset)
        × (len + offset < 2 ^ 32))

module _ {D : Type 0} ⦃d : Platform D⦄ where
  -- A round at a message that is not complete, and at one that is.
  message_round-part :
      (rest : ℕ → RobotState D → Outcome (RobotState D)) (buf : List ℕ) (buf_length offset len : ℕ)
      (s : RobotState D)
      → buf_length < len + offset
      → len + offset < 2 ^ 32
      → message_round rest buf buf_length offset len s ≡ ok s
  unfolding message_round
  message_round-part rest buf buf_length offset len s past small =
      let kept : u32 (len + offset) ≡ len + offset = omega arith in
      rw (kept, lt→ltb buf_length (len + offset) past)

  message_round-whole :
      (rest : ℕ → RobotState D → Outcome (RobotState D)) (buf : List ℕ) (buf_length offset : ℕ)
      (f : Frame) (s : RobotState D)
      → offset + f.size ≤ buf_length
      → buf_length < 2 ^ 32
      → load 1 buf (offset + 4) ≡ ok f.kind
      → message_round rest buf buf_length offset f.size s
        ≡ (unpack_message f.kind buf offset f.size s >>= rest (offset + f.size))
  unfolding message_round
  message_round-whole rest buf buf_length offset f s fits small e =
      let kept : u32 (offset + f.size) ≡ offset + f.size = omega arith in
      let within : ltb buf_length (u32 (f.size + offset)) ≡ false = ground arith in
      rw (within, e, kept)

  message_loop-tail :
      (fuel : ℕ) (buf : List ℕ) (buf_length offset : ℕ) (s : RobotState D)
      → IsTail buf buf_length offset
      → message_loop (suc fuel) buf buf_length offset s ≡ ok s
  unfolding message_loop
  message_loop-tail fuel buf buf_length offset s (inl h) = ground arith
  message_loop-tail fuel buf buf_length offset s (inr (len, l, e, past, small)) =
      rw (lt→ltb offset buf_length l, message_loop, e)
        (message_round-part (message_loop fuel buf buf_length) buf buf_length offset len s past
          small)

  message_loop-step :
      (fuel : ℕ) (buf : List ℕ) (buf_length offset : ℕ) (f : Frame) (s : RobotState D)
      → offset < buf_length
      → offset + f.size ≤ buf_length
      → buf_length < 2 ^ 32
      → load_swapped 4 buf offset ≡ ok f.size
      → load 1 buf (offset + 4) ≡ ok f.kind
      → message_loop (suc fuel) buf buf_length offset s ≡ (
          unpack_message f.kind buf offset f.size s
          >>= message_loop fuel buf buf_length (offset + f.size))
  unfolding message_loop
  message_loop-step fuel buf buf_length offset f s l fits small e1 e2 =
      let rest = message_loop fuel buf buf_length in
      rw (lt→ltb offset buf_length l, message_loop, e1)
        (message_round-whole rest buf buf_length offset f s fits small e2)

  message_loop-eq-for_frames :
      (fuel : ℕ) (buf : List ℕ) (buf_length offset stop : ℕ) (fs : List Frame) (s : RobotState D)
      → length fs < fuel
      → stop ≤ buf_length
      → buf_length < 2 ^ 32
      → AreFrames buf offset stop fs
      → IsTail buf buf_length stop
      → message_loop fuel buf buf_length offset s
        ≡ for_frames (λ f o. unpack_message f.kind buf o f.size) offset fs s
  unfolding for_frames
  message_loop-eq-for_frames zero buf n offset stop fs s h l small fr t = absurd (omega arith)
  message_loop-eq-for_frames (suc fuel) buf n offset stop [] s h l small fr t =
      rw (fr) (message_loop-tail fuel buf n stop s t)
  message_loop-eq-for_frames (suc fuel) buf n offset stop (f ∷ fs) s h l small (e1, e2, e3, e4, fr)
        t =
      let first = message_loop-step fuel buf n offset f s (omega arith) (omega arith) small e1 e2 in
      first
      ∙ bind-congr (unpack_message f.kind buf offset f.size s) (λ s'.
        message_loop-eq-for_frames fuel buf n (offset + f.size) stop fs s' (omega arith) l small fr
          t)

  -- New bytes that begin with whole messages of at least five bytes each, in less than 4 GiB. Behind
  -- the last of them the new bytes end, or the four bytes that stand there in the buffer, whether all
  -- of them are new or not, give a length that goes past the new bytes. Then `unpack` handles each
  -- whole message once, in order, and does nothing else.
  pub unpack-eq-for_frames :
      (buf : List ℕ) (buf_length stop : ℕ) (fs : List Frame) (s : RobotState D)
      → buf_length ≤ length buf
      → stop ≤ buf_length
      → buf_length < 2 ^ 32
      → AreFrames buf 0 stop fs
      → IsTail buf buf_length stop
      → unpack buf buf_length s ≡ for_frames (λ f o. unpack_message f.kind buf o f.size) 0 fs s
  unfolding unpack
  unpack-eq-for_frames buf buf_length stop fs s h l small fr t =
      let enough : length fs < length buf + 1 = omega (arith, frames-fit buf 0 stop fs fr) in
      message_loop-eq-for_frames (length buf + 1) buf buf_length 0 stop fs s enough l small fr t

  unpack_message-ignores :
      (kind : ℕ) (buf : List ℕ) (offset len : ℕ) (s : RobotState D)
      → kind ≢ robot_message
      → kind ≢ robot_state_message
      → unpack_message kind buf offset len s ≡ ok s
  unfolding unpack_message
  unpack_message-ignores kind buf offset len s h1 h2 = ground arith

  -- A message that states the length 0 and is of a type that is not handled: whatever the fuel, the
  -- loop of `unpack` does not end, since it stays at that message.
  pub message_loop-stays :
      (fuel : ℕ) (buf : List ℕ) (buf_length offset kind : ℕ) (s : RobotState D)
      → offset < buf_length
      → buf_length < 2 ^ 32
      → load_swapped 4 buf offset ≡ ok 0
      → load 1 buf (offset + 4) ≡ ok kind
      → kind ≢ robot_message
      → kind ≢ robot_state_message
      → message_loop fuel buf buf_length offset s ≡ stuck
  unfolding message_loop
  message_loop-stays zero buf n offset kind s l small e1 e2 h1 h2 = refl
  message_loop-stays (suc fuel) buf n offset kind s l small e1 e2 h1 h2 =
      let f : Frame = record { kind = kind; size = 0 } in
      let first = message_loop-step fuel buf n offset f s l (omega arith) small e1 e2 in
      rw (first, unpack_message-ignores kind buf offset 0 s h1 h2, add-zero offset)
        (message_loop-stays fuel buf n offset kind s l small e1 e2 h1 h2)
