-- ===== src/Common/Bytes.antt =====
-- Byte buffers: `memcpy` out of an array, and the byte orders of netinet/in.h and endian.h. The
-- host is little-endian, as the code's byte-wise writes suppose.
use Prim.Native.Nat.{ℕ, zero, suc, ◌+◌, ◌*◌, ◌/◌, ◌%◌, ◌^◌, ◌≤◌, ◌<◌}
use mathlib.Core.Path.{◌≡◌, refl}
use mathlib.Core.List.{List, [], ◌∷◌, ◌++◌}
use native.Mathlib.Omega.{arith}
use ur_modern_driver.Common.Tests.{leb, le→leb, lt→leb, if◌then◌else◌}
use ur_modern_driver.Common.Lists.{
  length, take, drop, All, length-take, length-drop, length-append, All-append, All-drop,
}
use ur_modern_driver.Common.Outcomes.{Outcome, ok, fault, ◌>>=◌, Returns, returns}

abbrev pub u16 : ℕ → ℕ
u16 n = n % 2 ^ 16

abbrev pub u32 : ℕ → ℕ
u32 n = n % 2 ^ 32

-- `n` bytes at `offset` of an array; reading past its end is a fault.
unfoldable pub copy_bytes : List ℕ → ℕ → ℕ → Outcome (List ℕ)
copy_bytes buf offset n =
    if leb (offset + n) (length buf) then ok (take n (drop offset buf)) else fault

-- The number whose bytes these are, the lowest first.
pub le_value : List ℕ → ℕ
le_value [] = 0
le_value (b ∷ bs) = b + 256 * le_value bs

-- The first `n` bytes of a number, the lowest first.
unfoldable pub le_bytes : ℕ → ℕ → List ℕ
le_bytes zero x = []
le_bytes (suc n) x = x % 256 ∷ le_bytes n (x / 256)

pub be_value_from : ℕ → List ℕ → ℕ
be_value_from acc [] = acc
be_value_from acc (b ∷ bs) = be_value_from (acc * 256 + b) bs

-- The number whose bytes these are, the highest first.
unfoldable pub be_value : List ℕ → ℕ
unfolding be_value_from
be_value bs = be_value_from 0 bs

-- `ntohs`, `ntohl`, `htonl` and `be64toh` on a little-endian host: the bytes change order.
unfoldable pub swap_bytes : ℕ → ℕ → ℕ
unfolding le_bytes be_value
swap_bytes n x = be_value (le_bytes n x)

-- `memcpy` into an integer of `n` bytes.
unfoldable pub load : ℕ → List ℕ → ℕ → Outcome ℕ
unfolding copy_bytes le_value
load n buf offset = do bs ← copy_bytes buf offset n; ok (le_value bs)

pub copy_bytes-Returns :
    (buf : List ℕ) (offset n : ℕ)
    → offset + n ≤ length buf
    → Returns (λ bs. length bs ≡ n) (copy_bytes buf offset n)
unfolding copy_bytes
copy_bytes-Returns buf offset n h =
    rw (le→leb (offset + n) (length buf) h)
      (returns (length-take n (drop offset buf) (omega (arith, length-drop offset buf))))

pub load-eq-ok :
    (n : ℕ) (buf : List ℕ) (offset : ℕ)
    → offset + n ≤ length buf
    → load n buf offset ≡ ok (le_value (take n (drop offset buf)))
unfolding load copy_bytes
load-eq-ok n buf offset h = rw (le→leb (offset + n) (length buf) h)

pub load-eq-fault :
    (n : ℕ) (buf : List ℕ) (offset : ℕ) → length buf < offset + n → load n buf offset ≡ fault
unfolding load copy_bytes
load-eq-fault n buf offset h = rw (lt→leb (offset + n) (length buf) h)

-- `read` into an array: what it gives, in front of what the array held behind it.
abbrev pub overlay : List ℕ → List ℕ → List ℕ
overlay bytes buf = bytes ++ drop (length bytes) buf

abbrev pub IsByte : ℕ → Type 0
IsByte b = b < 256

-- A number is read back from the bytes that it was written in.
pub le_bytes-le_value : (bs : List ℕ) → All IsByte bs → le_bytes (length bs) (le_value bs) ≡ bs
unfolding le_bytes le_value
le_bytes-le_value [] h = refl
le_bytes-le_value (b ∷ bs) (hb, hs) =
    let here : (b + 256 * le_value bs) % 256 ≡ b = omega arith in
    let next : (b + 256 * le_value bs) / 256 ≡ le_value bs = omega arith in
    rw (here, next, le_bytes-le_value bs hs)

-- `memcpy` and then the change of byte order give the number in network order.
pub swap_bytes-le_value :
    (n : ℕ) (bs : List ℕ) → length bs ≡ n → All IsByte bs → swap_bytes n (le_value bs) ≡ be_value bs
unfolding swap_bytes
swap_bytes-le_value n bs e h = rw (← e) (rw (le_bytes-le_value bs h))

-- The bytes that a 32-bit value has after `htonl`, the lowest first, are its network order.
pub be_value-htonl : (x : ℕ) → be_value (le_bytes 4 (swap_bytes 4 x)) ≡ u32 x
unfolding swap_bytes
be_value-htonl x = omega arith

pub overlay-size :
    (m buf : List ℕ) → length m ≤ 2048 → length buf ≡ 2048 → length (overlay m buf) ≡ 2048
overlay-size m buf h e =
    omega (arith, length-append m (drop (length m) buf), length-drop (length m) buf)

pub overlay-bytes : (m buf : List ℕ) → All IsByte m → All IsByte buf → All IsByte (overlay m buf)
overlay-bytes m buf hm hb =
    All-append IsByte m (drop (length m) buf) hm (All-drop IsByte (length m) buf hb)
