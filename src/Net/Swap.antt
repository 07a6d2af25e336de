-- ===== src/Net/Swap.antt =====
-- include/net/swap.h: byte order.
use aijak.Common.{ℕ, ◌+◌, ◌*◌, ◌/◌, ◌%◌, ◌^◌, ◌<◌, ◌≡◌, arith, bit_or, u8, u16, u32}
use aijak.Common.{◌<<<◌, ◌>>>◌}
use aijak.Common.Bits.{bit_or-add, bit_or-add_right}

unfoldable pub net_swap16 : ℕ → ℕ
net_swap16 x = u16 (bit_or (x >>> 8) (x <<< 8))

-- The bytes of the union, at a little-endian layout.
abbrev pub byte_of : ℕ → ℕ → ℕ
byte_of x i = u8 (x >>> (8 * i))

unfoldable pub net_swap32 : ℕ → ℕ
net_swap32 x = u32 (
    bit_or (bit_or (bit_or (byte_of x 0 <<< 24) (byte_of x 1 <<< 16)) (byte_of x 2 <<< 8))
      (byte_of x 3))

-- The bytes of a 16-bit word change places.
pub net_swap16_bytes :
    (lo hi : ℕ) → lo < 256 → hi < 256 → net_swap16 (lo + 256 * hi) ≡ hi + 256 * lo
unfolding net_swap16
net_swap16_bytes lo hi hl hh =
    omega (arith, bit_or-add_right 8 (lo + 256 * hi) ((lo + 256 * hi) / 256) (omega arith))

pub net_swap16-lt : (x : ℕ) → net_swap16 x < 2 ^ 16
unfolding net_swap16
net_swap16-lt x = omega arith

pub net_swap16_swap : (x : ℕ) → x < 2 ^ 16 → net_swap16 (net_swap16 x) ≡ x
net_swap16_swap x h =
    let once = net_swap16_bytes (x % 256) (x / 256) (omega arith) (omega arith) in
    let twice = net_swap16_bytes (x / 256) (x % 256) (omega arith) (omega arith) in
    let whole : x % 256 + 256 * (x / 256) ≡ x = omega arith in ground (arith, once, twice, whole)

net_swap32_sum :
    (x : ℕ)
    → net_swap32 x ≡ byte_of x 3 + 256 * byte_of x 2 + 65536 * byte_of x 1 + 16777216 * byte_of x 0
unfolding net_swap32
net_swap32_sum x =
    let a = byte_of x 0 in
    let b = byte_of x 1 in
    let c = byte_of x 2 in
    let one : bit_or (a <<< 24) (b <<< 16) ≡ (a * 256 + b) <<< 16 =
      omega (arith, bit_or-add 24 a (b * 2 ^ 16) (omega arith)) in
    let two : bit_or ((a * 256 + b) <<< 16) (c <<< 8) ≡ ((a * 256 + b) * 256 + c) <<< 8 =
      omega (arith, bit_or-add 16 (a * 256 + b) (c * 2 ^ 8) (omega arith)) in
    rw (one, two)
      (omega (arith, bit_or-add 8 ((a * 256 + b) * 256 + c) (byte_of x 3) (omega arith)))

-- Swapping twice gives every 32-bit word back.
pub net_swap32_swap : (x : ℕ) → x < 2 ^ 32 → net_swap32 (net_swap32 x) ≡ x
net_swap32_swap x h = omega (arith, net_swap32_sum x, net_swap32_sum (net_swap32 x))
