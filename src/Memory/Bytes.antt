-- ===== src/Memory/Bytes.antt =====
-- Memory as bytes at addresses, with the accesses of the compiler and the loops of
-- src/memory/memutils.c. The mutex of `memcpy` is the subject of Mutex.
use aijak.Common.{ℕ, zero, suc, ◌+◌, ◌*◌, ◌/◌, ◌^◌, ◌≤◌, ◌<◌, ◌≡◌, refl, ◌⊎◌, arith}
use aijak.Common.{◌==◌, if◌then◌else◌, u8}

abbrev pub Mem : Type 0
Mem = ℕ → ℕ

abbrev pub set_byte : Mem → ℕ → ℕ → Mem
set_byte m a v b = if b == a then v else m b

-- A little-endian `uint32`.
unfoldable pub read32 : Mem → ℕ → ℕ
read32 m a = m a + 256 * m (a + 1) + 65536 * m (a + 2) + 16777216 * m (a + 3)

unfoldable pub write32 : Mem → ℕ → ℕ → Mem
write32 m a v =
    set_byte
      (set_byte (set_byte (set_byte m a (u8 v)) (a + 1) (u8 (v / 2 ^ 8))) (a + 2) (u8 (v / 2 ^ 16)))
      (a + 3) (u8 (v / 2 ^ 24))

-- `while (num--) *p++ = (unsigned char)value;`
unfoldable pub memset : Mem → ℕ → ℕ → ℕ → Mem
memset m p value zero = m
memset m p value (suc num) = memset (set_byte m p (u8 value)) (p + 1) value num

-- `m'` is `m` but for the addresses from `lo` up to `hi`.
abbrev pub SameOutside : ℕ → ℕ → Mem → Mem → Type 0
SameOutside lo hi m m' = (b : ℕ) → (b < lo) ⊎ (hi ≤ b) → m' b ≡ m b

pub read32-write32 : (m : Mem) (a v : ℕ) → v < 2 ^ 32 → read32 (write32 m a v) a ≡ v
unfolding read32 write32
read32-write32 m a v h = ground arith

pub write32-SameOutside : (m : Mem) (a v : ℕ) → SameOutside a (a + 4) m (write32 m a v)
unfolding write32
write32-SameOutside m a v b out = ground arith

pub read32-eq :
    (m m' : Mem) (a : ℕ) → ((b : ℕ) → a ≤ b → b < a + 4 → m' b ≡ m b) → read32 m' a ≡ read32 m a
unfolding read32
read32-eq m m' a same = omega (
  arith,
  same a (omega arith) (omega arith),
  same (a + 1) (omega arith) (omega arith),
  same (a + 2) (omega arith) (omega arith),
  same (a + 3) (omega arith) (omega arith),
)

-- `memset` changes the bytes of the block, and no other.
pub memset-SameOutside :
    (num : ℕ) (m : Mem) (p v : ℕ) → SameOutside p (p + num) m (memset m p v num)
unfolding memset
memset-SameOutside zero m p v b out = refl
memset-SameOutside (suc num) m p v b out =
    ground (arith, memset-SameOutside num (set_byte m p (u8 v)) (p + 1) v b)

pub memset-inside :
    (num : ℕ) (m : Mem) (p v b : ℕ) → p ≤ b → b < p + num → memset m p v num b ≡ u8 v
unfolding memset
memset-inside zero m p v b lo hi = absurd (omega arith)
memset-inside (suc num) m p v b lo hi = ground (
  arith,
  memset-inside num (set_byte m p (u8 v)) (p + 1) v b,
  memset-SameOutside num (set_byte m p (u8 v)) (p + 1) v b,
)

pub write32_first : (m : Mem) (a v : ℕ) → write32 m a v a ≡ u8 v
unfolding write32
write32_first m a v = ground arith
