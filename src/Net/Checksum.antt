-- ===== src/Net/Checksum.antt =====
-- src/net/checksum.c: the Internet checksum over a block of bytes.
pub mod Laws
use aijak.Common.{ℕ, ◌+◌, ◌-◌, ◌*◌, ◌/◌, ◌%◌, ◌^◌, List, [], ◌∷◌, bit_and, bit_or, u16, u32}
use aijak.Common.{◌<<<◌, ◌>>>◌}

-- The argument is the block between the two pointers. Words are loaded little-endian.
unfoldable pub net_checksum_acc : List ℕ → ℕ → ℕ
net_checksum_acc [] sum = sum
net_checksum_acc (p ∷ []) sum = u32 (sum + p)
net_checksum_acc (p ∷ q ∷ rest) sum = net_checksum_acc rest (u32 (sum + (p + 256 * q)))

-- `sum = (sum & 0xffff) + (sum >> 16)`
abbrev pub fold_once : ℕ → ℕ
fold_once sum = u32 (bit_and sum 0xffff + (sum >>> 16))

-- `sum += (sum >> 16)`
abbrev pub fold_carry : ℕ → ℕ
fold_carry sum = u32 (sum + (sum >>> 16))

-- the last swap of the bytes
abbrev pub swapped : ℕ → ℕ
swapped temp = u16 (bit_or (bit_and temp 0x00ff <<< 8) (bit_and temp 0xff00 >>> 8))

unfoldable pub net_checksum_final : ℕ → ℕ
net_checksum_final sum = swapped (u16 (2 ^ 32 - 1 - fold_carry (fold_once sum)))

unfoldable pub net_checksum : List ℕ → ℕ
net_checksum bytes = net_checksum_final (net_checksum_acc bytes 0)
