-- ===== src/Net/Packet.antt =====
-- include/net/buf.h, include/net/intf.h: a packet in its buffer, and the interface. Addresses in
-- a buffer are offsets from its beginning.
pub mod Laws
use aijak.Common.{
  ℕ, zero, suc, ◌+◌, ◌-◌, ◌*◌, ◌/◌, ◌%◌, ◌^◌, Option, none, some, List, [], ◌∷◌, length,
}
use aijak.Common.{◌==◌, ltb, leb, if◌then◌else◌, u8, u16, u32}
use aijak.Memory.Bytes.{Mem, set_byte}

abbrev pub net_buf_size : ℕ
net_buf_size = 2048

abbrev pub net_buf_start : ℕ
net_buf_start = 256

-- `NetBuf` without the links and the fields that are kept for TCP.
pub record NetBuf : Type 0 where
  pub bytes : Mem
  pub start : ℕ
  pub end : ℕ
  pub ref_count : ℕ

-- `NetIntf` without its functions: `send` is `eth_send_intf`, `devSend` hands a frame to the
-- device. An Ethernet address is its six bytes, an IPv4 address its 32 bits.
pub record NetIntf : Type 0 where
  pub eth_addr : List ℕ
  pub ip_addr : ℕ
  pub broadcast_addr : ℕ

abbrev pub null_eth_addr : List ℕ
null_eth_addr = 0 ∷ 0 ∷ 0 ∷ 0 ∷ 0 ∷ 0 ∷ []

abbrev pub broadcast_eth_addr : List ℕ
broadcast_eth_addr = 0xff ∷ 0xff ∷ 0xff ∷ 0xff ∷ 0xff ∷ 0xff ∷ []

-- The bytes of an IPv4 address in memory.
abbrev pub ip_bytes : ℕ → List ℕ
ip_bytes a = u8 a ∷ u8 (a / 2 ^ 8) ∷ u8 (a / 2 ^ 16) ∷ u8 (a / 2 ^ 24) ∷ []

-- A structure is written and read byte by byte.
unfoldable pub write_bytes : Mem → ℕ → List ℕ → Mem
write_bytes m a [] = m
write_bytes m a (b ∷ bs) = write_bytes (set_byte m a b) (a + 1) bs

unfoldable pub read_bytes : Mem → ℕ → ℕ → List ℕ
read_bytes m a zero = []
read_bytes m a (suc n) = m a ∷ read_bytes m (a + 1) n

-- A little-endian load of 16 bits.
abbrev pub read16 : Mem → ℕ → ℕ
read16 m a = m a + 256 * m (a + 1)

abbrev pub read_ip : Mem → ℕ → ℕ
read_ip m a = m a + 256 * m (a + 1) + 65536 * m (a + 2) + 16777216 * m (a + 3)

-- `data[i]` of a packet, where a read behind its end is `none`.
abbrev pub at? : NetBuf → ℕ → Option ℕ
at? pkt i = if ltb (pkt.start + i) pkt.end then some (pkt.bytes (pkt.start + i)) else none

-- The contents of a packet.
abbrev pub contents : NetBuf → List ℕ
contents pkt = read_bytes pkt.bytes pkt.start (pkt.end - pkt.start)
