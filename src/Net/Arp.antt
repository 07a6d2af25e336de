-- ===== src/Net/Arp.antt =====
-- src/net/arp.c: the ARP cache, and the state of the network stack.
pub mod Cache
pub mod Send
pub mod Learn
pub mod Deliver
pub mod Wire
use aijak.Common.{
  ℕ, zero, suc, ◌+◌, ◌-◌, ◌*◌, ◌/◌, ◌%◌, ◌^◌, Bool, true, false, ◌||◌, Option, none, some,
}
use aijak.Common.{List, [], ◌∷◌, ◌++◌, ◌==◌, if◌then◌else◌, map}
use aijak.Memory.Bytes.{Mem}
use aijak.Net.Addr.{addr_ipv4_eq}
use aijak.Net.Packet.{
  NetBuf, NetIntf, null_eth_addr, broadcast_eth_addr, ip_bytes, write_bytes, read_bytes, read16,
  read_ip, net_buf_start,
}

abbrev pub arp_cache_size : ℕ
arp_cache_size = 16

abbrev pub et_ipv4 : ℕ
et_ipv4 = 0x0800

abbrev pub et_arp : ℕ
et_arp = 0x0806

abbrev pub et_ipv6 : ℕ
et_ipv6 = 0x86dd

abbrev pub op_request : ℕ
op_request = 1

abbrev pub op_reply : ℕ
op_reply = 2

-- The deferred packet, with the interface and the protocol to send it by.
pub record Deferred : Type 0 where
  pub intf : NetIntf
  pub ether_type : ℕ
  pub pkt : NetBuf

pub record ArpEntry : Type 0 where
  pub ha : List ℕ
  pub pa : ℕ
  pub deferred : Option Deferred

-- The cache, the packets handed to the device, the oldest first, and the packets whose last
-- reference was released. The buffer that `net_alloc_buf` returns next is number `allocated`,
-- with the bytes that its memory held before.
pub record Net : Type 0 where
  pub cache : List ArpEntry
  pub old_bytes : ℕ → Mem
  pub allocated : ℕ
  pub sent : List NetBuf
  pub released : List NetBuf

abbrev pub empty_entry : ArpEntry
empty_entry = record { ha = null_eth_addr; pa = 0; deferred = none }

-- `arp_init` keeps the deferred packets.
abbrev pub cleared : ArpEntry → ArpEntry
cleared e = record e { ha = null_eth_addr; pa = 0 }

unfoldable pub arp_init : Net → Net
arp_init s = record s { cache = map cleared s.cache }

-- The index of the first entry with the address.
unfoldable pub arp_lookup : List ArpEntry → ℕ → Option ℕ
arp_lookup [] pa = none
arp_lookup (e ∷ es) pa =
    if addr_ipv4_eq e.pa pa
    then some 0
    else elim (arp_lookup es pa) [ none ↦ none | some i ↦ some (suc i) ]

-- `entry->ha = *ha`, and any other update, at an index.
abbrev pub update_at : List ArpEntry → ℕ → (ArpEntry → ArpEntry) → List ArpEntry
update_at [] i f = []
update_at (e ∷ es) zero f = f e ∷ es
update_at (e ∷ es) (suc i) f = e ∷ update_at es i f

abbrev pub entry_at : List ArpEntry → ℕ → ArpEntry
entry_at [] i = empty_entry
entry_at (e ∷ es) zero = e
entry_at (e ∷ es) (suc i) = entry_at es i

-- The first entry without an address is taken.
unfoldable pub arp_add : List ArpEntry → List ℕ → ℕ → Option (ℕ × List ArpEntry)
arp_add [] ha pa = none
arp_add (e ∷ es) ha pa =
    if e.pa == 0
    then some (0, record e { ha = ha; pa = pa } ∷ es)
    else elim (arp_add es ha pa) [ none ↦ none | some (i, es') ↦ some (suc i, e ∷ es') ]

unfoldable pub arp_lookup_eth_addr : List ArpEntry → ℕ → Option (List ℕ)
unfolding arp_lookup
arp_lookup_eth_addr cache pa = elim (arp_lookup cache pa) [
  | none ↦ none
  | some i ↦ some (entry_at cache i).ha
]
