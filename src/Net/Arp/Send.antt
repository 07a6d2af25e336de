-- ===== src/Net/Arp/Send.antt =====
-- src/net/arp.c and src/net/eth.c, which call each other: sending, and the packets that wait for
-- an Ethernet address. `intf->send` is `eth_send_intf`; with ET_ARP it does not come back here.
use aijak.Common.{ℕ, ◌+◌, ◌*◌, ◌/◌, ◌^◌, Bool, true, false, ◌&&◌, Option, none, some}
use aijak.Common.{List, [], ◌∷◌, ◌++◌, ◌==◌, leb, if◌then◌else◌, u8, sub32}
use aijak.Net.Swap.{net_swap16}
use aijak.Net.Addr.{addr_ipv4_eq}
use aijak.Net.Packet.{
  NetBuf, NetIntf, null_eth_addr, broadcast_eth_addr, ip_bytes, write_bytes, read_bytes, read16,
  read_ip, net_buf_start,
}
use aijak.Net.Eth.{eth_transmit}
use aijak.Net.Arp.{
  Deferred, Net, ArpEntry, et_ipv4, et_arp, op_request, op_reply, arp_lookup, arp_add,
  arp_lookup_eth_addr, update_at, entry_at,
}

-- `net_alloc_buf`: the bytes of a buffer are those of its memory before.
abbrev pub net_alloc_buf : Net → NetBuf
net_alloc_buf s = record {
  bytes = s.old_bytes s.allocated;
  start = net_buf_start;
  end = net_buf_start;
  ref_count = 1;
}

-- `if (!--buf->refCount)` the buffer goes back, to the end of the released ones.
abbrev pub net_release_buf : List NetBuf → NetBuf → List NetBuf
net_release_buf released pkt =
    let left = sub32 pkt.ref_count 1 in
    if left == 0 then released ++ record pkt { ref_count = left } ∷ [] else released

-- `intf->devSend`
abbrev pub dev_send : Net → NetBuf → Net
dev_send s pkt = record s { sent = s.sent ++ pkt ∷ [] }

-- The 28 bytes of an ARP packet.
abbrev pub arp_payload : NetIntf → ℕ → List ℕ → ℕ → List ℕ
arp_payload intf op tha tpa =
    (0 ∷ 1 ∷ 0x08 ∷ 0x00 ∷ 6 ∷ 4 ∷ u8 (op / 2 ^ 8) ∷ u8 op ∷ [])
    ++ intf.eth_addr
    ++ ip_bytes intf.ip_addr
    ++ (if op == op_request then null_eth_addr else tha)
    ++ ip_bytes tpa

abbrev pub arp_packet : Net → NetIntf → ℕ → List ℕ → ℕ → NetBuf
arp_packet s intf op tha tpa =
    let pkt = net_alloc_buf s in
    record pkt {
      bytes = write_bytes pkt.bytes pkt.start (arp_payload intf op tha tpa);
      end = pkt.end + 28;
    }

unfoldable pub arp_send : Net → NetIntf → ℕ → List ℕ → ℕ → Net
arp_send s intf op tha tpa =
    dev_send (record s { allocated = s.allocated + 1 })
      (eth_transmit intf tha et_arp (arp_packet s intf op tha tpa))

-- `entry->intf`, `entry->etherType` and `entry->pkt` are set.
abbrev pub defer : NetIntf → ℕ → NetBuf → ArpEntry → ArpEntry
defer intf ether_type pkt e = record e {
  deferred = some (record { intf = intf; ether_type = ether_type; pkt = pkt });
}

-- `if (entry->pkt) net_release_buf(entry->pkt);`
abbrev pub release_deferred : List NetBuf → Option Deferred → List NetBuf
release_deferred released none = released
release_deferred released (some d) = net_release_buf released d.pkt

-- The entry of `arp_request`, made if there is none.
abbrev pub request_entry : List ArpEntry → ℕ → Option (ℕ × List ArpEntry)
request_entry cache tpa = elim (arp_lookup cache tpa) [
  | none ↦ arp_add cache null_eth_addr tpa
  | some i ↦ some (i, cache)
]

-- `if (entry)`
abbrev pub request_with : Net → NetIntf → ℕ → ℕ → NetBuf → Option (ℕ × List ArpEntry) → Net
request_with s intf tpa ether_type pkt none = s
request_with s intf tpa ether_type pkt (some (i, cache)) =
    arp_send
      (record s {
        released = release_deferred s.released (entry_at cache i).deferred;
        cache = update_at cache i (defer intf ether_type pkt);
      })
      intf op_request broadcast_eth_addr tpa

unfoldable pub arp_request : Net → NetIntf → ℕ → ℕ → NetBuf → Net
unfolding arp_send arp_lookup arp_add
arp_request s intf tpa ether_type pkt =
    request_with s intf tpa ether_type pkt (request_entry s.cache tpa)

unfoldable pub arp_reply : Net → NetIntf → List ℕ → ℕ → Net
unfolding arp_send
arp_reply s intf tha tpa = arp_send s intf op_reply tha tpa

-- `*(const IPv4Addr *)` at the bytes of an address.
abbrev pub ip_of : List ℕ → ℕ
ip_of (a ∷ b ∷ c ∷ d ∷ _) = a + 256 * b + 65536 * c + 16777216 * d
ip_of _ = 0

-- The Ethernet address that the switch of `eth_send_intf` finds, that the packet has to wait for
-- one, or that there is none.
pub data EthDst : Type 0 where
  known : List ℕ → EthDst
  unresolved : EthDst
  no_address : EthDst

-- `dst_addr` is the bytes that the pointer points to.
unfoldable pub dst_eth_addr : List ArpEntry → NetIntf → List ℕ → ℕ → EthDst
unfolding addr_ipv4_eq arp_lookup_eth_addr
dst_eth_addr cache intf dst_addr ether_type =
    if ether_type == et_arp
    then known dst_addr
    else if ether_type == et_ipv4
    then (if addr_ipv4_eq (ip_of dst_addr) intf.broadcast_addr
        then known broadcast_eth_addr
        else elim (arp_lookup_eth_addr cache (ip_of dst_addr)) [
          | none ↦ unresolved
          | some ha ↦ known ha
        ])
    else no_address

-- `eth_send_intf` after its switch.
abbrev pub send_to : Net → NetIntf → List ℕ → ℕ → NetBuf → EthDst → Net
send_to s intf dst_addr ether_type pkt (known dst) =
    dev_send s (eth_transmit intf dst ether_type pkt)
send_to s intf dst_addr ether_type pkt unresolved =
    arp_request s intf (ip_of dst_addr) ether_type pkt
send_to s intf dst_addr ether_type pkt no_address = s

unfoldable pub eth_send_intf : Net → NetIntf → List ℕ → ℕ → NetBuf → Net
unfolding dst_eth_addr arp_request eth_transmit
eth_send_intf s intf dst_addr ether_type pkt =
    send_to s intf dst_addr ether_type pkt (dst_eth_addr s.cache intf dst_addr ether_type)

-- The deferred packet of an entry whose address has become known. Only IPv4 packets wait, for
-- which `eth_send_intf` reads the four bytes of `spa`.
abbrev pub forget_deferred : ArpEntry → ArpEntry
forget_deferred e = record e { deferred = none }

abbrev pub send_deferred : Net → ℕ → List ℕ → Option Deferred → Net
send_deferred s i spa none = s
send_deferred s i spa (some d) =
    let s1 = eth_send_intf s d.intf spa d.ether_type d.pkt in
    record s1 { cache = update_at s1.cache i forget_deferred }

abbrev pub set_ha : List ℕ → ArpEntry → ArpEntry
set_ha sha e = record e { ha = sha }

-- `if (entry)`; the Boolean is `merge`.
abbrev pub merge_with : Net → List ℕ → List ℕ → Option ℕ → Bool × Net
merge_with s sha spa none = (false, s)
merge_with s sha spa (some i) =
    let s1 : Net = record s { cache = update_at s.cache i (set_ha sha) } in
    (true, send_deferred s1 i spa (entry_at s1.cache i).deferred)

unfoldable pub arp_merge : Net → List ℕ → List ℕ → Bool × Net
unfolding arp_lookup eth_send_intf
arp_merge s sha spa = merge_with s sha spa (arp_lookup s.cache (ip_of spa))

-- `arp_add(sha, spa)`, whose failure leaves the cache.
abbrev pub with_added : Net → Option (ℕ × List ArpEntry) → Net
with_added s none = s
with_added s (some (i, cache)) = record s { cache = cache }

-- `if (!merge) arp_add(sha, spa);`
abbrev pub learn : Bool → Net → List ℕ → ℕ → Net
learn true s sha spa = s
learn false s sha spa = with_added s (arp_add s.cache sha spa)

-- `arp_recv` behind its guards.
abbrev pub answer_with : NetIntf → ℕ → List ℕ → List ℕ → ℕ → Bool × Net → Net
answer_with intf op sha spa tpa (merge, s) =
    let s1 = learn merge s sha (ip_of spa) in
    let s2 = arp_reply s1 intf sha (ip_of spa) in
    if addr_ipv4_eq tpa intf.ip_addr then (if op == op_request then s2 else s1) else s

unfoldable pub arp_answer : Net → NetIntf → ℕ → List ℕ → List ℕ → ℕ → Net
unfolding arp_merge arp_add arp_reply addr_ipv4_eq
arp_answer s intf op sha spa tpa = answer_with intf op sha spa tpa (arp_merge s sha spa)

-- The two guards: a header, and a request or reply for Ethernet and IPv4 of at least 28 bytes.
unfoldable pub arp_accepts : NetBuf → Bool
unfolding net_swap16
arp_accepts pkt =
    leb (pkt.start + 8) pkt.end
    && (net_swap16 (read16 pkt.bytes pkt.start) == 1)
    && (net_swap16 (read16 pkt.bytes (pkt.start + 2)) == et_ipv4)
    && leb (pkt.start + 28) pkt.end

-- `op`, and the addresses at `data + 8`, `data + 14` and `data + 24`.
abbrev pub arp_op : NetBuf → ℕ
arp_op pkt = net_swap16 (read16 pkt.bytes (pkt.start + 6))

abbrev pub arp_sha : NetBuf → List ℕ
arp_sha pkt = read_bytes pkt.bytes (pkt.start + 8) 6

abbrev pub arp_spa : NetBuf → List ℕ
arp_spa pkt = read_bytes pkt.bytes (pkt.start + 14) 4

abbrev pub arp_tpa : NetBuf → ℕ
arp_tpa pkt = read_ip pkt.bytes (pkt.start + 24)

unfoldable pub arp_recv : Net → NetIntf → NetBuf → Net
unfolding arp_answer arp_accepts net_swap16 read_bytes
arp_recv s intf pkt =
    if arp_accepts pkt
    then arp_answer s intf (arp_op pkt) (arp_sha pkt) (arp_spa pkt) (arp_tpa pkt)
    else s
