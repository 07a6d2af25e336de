-- ===== src/Net/Arp/Learn.antt =====
-- src/net/arp.c: what the cache and the device hold after an ARP packet and after a packet to send.
use aijak.Common.{ℕ, ◌≡◌, refl, inl, inr, arith, Bool, true, false}
use aijak.Common.{List, if◌then◌else◌, Option, none, some, Option-cases}
use mathlib.Core.Path.{subst}
use aijak.Net.Addr.{addr_ipv4_eq}
use aijak.Net.Packet.{NetBuf, NetIntf, null_eth_addr}
use aijak.Net.Arp.{ArpEntry, Deferred, Net, arp_lookup, arp_add, update_at, entry_at}
use aijak.Net.Arp.Cache.{
  addresses, addresses-update_at, IsUnique, arp_lookup-none, addresses-arp_add, IsUnique-taken,
}
use aijak.Net.Arp.Send.{
  arp_send, arp_request, request_entry, request_with, merge_with, with_added, answer_with, set_ha,
  defer, eth_send_intf, dst_eth_addr, EthDst, known, unresolved, no_address, ip_of, arp_merge,
  send_deferred, arp_answer, arp_recv, arp_accepts, arp_op, arp_sha, arp_spa, arp_tpa, arp_reply,
  forget_deferred, send_to,
}

abbrev pub Fine : Net → Type 0
Fine s = IsUnique (addresses s.cache)

-- Adding an address that no entry has.
IsUnique-arp_add :
    (es : List ArpEntry) (ha : List ℕ) (pa i : ℕ) (es' : List ArpEntry)
    → arp_lookup es pa ≡ none
    → IsUnique (addresses es)
    → arp_add es ha pa ≡ some (i, es')
    → IsUnique (addresses es')
IsUnique-arp_add es ha pa i es' absent u added =
    rw (addresses-arp_add es ha pa i es' added)
      (IsUnique-taken (addresses es) pa (arp_lookup-none es pa absent) u)

request_entry-IsUnique :
    (es : List ArpEntry) (pa i : ℕ) (es' : List ArpEntry)
    → IsUnique (addresses es)
    → request_entry es pa ≡ some (i, es')
    → IsUnique (addresses es')
request_entry-IsUnique es pa i es' u found = elim (Option-cases (arp_lookup es pa)) [
  | inl absent ↦ IsUnique-arp_add es null_eth_addr pa i es' absent u (ground (arith, absent, found))
  | inr (j, known_at) ↦ subst (λ c. IsUnique (addresses c)) (ground (arith, known_at, found)) u
]

request_with-Fine :
    (s : Net) (intf : NetIntf) (tpa ether_type : ℕ) (pkt : NetBuf)
    (found : Option (ℕ × List ArpEntry))
    → request_entry s.cache tpa ≡ found
    → Fine s
    → Fine (request_with s intf tpa ether_type pkt found)
unfolding arp_send
request_with-Fine s intf tpa ether_type pkt none e u = u
request_with-Fine s intf tpa ether_type pkt (some (i, cache)) e u =
    rw (addresses-update_at cache i (defer intf ether_type pkt) (λ e. refl))
      (request_entry-IsUnique s.cache tpa i cache u e)

pub arp_request-Fine :
    (s : Net) (intf : NetIntf) (tpa ether_type : ℕ) (pkt : NetBuf)
    → Fine s
    → Fine (arp_request s intf tpa ether_type pkt)
unfolding arp_request
arp_request-Fine s intf tpa ether_type pkt u =
    request_with-Fine s intf tpa ether_type pkt (request_entry s.cache tpa) refl u

send_to-Fine :
    (s : Net) (intf : NetIntf) (dst : List ℕ) (ether_type : ℕ) (pkt : NetBuf) (to : EthDst)
    → Fine s
    → Fine (send_to s intf dst ether_type pkt to)
send_to-Fine s intf dst ether_type pkt (known ha) u = u
send_to-Fine s intf dst ether_type pkt unresolved u =
    arp_request-Fine s intf (ip_of dst) ether_type pkt u
send_to-Fine s intf dst ether_type pkt no_address u = u

-- Sending a packet keeps the addresses of the ARP cache distinct, whether the packet leaves at
-- once, waits for an Ethernet address or is dropped.
pub eth_send_intf-IsUnique :
    (s : Net) (intf : NetIntf) (dst : List ℕ) (ether_type : ℕ) (pkt : NetBuf)
    → IsUnique (addresses s.cache)
    → IsUnique (addresses (eth_send_intf s intf dst ether_type pkt).cache)
unfolding eth_send_intf
eth_send_intf-IsUnique s intf dst ether_type pkt u =
    send_to-Fine s intf dst ether_type pkt (dst_eth_addr s.cache intf dst ether_type) u

send_deferred-Fine :
    (s : Net) (i : ℕ) (spa : List ℕ) (waits : Option Deferred)
    → Fine s
    → Fine (send_deferred s i spa waits)
send_deferred-Fine s i spa none u = u
send_deferred-Fine s i spa (some d) u =
    let s1 = eth_send_intf s d.intf spa d.ether_type d.pkt in
    rw (addresses-update_at s1.cache i forget_deferred (λ e. refl))
      (eth_send_intf-IsUnique s d.intf spa d.ether_type d.pkt u)

with_added-Fine :
    (s : Net) (sha : List ℕ) (spa : ℕ) (added : Option (ℕ × List ArpEntry))
    → arp_add s.cache sha spa ≡ added
    → arp_lookup s.cache spa ≡ none
    → Fine s
    → Fine (with_added s added)
with_added-Fine s sha spa none e absent u = u
with_added-Fine s sha spa (some (i, cache)) e absent u =
    IsUnique-arp_add s.cache sha spa i cache absent u e

answer_with-Fine :
    (s : Net) (intf : NetIntf) (op : ℕ) (sha spa : List ℕ) (tpa : ℕ) (found : Option ℕ)
    → arp_lookup s.cache (ip_of spa) ≡ found
    → Fine s
    → Fine (answer_with intf op sha spa tpa (merge_with s sha spa found))
unfolding arp_reply arp_send addr_ipv4_eq
answer_with-Fine s intf op sha spa tpa none e u =
    let more = with_added-Fine s sha (ip_of spa) (arp_add s.cache sha (ip_of spa)) refl e u in
    ground (arith, more)
answer_with-Fine s intf op sha spa tpa (some i) e u =
    let s1 : Net = record s { cache = update_at s.cache i (set_ha sha) } in
    let kept : Fine s1 = rw (addresses-update_at s.cache i (set_ha sha) (λ e. refl)) u in
    let more = send_deferred-Fine s1 i spa (entry_at s1.cache i).deferred kept in
    ground (arith, more)

arp_answer-Fine :
    (s : Net) (intf : NetIntf) (op : ℕ) (sha spa : List ℕ) (tpa : ℕ)
    → Fine s
    → Fine (arp_answer s intf op sha spa tpa)
unfolding arp_answer arp_merge
arp_answer-Fine s intf op sha spa tpa u =
    answer_with-Fine s intf op sha spa tpa (arp_lookup s.cache (ip_of spa)) refl u

when : (b : Bool) (s t : Net) → Fine s → Fine t → Fine (if b then s else t)
when true s t u v = u
when false s t u v = v

-- Receiving any ARP packet keeps the addresses of the ARP cache distinct.
pub arp_recv-IsUnique :
    (s : Net) (intf : NetIntf) (pkt : NetBuf)
    → IsUnique (addresses s.cache)
    → IsUnique (addresses (arp_recv s intf pkt).cache)
unfolding arp_recv
arp_recv-IsUnique s intf pkt u =
    when (arp_accepts pkt) _ s
      (arp_answer-Fine s intf (arp_op pkt) (arp_sha pkt) (arp_spa pkt) (arp_tpa pkt) u) u
