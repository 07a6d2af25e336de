-- ===== src/Net/Arp/Deliver.antt =====
-- src/net/arp.c: the packets that wait for an Ethernet address, and what an ARP packet teaches.
use aijak.Common.{ℕ, ◌≡◌, ◌≢◌, refl, ap, ◌∙◌, arith, Bool, true, false}
use aijak.Common.{List, [], ◌∷◌, ◌++◌, if◌then◌else◌, Option, none, some}
use aijak.Net.Addr.{addr_ipv4_eq}
use aijak.Net.Eth.{eth_transmit}
use aijak.Net.Packet.{NetBuf, NetIntf, null_eth_addr, broadcast_eth_addr}
use aijak.Net.Arp.{
  ArpEntry, Deferred, Net, arp_lookup, arp_lookup_eth_addr, update_at, entry_at, et_ipv4, et_arp,
  op_request, op_reply,
}
use aijak.Net.Arp.Cache.{arp_lookup-update_at, entry_at-update_at, arp_add-found, arp_lookup-taken}
use aijak.Net.Arp.Send.{
  arp_send, arp_packet, arp_request, request_entry, request_with, merge_with, with_added,
  answer_with, set_ha, defer, eth_send_intf, dst_eth_addr, known, unresolved, ip_of, arp_merge,
  send_deferred, learn, arp_answer, arp_recv, arp_accepts, arp_op, arp_sha, arp_spa, arp_tpa,
  arp_reply, forget_deferred, send_to, dev_send,
}

dst_eth_addr-absent :
    (cache : List ArpEntry) (intf : NetIntf) (dst : List ℕ)
    → ip_of dst ≢ intf.broadcast_addr
    → arp_lookup cache (ip_of dst) ≡ none
    → dst_eth_addr cache intf dst et_ipv4 ≡ unresolved
unfolding dst_eth_addr
dst_eth_addr-absent cache intf dst direct absent = ground (arith, absent)

dst_eth_addr-found :
    (cache : List ArpEntry) (intf : NetIntf) (dst : List ℕ) (i : ℕ)
    → ip_of dst ≢ intf.broadcast_addr
    → arp_lookup cache (ip_of dst) ≡ some i
    → dst_eth_addr cache intf dst et_ipv4 ≡ known (entry_at cache i).ha
unfolding dst_eth_addr
dst_eth_addr-found cache intf dst i direct found = ground (arith, found)

-- The packet is for an address other than the broadcast address, and the cache has an entry for
-- it: the packet goes to the Ethernet address of the entry, and nothing else changes.
pub eth_send_intf-known :
    (s : Net) (intf : NetIntf) (dst : List ℕ) (pkt : NetBuf) (i : ℕ)
    → ip_of dst ≢ intf.broadcast_addr
    → arp_lookup s.cache (ip_of dst) ≡ some i
    → eth_send_intf s intf dst et_ipv4 pkt
      ≡ dev_send s (eth_transmit intf (entry_at s.cache i).ha et_ipv4 pkt)
unfolding eth_send_intf
eth_send_intf-known s intf dst pkt i direct found =
    ap (send_to s intf dst et_ipv4 pkt) (dst_eth_addr-found s.cache intf dst i direct found)

-- The state after a packet to an address without an entry.
abbrev waiting : Net → NetIntf → ℕ → ℕ → NetBuf → ℕ → Net
unfolding arp_send
waiting s intf tpa ether_type pkt i =
    request_with s intf tpa ether_type pkt
      (some (i, update_at s.cache i (λ e. record e { ha = null_eth_addr; pa = tpa })))

eth_send_intf-waiting :
    (s : Net) (intf : NetIntf) (dst : List ℕ) (pkt : NetBuf) (i : ℕ)
    → ip_of dst ≢ intf.broadcast_addr
    → arp_lookup s.cache (ip_of dst) ≡ none
    → arp_lookup s.cache 0 ≡ some i
    → eth_send_intf s intf dst et_ipv4 pkt ≡ waiting s intf (ip_of dst) et_ipv4 pkt i
unfolding eth_send_intf arp_request waiting
eth_send_intf-waiting s intf dst pkt i direct absent room =
    let entry : request_entry s.cache (ip_of dst)
        ≡ some (i, update_at s.cache i (λ e. record e { ha = null_eth_addr; pa = ip_of dst })) =
      rw (request_entry, absent) (arp_add-found s.cache null_eth_addr (ip_of dst) i room) in
    ap (send_to s intf dst et_ipv4 pkt) (dst_eth_addr-absent s.cache intf dst direct absent)
    ∙ ap (request_with s intf (ip_of dst) et_ipv4 pkt) entry

-- A packet for an address that is not the broadcast address and has no entry, while the cache has
-- an unused one: the device gets an ARP request for the address, sent to all, the unused entry
-- becomes one for it, without an Ethernet address, and the packet waits there.
pub eth_send_intf-defers :
    (s : Net) (intf : NetIntf) (dst : List ℕ) (pkt : NetBuf) (i : ℕ)
    → ip_of dst ≢ intf.broadcast_addr
    → arp_lookup s.cache (ip_of dst) ≡ none
    → arp_lookup s.cache 0 ≡ some i
    → let s' = eth_send_intf s intf dst et_ipv4 pkt in
      let request = arp_packet s intf op_request broadcast_eth_addr (ip_of dst) in
      (s'.sent ≡ s.sent ++ eth_transmit intf broadcast_eth_addr et_arp request ∷ [])
      × (arp_lookup s'.cache (ip_of dst) ≡ some i)
      × (entry_at s'.cache i ≡ record {
        ha = null_eth_addr;
        pa = ip_of dst;
        deferred = some (record { intf = intf; ether_type = et_ipv4; pkt = pkt });
      })
unfolding arp_send
eth_send_intf-defers s intf dst pkt i direct absent room =
    let tpa = ip_of dst in
    let g : ArpEntry → ArpEntry = λ e. record e { ha = null_eth_addr; pa = tpa } in
    let c = update_at s.cache i g in
    let found : arp_lookup c tpa ≡ some i =
      arp_lookup-taken s.cache tpa i g (λ e. refl) room absent in
    rw (eth_send_intf-waiting s intf dst pkt i direct absent room) (
      refl,
      (arp_lookup-update_at c i tpa (defer intf et_ipv4 pkt) (λ e. refl) ∙ found),
      (entry_at-update_at c i tpa (defer intf et_ipv4 pkt) found
          ∙ ap (defer intf et_ipv4 pkt) (entry_at-update_at s.cache i 0 g room)),
    )

-- A second packet for such an address, before an answer has come, does not wait: the device gets
-- it, addressed to 00:00:00:00:00:00.
pub eth_send_intf-second :
    (s : Net) (intf : NetIntf) (dst : List ℕ) (pkt pkt' : NetBuf) (i : ℕ)
    → ip_of dst ≢ intf.broadcast_addr
    → arp_lookup s.cache (ip_of dst) ≡ none
    → arp_lookup s.cache 0 ≡ some i
    → let s' = eth_send_intf s intf dst et_ipv4 pkt in
      eth_send_intf s' intf dst et_ipv4 pkt'
      ≡ dev_send s' (eth_transmit intf null_eth_addr et_ipv4 pkt')
eth_send_intf-second s intf dst pkt pkt' i direct absent room =
    let s' = eth_send_intf s intf dst et_ipv4 pkt in
    let (_, found, entry) = eth_send_intf-defers s intf dst pkt i direct absent room in
    eth_send_intf-known s' intf dst pkt' i direct found
    ∙ ap (λ (e : ArpEntry). dev_send s' (eth_transmit intf e.ha et_ipv4 pkt')) entry

arp_recv-found :
    (s : Net) (intf : NetIntf) (pkt : NetBuf) (found : Option ℕ)
    → arp_accepts pkt ≡ true
    → arp_lookup s.cache (ip_of (arp_spa pkt)) ≡ found
    → arp_recv s intf pkt
      ≡ answer_with intf
          (arp_op pkt)
          (arp_sha pkt)
          (arp_spa pkt)
          (arp_tpa pkt)
          (merge_with s (arp_sha pkt) (arp_spa pkt) found)
unfolding arp_recv arp_answer arp_merge
arp_recv-found s intf pkt found ok e =
    let rest = λ (l : Option ℕ).
      answer_with intf (arp_op pkt) (arp_sha pkt) (arp_spa pkt) (arp_tpa pkt)
        (merge_with s (arp_sha pkt) (arp_spa pkt) l) in
    ap (λ (b : Bool). if b then rest (arp_lookup s.cache (ip_of (arp_spa pkt))) else s) ok
    ∙ ap rest e

answer_with-merged :
    (s : Net) (intf : NetIntf) (op : ℕ) (sha spa : List ℕ) (tpa : ℕ)
    → op ≢ op_request
    → answer_with intf op sha spa tpa (true, s) ≡ s
answer_with-merged s intf op sha spa tpa other = ground arith

-- An accepted ARP packet that is no request, from an address other than the broadcast address
-- whose entry has a packet waiting: the waiting packet goes to the device, addressed to the
-- Ethernet address that the ARP packet names, which the entry keeps, and no packet waits there.
pub arp_recv-sends_deferred :
    (s : Net) (intf out : NetIntf) (pkt waits : NetBuf) (i : ℕ)
    → arp_accepts pkt ≡ true
    → arp_op pkt ≢ op_request
    → ip_of (arp_spa pkt) ≢ out.broadcast_addr
    → arp_lookup s.cache (ip_of (arp_spa pkt)) ≡ some i
    → (entry_at s.cache i).deferred
      ≡ some (record { intf = out; ether_type = et_ipv4; pkt = waits })
    → let s' = arp_recv s intf pkt in
      (s'.sent ≡ s.sent ++ eth_transmit out (arp_sha pkt) et_ipv4 waits ∷ [])
      × (entry_at s'.cache i ≡ record (entry_at s.cache i) { ha = arp_sha pkt; deferred = none })
arp_recv-sends_deferred s intf out pkt waits i ok reply direct found holds =
    let sha = arp_sha pkt in
    let spa = arp_spa pkt in
    let d : Deferred = record { intf = out; ether_type = et_ipv4; pkt = waits } in
    let s1 : Net = record s { cache = update_at s.cache i (set_ha sha) } in
    let there : arp_lookup s1.cache (ip_of spa) ≡ some i =
      arp_lookup-update_at s.cache i (ip_of spa) (set_ha sha) (λ e. refl) ∙ found in
    let entry : entry_at s1.cache i ≡ set_ha sha (entry_at s.cache i) =
      entry_at-update_at s.cache i (ip_of spa) (set_ha sha) found in
    let merged : merge_with s sha spa (some i) ≡ (true, send_deferred s1 i spa (some d)) =
      ap (λ (w : Option Deferred). (true, send_deferred s1 i spa w))
        (ap (λ (e : ArpEntry). e.deferred) entry ∙ holds) in
    let known_now = eth_send_intf-known s1 out spa waits i direct there in
    let frame = eth_transmit out (entry_at s1.cache i).ha et_ipv4 waits in
    let s2 : Net = record s1 {
      sent = s.sent ++ frame ∷ [];
      cache = update_at s1.cache i forget_deferred;
    } in
    let sends : send_deferred s1 i spa (some d) ≡ s2 =
      ap (λ (t : Net). record t { cache = update_at t.cache i forget_deferred }) known_now in
    let all : arp_recv s intf pkt ≡ s2 =
      arp_recv-found s intf pkt (some i) ok found
      ∙ ap (answer_with intf (arp_op pkt) sha spa (arp_tpa pkt)) merged
      ∙ answer_with-merged (send_deferred s1 i spa (some d)) intf (arp_op pkt) sha spa (arp_tpa pkt)
          reply
      ∙ sends in
    rw all (
      ap (λ (e : ArpEntry). s.sent ++ eth_transmit out e.ha et_ipv4 waits ∷ []) entry,
      entry_at-update_at s1.cache i (ip_of spa) forget_deferred there ∙ ap forget_deferred entry,
    )

-- An accepted request for the interface's own address, from an address without an entry, while
-- the cache has an unused one: the entry is taken for the sender, whose Ethernet address a lookup
-- then finds, and the device gets a reply addressed to the sender.
pub arp_recv-replies :
    (s : Net) (intf : NetIntf) (pkt : NetBuf) (i : ℕ)
    → arp_accepts pkt ≡ true
    → arp_op pkt ≡ op_request
    → arp_tpa pkt ≡ intf.ip_addr
    → arp_lookup s.cache (ip_of (arp_spa pkt)) ≡ none
    → arp_lookup s.cache 0 ≡ some i
    → let s' = arp_recv s intf pkt in
      let reply = arp_packet s intf op_reply (arp_sha pkt) (ip_of (arp_spa pkt)) in
      (s'.sent ≡ s.sent ++ eth_transmit intf (arp_sha pkt) et_arp reply ∷ [])
      × (arp_lookup_eth_addr s'.cache (ip_of (arp_spa pkt)) ≡ some (arp_sha pkt))
unfolding arp_reply arp_send arp_lookup_eth_addr addr_ipv4_eq
arp_recv-replies s intf pkt i ok asks mine absent room =
    let sha = arp_sha pkt in
    let spa = ip_of (arp_spa pkt) in
    let g : ArpEntry → ArpEntry = λ e. record e { ha = sha; pa = spa } in
    let s1 : Net = record s { cache = update_at s.cache i g } in
    let added : learn false s sha spa ≡ s1 =
      ap (with_added s) (arp_add-found s.cache sha spa i room) in
    let found : arp_lookup s1.cache spa ≡ some i =
      arp_lookup-taken s.cache spa i g (λ e. refl) room absent in
    let answers : answer_with intf (arp_op pkt) sha (arp_spa pkt) (arp_tpa pkt) (false, s)
        ≡ arp_reply s1 intf sha spa =
      ground (arith, asks, mine, added) in
    let all = arp_recv-found s intf pkt none ok absent ∙ answers in
    rw all (
      refl,
      ap (λ (l : Option ℕ). elim l [ none ↦ none | some j ↦ some (entry_at s1.cache j).ha ]) found
          ∙ ap (λ (e : ArpEntry). some e.ha) (entry_at-update_at s.cache i 0 g room),
    )
