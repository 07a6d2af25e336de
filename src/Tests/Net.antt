-- ===== src/Tests/Net.antt =====
-- A small network, for the theorems on src/net.
use aijak.Common.{ℕ, ◌%◌, ◌≡◌, refl, List, [], ◌∷◌, arith, none, some}
use aijak.Common.{◌==◌, if◌then◌else◌}
use aijak.Link.{Store}
use aijak.Link.Ring.{Ring}
use aijak.Net.Route.{NetRoute, RouteTable, net_route_add}
use aijak.Net.Route.Walk.{Added, net_route_add-Added}
use aijak.Net.Packet.{NetBuf, NetIntf, read_bytes, null_eth_addr, broadcast_eth_addr, write_bytes}
use aijak.Net.Addr.{addr_ipv4_eq}
use aijak.Net.Eth.{eth_transmit}
use aijak.Net.Arp.{
  Net, ArpEntry, empty_entry, et_ipv4, et_arp, op_request, op_reply, arp_lookup,
  arp_lookup_eth_addr, entry_at,
}
use aijak.Net.Arp.Cache.{addresses, IsUnique}
use aijak.Net.Arp.Send.{eth_send_intf, arp_recv, arp_packet, arp_accepts, arp_sha}
use aijak.Net.Arp.Learn.{arp_recv-IsUnique}
use aijak.Net.Arp.Deliver.{eth_send_intf-defers, arp_recv-sends_deferred, arp_recv-replies}
use aijak.Net.Arp.Wire.{ReadBack, arp_packet-ReadBack}
use aijak.Net.Ipv4.{ipv4_packet, ipv4_accept}
use aijak.Net.Ipv4.Laws.{ipv4_accept-ipv4_packet}

-- Two hosts, 1.0.0.10 and 2.0.0.10, and their addresses.
abbrev our_ip : ℕ
our_ip = 167772161

abbrev their_ip : ℕ
their_ip = 167772162

abbrev our_intf : NetIntf
our_intf = record {
  eth_addr = 2 ∷ 0 ∷ 0 ∷ 0 ∷ 0 ∷ 1 ∷ [];
  ip_addr = our_ip;
  broadcast_addr = 184549375;
}

abbrev their_intf : NetIntf
their_intf = record {
  eth_addr = 2 ∷ 0 ∷ 0 ∷ 0 ∷ 0 ∷ 2 ∷ [];
  ip_addr = their_ip;
  broadcast_addr = 184549375;
}

abbrev their_bytes : List ℕ
their_bytes = 2 ∷ 0 ∷ 0 ∷ 10 ∷ []

abbrev packet : NetBuf
packet = record { bytes = λ a. a % 256; start = 256; end = 300; ref_count = 1 }

abbrev quiet : Net
quiet = record {
  cache = empty_entry ∷ empty_entry ∷ [];
  old_bytes = λ n a. 0;
  allocated = 0;
  sent = [];
  released = [];
}

abbrev their_entry : ArpEntry
their_entry = record {
  ha = null_eth_addr;
  pa = their_ip;
  deferred = some (record { intf = our_intf; ether_type = et_ipv4; pkt = packet });
}

-- A packet to the other host waits.
abbrev pending : Net
pending = record quiet { cache = their_entry ∷ empty_entry ∷ [] }

abbrev their_request : NetBuf
their_request = arp_packet quiet their_intf op_request broadcast_eth_addr our_ip

abbrev their_reply : NetBuf
their_reply = arp_packet quiet their_intf op_reply our_intf.eth_addr our_ip

arp_recv-IsUnique_example : IsUnique (addresses (arp_recv pending our_intf their_request).cache)
arp_recv-IsUnique_example = arp_recv-IsUnique pending our_intf their_request (ground arith)

eth_send_intf-defers_example :
    let s' = eth_send_intf quiet our_intf their_bytes et_ipv4 packet in
    let request = arp_packet quiet our_intf op_request broadcast_eth_addr their_ip in
    (s'.sent ≡ eth_transmit our_intf broadcast_eth_addr et_arp request ∷ [])
    × (arp_lookup s'.cache their_ip ≡ some 0)
    × (entry_at s'.cache 0 ≡ their_entry)
unfolding addr_ipv4_eq arp_lookup
eth_send_intf-defers_example =
    eth_send_intf-defers quiet our_intf their_bytes packet 0 (ground arith) refl refl

arp_recv-sends_deferred_example :
    let s' = arp_recv pending our_intf their_reply in
    (s'.sent ≡ eth_transmit our_intf (arp_sha their_reply) et_ipv4 packet ∷ [])
    × (entry_at s'.cache 0 ≡ record their_entry { ha = arp_sha their_reply; deferred = none })
unfolding addr_ipv4_eq arp_lookup arp_accepts write_bytes read_bytes
arp_recv-sends_deferred_example =
    arp_recv-sends_deferred pending our_intf our_intf their_reply packet 0 refl (ground arith)
      (ground arith) refl refl

arp_recv-replies_example :
    let s' = arp_recv quiet our_intf their_request in
    let reply = arp_packet quiet our_intf op_reply (arp_sha their_request) their_ip in
    (s'.sent ≡ eth_transmit our_intf (arp_sha their_request) et_arp reply ∷ [])
    × (arp_lookup_eth_addr s'.cache their_ip ≡ some (arp_sha their_request))
unfolding addr_ipv4_eq arp_lookup arp_accepts write_bytes read_bytes
arp_recv-replies_example = arp_recv-replies quiet our_intf their_request 0 refl refl refl refl refl

arp_packet-ReadBack_example :
    ReadBack our_intf.eth_addr our_ip op_request their_ip
      (arp_packet quiet our_intf op_request broadcast_eth_addr their_ip)
arp_packet-ReadBack_example =
    arp_packet-ReadBack quiet our_intf op_request broadcast_eth_addr their_ip refl refl
      (omega arith) (omega arith) (omega arith)

ipv4_accept-ipv4_packet_example :
    let p = ipv4_packet our_intf their_ip 1 packet in
    ipv4_accept p
    ≡ some (record { protocol = 1; src = our_ip; pkt = record p { start = 256; end = 300 } })
ipv4_accept-ipv4_packet_example =
    ipv4_accept-ipv4_packet our_intf their_ip 1 packet (omega arith) (omega arith) (omega arith)
      (omega arith)

-- Three nodes: the head 1 and two routes, the longer prefix first.
abbrev route_links : Store
route_links = record {
  next = λ p. if p == 1 then 2 else (if p == 2 then 3 else (if p == 3 then 1 else 0));
  prev = λ p. if p == 1 then 3 else (if p == 2 then 1 else (if p == 3 then 2 else 0));
}

abbrev route_at : ℕ → NetRoute
route_at p = record {
  dst = 0;
  mask = if p == 2 then 0xffffff else (if p == 3 then 0xffff else 7);
  gateway = 0;
  intf = 1;
}

abbrev table : RouteTable
table = record { links = route_links; route = route_at }

table-Ring : Ring route_links (1 ∷ 2 ∷ 3 ∷ [])
table-Ring = ground arith

net_route_add-Added_example :
    Added table 1 4
      (record { dst = 5; mask = 9; gateway = 0; intf = 2 })
      (2 ∷ 3 ∷ [])
      (net_route_add 3 table 1 4 5 9 none 2)
net_route_add-Added_example =
    net_route_add-Added table 1 4 5 9 2 3 none (2 ∷ 3 ∷ []) table-Ring (ground arith) (omega arith)
