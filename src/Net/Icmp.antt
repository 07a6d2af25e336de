-- ===== src/Net/Icmp.antt =====
-- src/net/icmp.c, and the receiving halves of src/net/ipv4.c and src/net/eth.c: echo requests and
-- replies.
pub mod Echo
use aijak.Common.{ℕ, ◌+◌, ◌-◌, ◌*◌, ◌/◌, ◌%◌, ◌^◌, Option, none, some, List, [], ◌∷◌}
use aijak.Common.{◌==◌, leb, if◌then◌else◌, u8, u16, bit_or, ◌<<<◌}
use aijak.Memory.Bytes.{Mem, set_byte}
use aijak.Memory.Copy.{memcpy}
use aijak.Net.Checksum.{net_checksum}
use aijak.Net.Route.{
  NetRoute, RouteTable, Found, at_node, null, out_of_fuel, net_route_find, net_route_next_addr,
}
use aijak.Net.Packet.{NetBuf, NetIntf, read_bytes, write_bytes}
use aijak.Net.Eth.{eth_decode, Decoded, accepted, rejected, out_of_bounds}
use aijak.Net.Arp.{Net, et_arp, et_ipv4}
use aijak.Net.Arp.Send.{net_alloc_buf, arp_recv}
use aijak.Net.Ipv4.{ipv4_send_intf, ip_proto_icmp, ipv4_accept, Datagram}

-- The routing table with its head, a bound on the number of its nodes, and the interfaces that
-- the routes name.
pub record Routing : Type 0 where
  pub table : RouteTable
  pub head : ℕ
  pub rounds : ℕ
  pub interfaces : ℕ → NetIntf

abbrev pub send_routed : Routing → Net → ℕ → ℕ → NetBuf → Found → Net
send_routed r s dst protocol pkt (at_node p) =
    let route = r.table.route p in
    ipv4_send_intf s (r.interfaces route.intf) (net_route_next_addr route dst) dst protocol pkt
send_routed r s dst protocol pkt null = s
send_routed r s dst protocol pkt out_of_fuel = s

unfoldable pub ipv4_send : Routing → Net → ℕ → ℕ → NetBuf → Net
unfolding net_route_find net_route_next_addr ipv4_send_intf
ipv4_send r s dst protocol pkt =
    send_routed r s dst protocol pkt (net_route_find r.rounds r.table r.head dst)

abbrev pub icmp_type_echo_reply : ℕ
icmp_type_echo_reply = 0

abbrev pub icmp_type_echo_request : ℕ
icmp_type_echo_request = 8

-- The first eight bytes, before the checksum is known.
abbrev pub echo_header : ℕ → ℕ → ℕ → List ℕ
echo_header type id sequence =
    type ∷ 0 ∷ 0 ∷ 0 ∷ u8 (id / 2 ^ 8) ∷ u8 id ∷ u8 (sequence / 2 ^ 8) ∷ u8 sequence ∷ []

-- `memcpy(data + 8, data, echoLen)` copies from the packet, not from `echoData`.
unfoldable pub echo_blank : Net → ℕ → ℕ → ℕ → ℕ → NetBuf
unfolding write_bytes memcpy
echo_blank s type id sequence echo_len =
    let pkt = net_alloc_buf s in
    record pkt {
      bytes =
          memcpy (write_bytes pkt.bytes pkt.start (echo_header type id sequence)) (pkt.start + 8)
            pkt.start echo_len;
      end = pkt.end + 9 + echo_len;
    }

-- `data[2]` and `data[3]`
unfoldable pub echo_packet : Net → ℕ → ℕ → ℕ → ℕ → NetBuf
unfolding echo_blank net_checksum read_bytes write_bytes
echo_packet s type id sequence echo_len =
    let pkt = echo_blank s type id sequence echo_len in
    let checksum = net_checksum (read_bytes pkt.bytes pkt.start (pkt.end - pkt.start)) in
    record pkt {
      bytes = write_bytes pkt.bytes (pkt.start + 2) (u8 (checksum / 2 ^ 8) ∷ u8 checksum ∷ []);
    }

-- `echo_data` and `echo_end` are the pointers.
unfoldable pub icmp_echo : ℕ → Routing → Net → ℕ → ℕ → ℕ → ℕ → ℕ → Net
unfolding echo_packet ipv4_send
icmp_echo type r s dst id sequence echo_data echo_end =
    let pkt = echo_packet s type id sequence (echo_end - echo_data) in
    ipv4_send r (record s { allocated = s.allocated + 1 }) dst ip_proto_icmp pkt

abbrev pub icmp_echo_reply : Routing → Net → ℕ → ℕ → ℕ → ℕ → ℕ → Net
icmp_echo_reply = icmp_echo icmp_type_echo_reply

abbrev pub icmp_echo_request : Routing → Net → ℕ → ℕ → ℕ → ℕ → ℕ → Net
icmp_echo_request = icmp_echo icmp_type_echo_request

-- `src` is `ipHdr->src`.
unfoldable pub icmp_recv : Routing → Net → ℕ → NetBuf → Net
unfolding icmp_echo
icmp_recv r s src pkt =
    let m = pkt.bytes in
    let a = pkt.start in
    let id = bit_or (m (a + 4) <<< 8) (m (a + 5)) in
    let sequence = bit_or (m (a + 6) <<< 8) (m (a + 7)) in
    if leb (a + 8) pkt.end
    then (if m a == icmp_type_echo_request
        then icmp_echo_reply r s src id sequence (a + 8) pkt.end
        else s)
    else s

abbrev pub recv_datagram : Routing → Net → Option Datagram → Net
recv_datagram r s none = s
recv_datagram r s (some d) =
    let answered = icmp_recv r s d.src d.pkt in if d.protocol == ip_proto_icmp then answered else s

unfoldable pub ipv4_recv : Routing → Net → NetBuf → Net
unfolding icmp_recv ipv4_accept
ipv4_recv r s pkt = recv_datagram r s (ipv4_accept pkt)

abbrev pub dispatch : Routing → Net → NetIntf → NetBuf → Decoded → Net
dispatch r s intf pkt (accepted ep) =
    let inner : NetBuf = record pkt { start = pkt.start + ep.hdr_len } in
    if ep.ether_type == et_arp
    then arp_recv s intf inner
    else if ep.ether_type == et_ipv4
    then ipv4_recv r s inner
    else s
dispatch r s intf pkt rejected = s
dispatch r s intf pkt out_of_bounds = s

unfoldable pub eth_recv : Routing → Net → NetIntf → NetBuf → Net
unfolding arp_recv ipv4_recv eth_decode
eth_recv r s intf pkt = dispatch r s intf pkt (eth_decode pkt)
