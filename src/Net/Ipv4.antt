-- ===== src/Net/Ipv4.antt =====
-- src/net/ipv4.c: headers of IPv4 packets. An IPv4 header is read and written at its 20 bytes.
pub mod Laws
use aijak.Common.{
  ℕ, zero, suc, ◌+◌, ◌-◌, ◌*◌, ◌/◌, ◌%◌, ◌^◌, ◌≤◌, ◌<◌, ◌≡◌, refl, sym, ap, ap₂, ◌∙◌, inl, inr,
  arith, Bool, true, false, ◌&&◌, not,
}
use aijak.Common.{
  List, [], ◌∷◌, ◌++◌, length, length-append, ◌==◌, leb, if◌then◌else◌, Option, none, some, u8, u16,
  bit_and,
}
use aijak.Memory.Bytes.{Mem}
use aijak.Net.Swap.{net_swap16}
use aijak.Net.Checksum.{net_checksum}
use aijak.Net.Route.{
  NetRoute, RouteTable, Found, at_node, null, out_of_fuel, net_route_find, net_route_next_addr,
}
use aijak.Net.Packet.{NetBuf, NetIntf, read_bytes, write_bytes, read16, read_ip, ip_bytes, contents}
use aijak.Net.Arp.{Net, et_ipv4}
use aijak.Net.Arp.Send.{eth_send_intf}

abbrev pub ip_proto_icmp : ℕ
ip_proto_icmp = 1

-- A `uint16` in memory, the low byte first.
abbrev pub word : ℕ → List ℕ
word w = (w % 256) ∷ (w / 256) ∷ []

-- The header before its checksum field, and behind it.
abbrev pub header_front : ℕ → ℕ → List ℕ
header_front len protocol =
    (0x45 ∷ 0 ∷ []) ++ word (net_swap16 (u16 len)) ++ (0 ∷ 0 ∷ 0 ∷ 0 ∷ 64 ∷ protocol ∷ [])

abbrev pub header_back : NetIntf → ℕ → List ℕ
header_back intf dst = ip_bytes intf.ip_addr ++ ip_bytes dst

-- The packet that `ipv4_send_intf` hands to `intf->send`.
unfoldable pub ipv4_packet : NetIntf → ℕ → ℕ → NetBuf → NetBuf
unfolding net_swap16 net_checksum write_bytes read_bytes
ipv4_packet intf dst protocol pkt =
    let start = pkt.start - 20 in
    let blank =
      write_bytes pkt.bytes start
        (header_front (pkt.end - start) protocol ++ ((0 ∷ 0 ∷ []) ++ header_back intf dst)) in
    let checksum = net_checksum (read_bytes blank start 20) in
    record pkt {
      start = start;
      bytes = write_bytes blank (start + 10) (word (net_swap16 checksum));
    }

unfoldable pub ipv4_send_intf : Net → NetIntf → ℕ → ℕ → ℕ → NetBuf → Net
unfolding ipv4_packet eth_send_intf
ipv4_send_intf s intf next dst protocol pkt =
    eth_send_intf s intf (ip_bytes next) et_ipv4 (ipv4_packet intf dst protocol pkt)

-- A packet that `ipv4_recv` accepts: its protocol, its sender, and the buffer with the header
-- taken off.
pub record Datagram : Type 0 where
  pub protocol : ℕ
  pub src : ℕ
  pub pkt : NetBuf

-- The guards of `ipv4_recv`, on the fields of the header: its first byte, its length, fragment
-- offset, protocol and source.
unfoldable pub ipv4_check : NetBuf → ℕ → ℕ → ℕ → ℕ → ℕ → Option Datagram
ipv4_check pkt first len offset protocol src =
    if leb (pkt.start + 20) pkt.end
      && (first / 16 == 4)
      && (bit_and offset 0x1fff == 0)
      && leb (pkt.start + len) pkt.end
    then some (record {
      protocol = protocol;
      src = src;
      pkt = record pkt { start = pkt.start + 4 * (first % 16); end = pkt.start + len };
    })
    else none

unfoldable pub ipv4_accept : NetBuf → Option Datagram
unfolding ipv4_check net_swap16
ipv4_accept pkt =
    let m = pkt.bytes in
    ipv4_check pkt (m pkt.start) (net_swap16 (read16 m (pkt.start + 2)))
      (net_swap16 (read16 m (pkt.start + 6))) (m (pkt.start + 9)) (read_ip m (pkt.start + 12))
