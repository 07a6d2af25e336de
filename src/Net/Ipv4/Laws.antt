-- ===== src/Net/Ipv4/Laws.antt =====
-- src/net/ipv4.c: what a host reads in the packet that another host's `ipv4_send_intf` made.
use aijak.Common.{ℕ, ◌+◌, ◌-◌, ◌*◌, ◌/◌, ◌%◌, ◌^◌, ◌≤◌, ◌<◌, ◌≡◌, refl, sym, ap, ap₂, ◌∙◌, arith}
use aijak.Common.{List, [], ◌∷◌, ◌++◌, Option, some, u16, bit_and, get_or}
use aijak.Memory.Bytes.{Mem}
use aijak.Net.Swap.{net_swap16, net_swap16-lt, net_swap16_bytes, net_swap16_swap}
use aijak.Net.Checksum.{net_checksum, net_checksum_final}
use aijak.Net.Checksum.Laws.{IsBytes, net_checksum-verifies}
use aijak.Net.Packet.{NetBuf, NetIntf, read_bytes, write_bytes, read16, read_ip}
use aijak.Net.Packet.Laws.{read_bytes-replaced, read_bytes-get, read_bytes-write_bytes}
use aijak.Net.Ipv4.{word, header_front, header_back, ipv4_packet, ipv4_accept, ipv4_check, Datagram}

net_checksum-lt : (bytes : List ℕ) → net_checksum bytes < 2 ^ 16
unfolding net_checksum net_checksum_final
net_checksum-lt bytes = omega arith

word-swap : (c : ℕ) → c < 2 ^ 16 → word (net_swap16 c) ≡ (c / 256) ∷ (c % 256) ∷ []
word-swap c h =
    let e : net_swap16 c ≡ c / 256 + 256 * (c % 256) =
      ap net_swap16 {x = c} {y = c % 256 + 256 * (c / 256)} (omega arith)
      ∙ net_swap16_bytes (c % 256) (c / 256) (omega arith) (omega arith) in
    ap₂ (λ (x : ℕ) (y : ℕ). x ∷ y ∷ []) (omega (arith, e)) (omega (arith, e))

-- The header as it is sent.
header : NetIntf → ℕ → ℕ → ℕ → List ℕ
header intf dst len protocol =
    let front = header_front len protocol in
    let back = header_back intf dst in
    let c = net_checksum (front ++ 0 ∷ 0 ∷ back) in front ++ (c / 256) ∷ (c % 256) ∷ back

header_eq :
    (intf : NetIntf) (dst protocol : ℕ) (pkt : NetBuf)
    → let p = ipv4_packet intf dst protocol pkt in
      read_bytes p.bytes p.start 20 ≡ header intf dst (pkt.end - p.start) protocol
unfolding ipv4_packet header
header_eq intf dst protocol pkt =
    let at = pkt.start - 20 in
    let front = header_front (pkt.end - at) protocol in
    let back = header_back intf dst in
    let blank = write_bytes pkt.bytes at (front ++ 0 ∷ 0 ∷ back) in
    let written : read_bytes blank at 20 ≡ front ++ 0 ∷ 0 ∷ back =
      read_bytes-write_bytes pkt.bytes at (front ++ 0 ∷ 0 ∷ back) in
    let c = net_checksum (read_bytes blank at 20) in
    let replaced : read_bytes (write_bytes blank (at + 10) (word (net_swap16 c))) at 20
        ≡ front ++ (word (net_swap16 c) ++ back) =
      read_bytes-replaced pkt.bytes at front (0 ∷ 0 ∷ []) (word (net_swap16 c)) back refl in
    let order : word (net_swap16 c) ≡ (c / 256) ∷ (c % 256) ∷ [] =
      word-swap c (net_checksum-lt (read_bytes blank at 20)) in
    replaced
    ∙ ap (λ (w : List ℕ). front ++ (w ++ back)) order
    ∙ ap (λ (bs : List ℕ). front ++ (net_checksum bs / 256) ∷ (net_checksum bs % 256) ∷ back)
        written

header-IsBytes :
    (intf : NetIntf) (dst len protocol : ℕ)
    → protocol < 256
    → IsBytes (header_front len protocol ++ 0 ∷ 0 ∷ header_back intf dst)
header-IsBytes intf dst len protocol h = let t = net_swap16-lt (u16 len) in ground (arith, t)

-- For a protocol of one byte, the checksum of the header that `ipv4_send_intf` puts before any
-- packet is zero.
pub ipv4_packet-checksum :
    (intf : NetIntf) (dst protocol : ℕ) (pkt : NetBuf)
    → protocol < 256
    → let p = ipv4_packet intf dst protocol pkt in net_checksum (read_bytes p.bytes p.start 20) ≡ 0
unfolding header
ipv4_packet-checksum intf dst protocol pkt h =
    let len = pkt.end - (ipv4_packet intf dst protocol pkt).start in
    ap net_checksum (header_eq intf dst protocol pkt)
    ∙ net_checksum-verifies (header_front len protocol) (header_back intf dst)
        (header-IsBytes intf dst len protocol h) (omega arith) refl

byte_eq :
    (intf : NetIntf) (dst protocol : ℕ) (pkt : NetBuf) (i : ℕ)
    → i < 20
    → let p = ipv4_packet intf dst protocol pkt in
      p.bytes (p.start + i) ≡ get_or (header intf dst (pkt.end - p.start) protocol) i 0
byte_eq intf dst protocol pkt i h =
    let p = ipv4_packet intf dst protocol pkt in
    sym (read_bytes-get p.bytes p.start 20 i h)
    ∙ ap (λ (bs : List ℕ). get_or bs i 0) (header_eq intf dst protocol pkt)

start_eq :
    (intf : NetIntf) (dst protocol : ℕ) (pkt : NetBuf)
    → (ipv4_packet intf dst protocol pkt).start ≡ pkt.start - 20
unfolding ipv4_packet
start_eq intf dst protocol pkt = refl

check-accepts :
    (pkt : NetBuf) (first len offset protocol src : ℕ)
    → first ≡ 0x45
    → pkt.start + len ≡ pkt.end
    → offset ≡ 0
    → 20 ≤ len
    → ipv4_check pkt first len offset protocol src
      ≡ some (record {
        protocol = protocol;
        src = src;
        pkt = record pkt { start = pkt.start + 20; end = pkt.end };
      })
unfolding ipv4_check
check-accepts pkt first len offset protocol src hf hl ho room =
    let whole : bit_and offset 0x1fff ≡ 0 = ap (λ o. bit_and o 0x1fff) ho in ground (arith, whole)

swapped_twice :
    (m : Mem) (a w : ℕ)
    → w < 2 ^ 16
    → m a ≡ net_swap16 w % 256
    → m (a + 1) ≡ net_swap16 w / 256
    → net_swap16 (read16 m a) ≡ w
swapped_twice m a w small lo hi =
    ap net_swap16 {x = read16 m a} {y = net_swap16 w} (omega (arith, lo, hi))
    ∙ net_swap16_swap w small

-- The fields of a header in memory.
end_eq :
    (intf : NetIntf) (dst protocol : ℕ) (pkt : NetBuf)
    → (ipv4_packet intf dst protocol pkt).end ≡ pkt.end
unfolding ipv4_packet
end_eq intf dst protocol pkt = refl

abbrev datagram : NetBuf → ℕ → ℕ → ℕ → ℕ → Option Datagram
datagram p protocol src start end =
    some (record { protocol = protocol; src = src; pkt = record p { start = start; end = end } })

datagram_eq :
    (p : NetBuf) {protocol protocol' src src' start start' end end' : ℕ}
    → protocol ≡ protocol'
    → src ≡ src'
    → start ≡ start'
    → end ≡ end'
    → datagram p protocol src start end ≡ datagram p protocol' src' start' end'
datagram_eq p a b c d = λ i. datagram p (a i) (b i) (c i) (d i)

fields :
    (m : Mem) (a : ℕ) (intf : NetIntf) (dst len protocol : ℕ)
    → len < 2 ^ 16
    → intf.ip_addr < 2 ^ 32
    → ((i : ℕ) → i < 20 → m (a + i) ≡ get_or (header intf dst len protocol) i 0)
    → (m a ≡ 0x45)
      × (net_swap16 (read16 m (a + 2)) ≡ len)
      × (net_swap16 (read16 m (a + 6)) ≡ 0)
      × (m (a + 9) ≡ protocol)
      × (read_ip m (a + 12) ≡ intf.ip_addr)
unfolding header net_swap16
fields m a intf dst len protocol small hi byte =
    let seven : m (a + 6 + 1) ≡ m (a + 7) = ap m (omega arith) in
    let b13 : m (a + 12 + 1) ≡ m (a + 13) = ap m (omega arith) in
    let b14 : m (a + 12 + 2) ≡ m (a + 14) = ap m (omega arith) in
    let b15 : m (a + 12 + 3) ≡ m (a + 15) = ap m (omega arith) in
    (
      ap m {x = a} {y = a + 0} (omega arith) ∙ byte 0 (omega arith),
      swapped_twice m (a + 2) len small
          (byte 2 (omega arith)
            ∙ ap (λ w. net_swap16 w % 256) {x = u16 len} {y = len} (omega arith))
          (ap m {x = a + 2 + 1} {y = a + 3} (omega arith)
            ∙ byte 3 (omega arith)
            ∙ ap (λ w. net_swap16 w / 256) {x = u16 len} {y = len} (omega arith)),
      ap net_swap16 {x = read16 m (a + 6)} {y = 0}
            (omega (arith, byte 6 (omega arith), byte 7 (omega arith)))
          ∙ refl,
      byte 9 (omega arith),
      omega (
        arith,
        byte 12 (omega arith),
        byte 13 (omega arith),
        byte 14 (omega arith),
        byte 15 (omega arith),
      ),
    )

-- A packet of less than 64 KiB with room for the header, which stands at 20 or behind, is sent by
-- an interface with a 32-bit address, by a protocol of one byte: `ipv4_recv` accepts what
-- `ipv4_send_intf` made of it, with this protocol, this sender, and the bounds of the packet.
pub ipv4_accept-ipv4_packet :
    (intf : NetIntf) (dst protocol : ℕ) (pkt : NetBuf)
    → intf.ip_addr < 2 ^ 32
    → 20 ≤ pkt.start
    → pkt.start ≤ pkt.end
    → pkt.end + 20 < pkt.start + 2 ^ 16
    → let p = ipv4_packet intf dst protocol pkt in
      ipv4_accept p
      ≡ some (record {
        protocol = protocol;
        src = intf.ip_addr;
        pkt = record p { start = pkt.start; end = pkt.end };
      })
unfolding ipv4_accept
ipv4_accept-ipv4_packet intf dst protocol pkt hi room order short =
    let p = ipv4_packet intf dst protocol pkt in
    let m = p.bytes in
    let at : p.start ≡ pkt.start - 20 = start_eq intf dst protocol pkt in
    let ends : p.end ≡ pkt.end = end_eq intf dst protocol pkt in
    let (first, len, offset, proto, src) =
      fields m p.start intf dst (pkt.end - p.start) protocol (omega (arith, at)) hi
        (byte_eq intf dst protocol pkt) in
    check-accepts p (m p.start) (net_swap16 (read16 m (p.start + 2)))
      (net_swap16 (read16 m (p.start + 6))) (m (p.start + 9)) (read_ip m (p.start + 12)) first
      (omega (arith, len, at, ends)) offset (omega (arith, len, at))
    ∙ datagram_eq p proto src (omega (arith, at)) ends
