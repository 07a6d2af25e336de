-- ===== src/Net/Eth.antt =====
-- src/net/eth.c: Ethernet frames.
use aijak.Common.{ℕ, ◌+◌, ◌-◌, ◌*◌, ◌/◌, ◌%◌, ◌^◌, ◌≤◌, ◌<◌, ◌≡◌, ap, ◌∙◌, none, some}
use aijak.Common.{
  List, [], ◌∷◌, ◌++◌, length, ◌==◌, ltb, leb, if◌then◌else◌, length-append, inr, ◌&&◌, ◌||◌, not,
}
use aijak.Common.{arith, bit_or, ◌<<<◌}
use aijak.Memory.Bytes.{Mem}
use aijak.Net.Swap.{net_swap16, net_swap16_swap}
use aijak.Net.Packet.{NetBuf, NetIntf, write_bytes, read_bytes, at?, contents}
use aijak.Net.Packet.Laws.{read_bytes-eq, write_bytes-SameOutside, write_bytes-append}

-- `EthPacket`, whose `hdr` is the start of the packet.
pub record EthPacket : Type 0 where
  pub ether_type : ℕ
  pub hdr_len : ℕ

-- What `eth_decode` returns; `out_of_bounds` is a read behind the end of the packet.
pub data Decoded : Type 0 where
  accepted : EthPacket → Decoded
  rejected : Decoded
  out_of_bounds : Decoded

-- `data[i]`, and what is done with it.
abbrev pub reading : NetBuf → ℕ → (ℕ → Decoded) → Decoded
reading pkt i rest = elim (at? pkt i) [ none ↦ out_of_bounds | some b ↦ rest b ]

abbrev pub decode_llc : NetBuf → Decoded
decode_llc pkt = reading pkt 14 (λ dsap. reading pkt 15 (λ ssap.
    if not (dsap == 0xaa) || not (ssap == 0xaa)
    then rejected
    else reading pkt 20 (λ hi.
      reading pkt 21
        (λ lo. accepted (record { ether_type = bit_or (hi <<< 8) lo; hdr_len = 22 })))))

unfoldable pub eth_decode : NetBuf → Decoded
unfolding net_swap16
eth_decode pkt =
    if ltb pkt.end (pkt.start + 14)
    then rejected
    else reading pkt 12 (λ lo. reading pkt 13 (λ hi.
      let n = net_swap16 (lo + 256 * hi) in
      if leb n 1500 && leb (pkt.start + 22) pkt.end
      then decode_llc pkt
      else accepted (record { ether_type = n; hdr_len = 14 })))

-- The end of `eth_send_intf`: the header goes before the packet, which goes to the device.
unfoldable pub eth_transmit : NetIntf → List ℕ → ℕ → NetBuf → NetBuf
unfolding write_bytes net_swap16
eth_transmit intf dst ether_type pkt =
    let start = pkt.start - 14 in
    let t = net_swap16 ether_type in
    record pkt {
      start = start;
      bytes = write_bytes pkt.bytes start (dst ++ intf.eth_addr ++ (t % 256) ∷ (t / 256) ∷ []);
    }

-- What `eth_decode` reads lies inside the packet, and so does the header it reports.
abbrev pub DecodedInside : NetBuf → Decoded → Type 0
DecodedInside pkt (accepted ep) = pkt.start + ep.hdr_len ≤ pkt.end
DecodedInside pkt rejected = Unit
DecodedInside pkt out_of_bounds = ⊥

-- For every packet, `eth_decode` reads no byte behind the packet's end, and the header of an
-- accepted packet lies inside it.
pub eth_decode-DecodedInside : (pkt : NetBuf) → DecodedInside pkt (eth_decode pkt)
unfolding eth_decode
eth_decode-DecodedInside pkt = ground arith

-- The two bytes of the type, where `eth_decode` reads them.
type_bytes :
    (m : Mem) (a lo hi : ℕ) (dst src : List ℕ)
    → length dst ≡ 6
    → length src ≡ 6
    → let m' = write_bytes m a (dst ++ src ++ lo ∷ hi ∷ []) in
      (m' (a + 12) ≡ lo) × (m' (a + 13) ≡ hi)
unfolding write_bytes
type_bytes m a lo hi dst src hd hs =
    let whole = write_bytes-append m a (dst ++ src) (lo ∷ hi ∷ []) in
    let twelve : length (dst ++ src) ≡ 12 = omega (arith, length-append dst src) in
    rw (whole, twelve) (ground arith, ground arith)

-- The Ethernet addresses are of six bytes and the protocol is a type of more than 1500: the frame
-- that `eth_transmit` makes of a packet with room for the header is decoded to this type with a
-- header of 14 bytes, and behind the header stand the contents of the packet.
pub eth_decode-eth_transmit :
    (intf : NetIntf) (dst : List ℕ) (t : ℕ) (pkt : NetBuf)
    → length dst ≡ 6
    → length intf.eth_addr ≡ 6
    → 1500 < t
    → t < 2 ^ 16
    → 14 ≤ pkt.start
    → pkt.start ≤ pkt.end
    → let frame = eth_transmit intf dst t pkt in
      (eth_decode frame ≡ accepted (record { ether_type = t; hdr_len = 14 }))
      × (read_bytes frame.bytes (frame.start + 14) (frame.end - (frame.start + 14)) ≡ contents pkt)
unfolding eth_transmit eth_decode
eth_decode-eth_transmit intf dst t pkt hd hs big small room order =
    let w = net_swap16 t in
    let at = pkt.start - 14 in
    let (lo, hi) = type_bytes pkt.bytes at (w % 256) (w / 256) dst intf.eth_addr hd hs in
    let back : net_swap16 (w % 256 + 256 * (w / 256)) ≡ t =
      ap net_swap16 {x = w % 256 + 256 * (w / 256)} {y = w} (omega arith)
      ∙ net_swap16_swap t small in
    let hdr = dst ++ intf.eth_addr ++ (w % 256) ∷ (w / 256) ∷ [] in
    let long : length hdr ≡ 14 = omega (
      arith,
      length-append dst intf.eth_addr,
      length-append (dst ++ intf.eth_addr) ((w % 256) ∷ (w / 256) ∷ []),
    ) in
    let behind : at + 14 ≡ pkt.start = omega arith in
    (
      ground (arith, lo, hi, back),
      rw behind (
          read_bytes-eq pkt.bytes (write_bytes pkt.bytes at hdr) pkt.start (pkt.end - pkt.start)
            (λ b from _. write_bytes-SameOutside pkt.bytes at hdr b (inr (omega arith)))),
    )
