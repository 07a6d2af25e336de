-- ===== src/Net/Arp/Wire.antt =====
-- src/net/arp.c: what a host reads from the packet that another host's `arp_send` made.
use aijak.Common.{ℕ, ◌+◌, ◌/◌, ◌^◌, ◌<◌, ◌≡◌, refl, sym, ◌∙◌, arith, true}
use aijak.Common.{List, [], ◌∷◌, ◌++◌, ◌==◌, if◌then◌else◌, length, u8}
use mathlib.Core.Path.{subst₂}
use aijak.Net.Swap.{net_swap16, net_swap16_bytes}
use aijak.Net.Packet.{
  NetBuf, NetIntf, read_bytes, write_bytes, null_eth_addr, ip_bytes, net_buf_start,
}
use aijak.Net.Arp.{Net, op_request}
use aijak.Net.Arp.Send.{arp_packet, arp_accepts, arp_op, arp_sha, arp_spa, arp_tpa, ip_of}
use aijak.Memory.Bytes.{Mem}

-- The list of six bytes.
abbrev six : ℕ → ℕ → ℕ → ℕ → ℕ → ℕ → List ℕ
six a b c d e f = a ∷ b ∷ c ∷ d ∷ e ∷ f ∷ []

IsSix : List ℕ → Type 0
IsSix xs = (a b c d e f : ℕ) × (xs ≡ six a b c d e f)

length-IsSix : (xs : List ℕ) → length xs ≡ 6 → IsSix xs
unfolding IsSix
length-IsSix (a ∷ b ∷ c ∷ d ∷ e ∷ f ∷ []) h = (a, b, c, d, e, f, refl)
length-IsSix (a ∷ b ∷ c ∷ d ∷ e ∷ f ∷ g ∷ xs) h = absurd (omega arith)
length-IsSix (a ∷ b ∷ c ∷ d ∷ e ∷ []) h = absurd (omega arith)
length-IsSix (a ∷ b ∷ c ∷ d ∷ []) h = absurd (omega arith)
length-IsSix (a ∷ b ∷ c ∷ []) h = absurd (omega arith)
length-IsSix (a ∷ b ∷ []) h = absurd (omega arith)
length-IsSix (a ∷ []) h = absurd (omega arith)
length-IsSix [] h = absurd (omega arith)

-- What the receiver reads in the packet.
abbrev pub ReadBack : List ℕ → ℕ → ℕ → ℕ → NetBuf → Type 0
ReadBack sha spa op tpa pkt =
    (arp_accepts pkt ≡ true)
    × (arp_op pkt ≡ op)
    × (arp_sha pkt ≡ sha)
    × (ip_of (arp_spa pkt) ≡ spa)
    × (arp_tpa pkt ≡ tpa)

packet_of : Mem → List ℕ → ℕ → ℕ → List ℕ → ℕ → NetBuf
packet_of m sha spa op tha tpa = record {
  bytes = write_bytes m net_buf_start (
      (0 ∷ 1 ∷ 0x08 ∷ 0x00 ∷ 6 ∷ 4 ∷ u8 (op / 2 ^ 8) ∷ u8 op ∷ [])
      ++ sha
      ++ ip_bytes spa
      ++ tha
      ++ ip_bytes tpa);
  start = net_buf_start;
  end = net_buf_start + 28;
  ref_count = 1;
}

packet_of-ReadBack :
    (m : Mem) (a b c d e f spa op a' b' c' d' e' f' tpa : ℕ)
    → op < 2 ^ 16
    → spa < 2 ^ 32
    → tpa < 2 ^ 32
    → ReadBack
        (six a b c d e f)
        spa
        op
        tpa
        (packet_of m (six a b c d e f) spa op (six a' b' c' d' e' f') tpa)
unfolding packet_of arp_accepts write_bytes read_bytes net_swap16
packet_of-ReadBack m a b c d e f spa op a' b' c' d' e' f' tpa ho hs ht = (
  refl,
  net_swap16_bytes (u8 (op / 2 ^ 8)) (u8 op) (omega arith) (omega arith) ∙ omega arith,
  refl,
  omega arith,
  omega arith,
)

-- The interface's Ethernet address and the target's are of six bytes, and the numbers are in
-- range: the packet that `arp_send` makes is accepted by `arp_recv`, which reads in it the
-- operation, the interface's two addresses as the sender's, and the target's IPv4 address.
pub arp_packet-ReadBack :
    (s : Net) (intf : NetIntf) (op : ℕ) (tha : List ℕ) (tpa : ℕ)
    → length intf.eth_addr ≡ 6
    → length tha ≡ 6
    → op < 2 ^ 16
    → intf.ip_addr < 2 ^ 32
    → tpa < 2 ^ 32
    → ReadBack intf.eth_addr intf.ip_addr op tpa (arp_packet s intf op tha tpa)
unfolding IsSix packet_of
arp_packet-ReadBack s intf op tha tpa hs ht ho hi hp =
    let (a, b, c, d, e, f, own) = length-IsSix intf.eth_addr hs in
    let target = if op == op_request then null_eth_addr else tha in
    let long : length target ≡ 6 = ground (arith, ht) in
    let (a', b', c', d', e', f', other) = length-IsSix target long in
    subst₂
      (λ (x : List ℕ) (y : List ℕ).
        ReadBack x intf.ip_addr op tpa
          (packet_of (s.old_bytes s.allocated) x intf.ip_addr op y tpa))
      (sym own) (sym other)
      (packet_of-ReadBack (s.old_bytes s.allocated) a b c d e f intf.ip_addr op a' b' c' d' e' f'
        tpa ho hi hp)
