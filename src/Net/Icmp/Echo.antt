-- ===== src/Net/Icmp/Echo.antt =====
-- src/net/icmp.c: what stands in an echo request or reply.
use aijak.Common.{
  ℕ, zero, suc, ◌+◌, ◌-◌, ◌*◌, ◌/◌, ◌%◌, ◌^◌, ◌<◌, ◌≡◌, sym, ap, ◌∙◌, inl, inr, arith,
}
use aijak.Common.{List, [], ◌∷◌, get_or, u8}
use aijak.Memory.Bytes.{Mem}
use aijak.Memory.Copy.{memcpy, memcpy_repeats, memcpy-copy_bytes, copy_bytes-SameOutside}
use aijak.Net.Checksum.{net_checksum}
use aijak.Net.Packet.{read_bytes, write_bytes, net_buf_start}
use aijak.Net.Packet.Laws.{write_bytes-SameOutside, read_bytes-get, read_bytes-write_bytes}
use aijak.Net.Arp.{Net}
use aijak.Net.Arp.Send.{net_alloc_buf}
use aijak.Net.Icmp.{echo_header, echo_blank, echo_packet}

-- The header in the buffer, before the payload is copied.
start_mem : Net → ℕ → ℕ → ℕ → Mem
start_mem s type id sequence =
    write_bytes (net_alloc_buf s).bytes net_buf_start (echo_header type id sequence)

copied : Net → ℕ → ℕ → ℕ → ℕ → Mem
unfolding start_mem
copied s type id sequence n =
    memcpy (start_mem s type id sequence) (net_buf_start + 8) net_buf_start n

header_byte :
    (s : Net) (type id sequence n i : ℕ)
    → i < 8
    → copied s type id sequence n (net_buf_start + i) ≡ get_or (echo_header type id sequence) i 0
unfolding copied start_mem
header_byte s type id sequence n i h =
    let m = start_mem s type id sequence in
    let same : memcpy m (net_buf_start + 8) net_buf_start n (net_buf_start + i)
        ≡ m (net_buf_start + i) =
      rw (memcpy-copy_bytes m (net_buf_start + 8) net_buf_start n) (
        copy_bytes-SameOutside n m (net_buf_start + 8) net_buf_start (net_buf_start + i)
          (inl (omega arith))) in
    same
    ∙ sym (read_bytes-get m net_buf_start 8 i h)
    ∙ ap (λ (bs : List ℕ). get_or bs i 0)
        (read_bytes-write_bytes (net_alloc_buf s).bytes net_buf_start
          (echo_header type id sequence))

repeated :
    (s : Net) (type id sequence n : ℕ) (q r : ℕ)
    → r < 8
    → 8 * q + r < n
    → copied s type id sequence n (net_buf_start + 8 + (8 * q + r))
      ≡ get_or (echo_header type id sequence) r 0
unfolding copied
repeated s type id sequence n zero r h inside =
    let final = copied s type id sequence n in
    ap final {x = net_buf_start + 8 + (8 * 0 + r)} {y = net_buf_start + 8 + r} (omega arith)
    ∙ memcpy_repeats (start_mem s type id sequence) (net_buf_start + 8) net_buf_start n r
        (omega arith) (omega arith)
    ∙ header_byte s type id sequence n r h
repeated s type id sequence n (suc q) r h inside =
    let final = copied s type id sequence n in
    memcpy_repeats (start_mem s type id sequence) (net_buf_start + 8) net_buf_start n
      (8 * suc q + r) (omega arith) inside
    ∙ ap final {x = net_buf_start + (8 * suc q + r)} {y = net_buf_start + 8 + (8 * q + r)}
        (omega arith)
    ∙ repeated s type id sequence n q r h (omega arith)

-- The payload of every echo request and reply repeats the eight bytes of the header, its checksum
-- field being zero, whatever payload was asked for; the packet is a byte longer than header and
-- payload.
pub echo_packet-payload :
    (s : Net) (type id sequence echo_len i : ℕ)
    → i < echo_len
    → let p = echo_packet s type id sequence echo_len in
      (p.bytes (p.start + 8 + i) ≡ get_or (echo_header type id sequence) (i % 8) 0)
      × (p.end ≡ p.start + 8 + echo_len + 1)
unfolding echo_packet echo_blank copied start_mem
echo_packet-payload s type id sequence echo_len i h =
    let final = copied s type id sequence echo_len in
    let blank = echo_blank s type id sequence echo_len in
    let c = net_checksum (read_bytes blank.bytes blank.start (blank.end - blank.start)) in
    (
      write_bytes-SameOutside final (net_buf_start + 2) (u8 (c / 2 ^ 8) ∷ u8 c ∷ [])
            (net_buf_start + 8 + i) (inr (omega arith))
          ∙ ap final {x = net_buf_start + 8 + i} {y = net_buf_start + 8 + (8 * (i / 8) + i % 8)}
              (omega arith)
          ∙ repeated s type id sequence echo_len (i / 8) (i % 8) (omega arith) (omega arith),
      omega arith,
    )
