-- ===== src/Net/Addr/Text/Buffer.antt =====
-- src/net/addr.c: an IPv4 address is printed into a buffer and read back from it.
use aijak.Common.{ℕ, zero, suc, ◌+◌, ◌-◌, ◌/◌, ◌^◌, ◌<◌, ◌≤◌, ◌≡◌, refl, arith, ap, ◌∙◌}
use aijak.Common.{some, List, [], ◌∷◌, ◌++◌, length, length-append, take, u8}
use aijak.Memory.Bytes.{Mem}
use aijak.Format.Buffer.{printed_to, printed_to-Fits}
use aijak.Format.Digits.{length-numeral}
use aijak.Format.Render.{decimal, dec_char}
use aijak.Net.Packet.{read_bytes}
use aijak.Net.Packet.Laws.{read_bytes-add}
use aijak.Net.Addr.Text.{addr_ipv4_tostr, addr_strto_ipv4}
use aijak.Net.Addr.Text.RoundTrip.{
  dotted, ipv4_text, dotted-append, all_stored, addr_ipv4_tostr-dotted, addr_strto_ipv4-dotted,
}

length-decimal : (n : ℕ) → n < 256 → length (decimal n) ≤ 3
length-decimal n h = length-numeral dec_char 31 2 n (omega arith)

length-dotted :
    (a b c d : ℕ) → a < 256 → b < 256 → c < 256 → d < 256 → length (dotted a b c d []) ≤ 15
length-dotted a b c d ha hb hc hd =
    let t3 : List ℕ = decimal d ++ [] in
    let t2 : List ℕ = decimal c ++ b'.' ∷ t3 in
    let t1 : List ℕ = decimal b ++ b'.' ∷ t2 in
    let l0 : length (decimal a ++ b'.' ∷ t1) ≡ length (decimal a) + suc (length t1) =
      length-append (decimal a) (b'.' ∷ t1) in
    let l1 : length t1 ≡ length (decimal b) + suc (length t2) =
      length-append (decimal b) (b'.' ∷ t2) in
    let l2 : length t2 ≡ length (decimal c) + suc (length t3) =
      length-append (decimal c) (b'.' ∷ t3) in
    let l3 : length t3 ≡ length (decimal d) + 0 = length-append (decimal d) [] in
    omega (
      arith,
      l0,
      l1,
      l2,
      l3,
      length-decimal a ha,
      length-decimal b hb,
      length-decimal c hc,
      length-decimal d hd,
    )

take-whole : (n : ℕ) (xs : List ℕ) → length xs ≤ n → take n xs ≡ xs
take-whole zero [] h = refl
take-whole (suc n) [] h = refl
take-whole zero (x ∷ xs) h = absurd (omega arith)
take-whole (suc n) (x ∷ xs) h = ap (λ t. x ∷ t) (take-whole n xs (omega arith))

-- An IPv4 address that `addr_ipv4_tostr` prints into a buffer of at least 16 bytes, which is
-- IPV4_ADDR_STRING_SIZE, is what `addr_strto_ipv4` reads from the string in the buffer.
pub addr_strto_ipv4-addr_ipv4_tostr :
    (m : Mem) (str size a ip : ℕ)
    → 0 < str
    → str + size < 2 ^ 32
    → 16 ≤ size
    → a + 3 < 2 ^ 32
    → ip < 2 ^ 32
    → (r : Mem × ℕ) × (addr_ipv4_tostr m str size ip ≡ some r)
      × (addr_strto_ipv4 r.0 a (read_bytes r.0 str (r.1 + 1)) ≡ some (all_stored r.0 a ip, some ip))
unfolding read_bytes
addr_strto_ipv4-addr_ipv4_tostr m str size a ip low fit room local small =
    let text = ipv4_text ip in
    let r = printed_to m str size text in
    let short =
      length-dotted (u8 ip) (u8 (ip / 2 ^ 8)) (u8 (ip / 2 ^ 16)) (u8 (ip / 2 ^ 24)) (omega arith)
        (omega arith) (omega arith) (omega arith) in
    let fits = (printed_to-Fits m str size text).1 (omega arith) in
    let whole : read_bytes r.0 str r.1 ≡ text =
      fits.1 ∙ take-whole (size - 1) text (omega (arith, short)) in
    let ended : read_bytes r.0 str (r.1 + 1) ≡ text ++ 0 ∷ [] =
      read_bytes-add r.0 str r.1 1
      ∙ ap (λ t. t ++ read_bytes r.0 (str + r.1) 1) whole
      ∙ ap (λ (z : ℕ). text ++ z ∷ []) fits.2 in
    (
      r,
      addr_ipv4_tostr-dotted m str size ip low fit,
      ap (addr_strto_ipv4 r.0 a) (
            ended
            ∙ dotted-append (u8 ip) (u8 (ip / 2 ^ 8)) (u8 (ip / 2 ^ 16)) (u8 (ip / 2 ^ 24)) []
                (0 ∷ []))
          ∙ addr_strto_ipv4-dotted r.0 a ip [] local small,
    )
