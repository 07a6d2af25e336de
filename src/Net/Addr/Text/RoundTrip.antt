-- ===== src/Net/Addr/Text/RoundTrip.antt =====
-- src/net/addr.c: an IPv4 address is read back from its text.
use mathlib.Core.List.{append_assoc}
use mathlib.Core.Option
use aijak.Common.{ℕ, suc, ◌+◌, ◌/◌, ◌^◌, ◌<◌, ◌≡◌, refl, arith, ap, ◌∙◌, inl}
use aijak.Common.{◌==◌, false, some, List, [], ◌∷◌, ◌++◌, u8}
use aijak.Memory.Bytes.{Mem, write32, write32-SameOutside, write32_first}
use aijak.Format.{pos, is_space, is_digit}
use aijak.Format.Buffer.{printed_to, vsnprintf-render}
use aijak.Format.Render.{decimal, render, render_loop}
use aijak.Format.Scan.{scan_loop, vsscanf}
use aijak.Format.Scan.Laws.{scan_loop-decimal, scan_loop-literal, render_loop-decimal}
use aijak.Net.Packet.{ip_bytes, read_ip}
use aijak.Net.Addr.Text.{ipv4_format, no_strings, addr_ipv4_tostr, addr_strto_ipv4}

-- `%d` and the character behind it.
render_loop-field :
    (fuel n c : ℕ) (fmt args out : List ℕ)
    → n < 2 ^ 31
    → (c == 0) ≡ false
    → (c == b'%') ≡ false
    → render_loop no_strings fuel fmt args ≡ some out
    → render_loop no_strings (suc (suc fuel)) (b'%' ∷ b'd' ∷ c ∷ fmt) (n ∷ args)
      ≡ some (decimal n ++ c ∷ out)
unfolding render_loop
render_loop-field fuel n c fmt args out h a b e =
    render_loop-decimal no_strings (suc fuel) n (c ∷ fmt) args h ∙ rw (a, b, e) refl

render_loop-last :
    (fuel n : ℕ)
    → n < 2 ^ 31
    → render_loop no_strings (suc (suc fuel)) (b'%' ∷ b'd' ∷ 0 ∷ []) (n ∷ [])
      ≡ some (decimal n ++ [])
unfolding render_loop
render_loop-last fuel n h = render_loop-decimal no_strings (suc fuel) n (0 ∷ []) [] h ∙ refl

pub scan_loop-field :
    (fuel : ℕ) (m : Mem) (n c : ℕ) (rest fmt : List ℕ) (ptr : ℕ) (args : List ℕ) (count : ℕ)
    → n < 2 ^ 31
    → ptr < 2 ^ 32
    → ((c == 0) ≡ false) × (is_space c ≡ false) × ((c == b'%') ≡ false) × (is_digit c ≡ false)
    → scan_loop
        (suc (suc fuel))
        m
        (decimal n ++ c ∷ rest)
        (b'%' ∷ b'd' ∷ c ∷ fmt)
        (ptr ∷ args)
        count
      ≡ scan_loop fuel (write32 m ptr n) rest fmt args (count + 1)
scan_loop-field fuel m n c rest fmt ptr args count h small (null, space, percent, digit) =
    scan_loop-decimal (suc fuel) m n c rest (c ∷ fmt) ptr args count h small digit
    ∙ scan_loop-literal fuel (write32 m ptr n) c rest fmt args (count + 1) null space percent

pub scan_loop-done :
    (fuel : ℕ) (m : Mem) (str fmt args : List ℕ) (count : ℕ)
    → scan_loop (suc fuel) m str (0 ∷ fmt) args count ≡ some (m, pos count)
unfolding scan_loop
scan_loop-done fuel m str fmt args count = refl

-- Four numbers with dots between them, and what follows.
abbrev pub dotted : ℕ → ℕ → ℕ → ℕ → List ℕ → List ℕ
dotted a b c d tail =
    decimal a ++ b'.' ∷ (decimal b ++ b'.' ∷ (decimal c ++ b'.' ∷ (decimal d ++ tail)))

abbrev pub ip_dotted : ℕ → List ℕ → List ℕ
ip_dotted ip = dotted (u8 ip) (u8 (ip / 2 ^ 8)) (u8 (ip / 2 ^ 16)) (u8 (ip / 2 ^ 24))

abbrev pub ipv4_text : ℕ → List ℕ
ipv4_text ip = ip_dotted ip []

pub dotted-append : (a b c d : ℕ) (s t : List ℕ) → dotted a b c d s ++ t ≡ dotted a b c d (s ++ t)
dotted-append a b c d s t = simp append_assoc

render-ipv4_format : (ip : ℕ) → render no_strings ipv4_format (ip_bytes ip) ≡ some (ipv4_text ip)
unfolding render
render-ipv4_format ip =
    let a : ℕ = u8 ip in
    let b : ℕ = u8 (ip / 2 ^ 8) in
    let c : ℕ = u8 (ip / 2 ^ 16) in
    let d : ℕ = u8 (ip / 2 ^ 24) in
    let three : List ℕ = b'%' ∷ b'd' ∷ b'.' ∷ b'%' ∷ b'd' ∷ b'.' ∷ b'%' ∷ b'd' ∷ 0 ∷ [] in
    let two : List ℕ = b'%' ∷ b'd' ∷ b'.' ∷ b'%' ∷ b'd' ∷ 0 ∷ [] in
    let one : List ℕ = b'%' ∷ b'd' ∷ 0 ∷ [] in
    let last : List ℕ = decimal d ++ [] in
    let more : List ℕ = decimal c ++ b'.' ∷ last in
    render_loop-field 10 a b'.' three (b ∷ c ∷ d ∷ []) (decimal b ++ b'.' ∷ more) (omega arith) refl
      refl
      (render_loop-field 8 b b'.' two (c ∷ d ∷ []) more (omega arith) refl refl (
        render_loop-field 6 c b'.' one (d ∷ []) last (omega arith) refl refl
          (render_loop-last 4 d (omega arith))))

-- The first three stores, in order.
module _ (m : Mem) (a ip : ℕ) where
  abbrev pub three_stored : Mem
  three_stored =
      write32 (write32 (write32 m a (u8 ip)) (a + 1) (u8 (ip / 2 ^ 8))) (a + 2) (u8 (ip / 2 ^ 16))

  abbrev pub all_stored : Mem
  all_stored = write32 three_stored (a + 3) (u8 (ip / 2 ^ 24))

  module _ (h : a + 3 < 2 ^ 32) where
    pub scan_loop-three :
        (fuel : ℕ) (tail fmt args : List ℕ)
        → scan_loop
            (suc (suc (suc (suc (suc (suc fuel))))))
            m
            (decimal (u8 ip)
              ++ b'.'
                ∷ (decimal (u8 (ip / 2 ^ 8)) ++ b'.' ∷ (decimal (u8 (ip / 2 ^ 16)) ++ b'.' ∷ tail)))
            (b'%' ∷ b'd' ∷ b'.' ∷ b'%' ∷ b'd' ∷ b'.' ∷ b'%' ∷ b'd' ∷ b'.' ∷ fmt)
            (a ∷ (a + 1) ∷ (a + 2) ∷ args)
            0
          ≡ scan_loop fuel three_stored tail fmt args 3
    scan_loop-three fuel tail fmt args =
        let b : ℕ = u8 (ip / 2 ^ 8) in
        let c : ℕ = u8 (ip / 2 ^ 16) in
        let one : List ℕ = b'%' ∷ b'd' ∷ b'.' ∷ fmt in
        let two : List ℕ = b'%' ∷ b'd' ∷ b'.' ∷ one in
        let more : List ℕ = decimal c ++ b'.' ∷ tail in
        let m1 = write32 m a (u8 ip) in
        scan_loop-field (suc (suc (suc (suc fuel)))) m (u8 ip) b'.' (decimal b ++ b'.' ∷ more) two a
          ((a + 1) ∷ (a + 2) ∷ args) 0 (omega arith) (omega arith) (refl, refl, refl, refl)
        ∙ scan_loop-field (suc (suc fuel)) m1 b b'.' more one (a + 1) ((a + 2) ∷ args) 1
            (omega arith) (omega arith) (refl, refl, refl, refl)
        ∙ scan_loop-field fuel (write32 m1 (a + 1) b) c b'.' tail fmt (a + 2) args 2 (omega arith)
            (omega arith) (refl, refl, refl, refl)

    vsscanf-ipv4_format :
        (rest : List ℕ)
        → vsscanf m (ip_dotted ip (0 ∷ rest)) ipv4_format (a ∷ (a + 1) ∷ (a + 2) ∷ (a + 3) ∷ [])
          ≡ some (all_stored, pos 4)
    unfolding vsscanf
    vsscanf-ipv4_format rest =
        let d : ℕ = u8 (ip / 2 ^ 24) in
        scan_loop-three 6 (decimal d ++ 0 ∷ rest) (b'%' ∷ b'd' ∷ 0 ∷ []) ((a + 3) ∷ [])
        ∙ scan_loop-decimal 5 three_stored d 0 rest (0 ∷ []) (a + 3) [] 3 (omega arith)
            (omega arith) refl
        ∙ scan_loop-done 4 all_stored (0 ∷ rest) [] [] 4

-- A store is not changed by the next ones, which begin above its first byte.
write32_below : (m : Mem) (a b v w : ℕ) → b < a → m b ≡ w → write32 m a v b ≡ w
write32_below m a b v w h e = write32-SameOutside m a v b (inl h) ∙ e

read_ip-all_stored : (m : Mem) (a ip : ℕ) → ip < 2 ^ 32 → read_ip (all_stored m a ip) a ≡ ip
read_ip-all_stored m a ip h =
    let b : ℕ = u8 (ip / 2 ^ 8) in
    let c : ℕ = u8 (ip / 2 ^ 16) in
    let d : ℕ = u8 (ip / 2 ^ 24) in
    let m1 = write32 m a (u8 ip) in
    let m2 = write32 m1 (a + 1) b in
    let m3 = write32 m2 (a + 2) c in
    let up1 : a < a + 1 = omega arith in
    let up2 : a < a + 2 = omega arith in
    let up3 : a < a + 3 = omega arith in
    let up12 : a + 1 < a + 2 = omega arith in
    let up13 : a + 1 < a + 3 = omega arith in
    let up23 : a + 2 < a + 3 = omega arith in
    let e0 = write32_below m3 (a + 3) a d (u8 (u8 ip)) up3 (
      write32_below m2 (a + 2) a c (u8 (u8 ip)) up2
        (write32_below m1 (a + 1) a b (u8 (u8 ip)) up1 (write32_first m a (u8 ip)))) in
    let e1 =
      write32_below m3 (a + 3) (a + 1) d (u8 b) up13
        (write32_below m2 (a + 2) (a + 1) c (u8 b) up12 (write32_first m1 (a + 1) b)) in
    let e2 = write32_below m3 (a + 3) (a + 2) d (u8 c) up23 (write32_first m2 (a + 2) c) in
    rw (e0, e1, e2, write32_first m3 (a + 3) d) (omega arith)

-- `addr_ipv4_tostr` prints the four bytes of the address as decimal numbers with dots between
-- them, as far as the buffer holds them.
pub addr_ipv4_tostr-dotted :
    (m : Mem) (str size ip : ℕ)
    → 0 < str
    → str + size < 2 ^ 32
    → addr_ipv4_tostr m str size ip ≡ some (printed_to m str size (ipv4_text ip))
unfolding addr_ipv4_tostr
addr_ipv4_tostr-dotted m str size ip low fit =
    vsnprintf-render no_strings m str size ipv4_format (ip_bytes ip) low fit
    ∙ ap (Option.map (printed_to m str size)) (render-ipv4_format ip)

pub addr_strto_ipv4-dotted :
    (m : Mem) (a ip : ℕ) (rest : List ℕ)
    → a + 3 < 2 ^ 32
    → ip < 2 ^ 32
    → addr_strto_ipv4 m a (ip_dotted ip (0 ∷ rest)) ≡ some (all_stored m a ip, some ip)
unfolding addr_strto_ipv4
addr_strto_ipv4-dotted m a ip rest h fit =
    rw (vsscanf-ipv4_format m a ip h rest, read_ip-all_stored m a ip fit) refl
