-- ===== src/Net/Checksum/Laws.antt =====
-- src/net/checksum.c: what the checksum adds up to.
use aijak.Common.{ℕ, ◌+◌, ◌-◌, ◌*◌, ◌/◌, ◌%◌, ◌^◌, ◌≤◌, ◌<◌, ◌≡◌, arith, ◌∙◌}
use aijak.Common.{List, [], ◌∷◌, ◌++◌, bit_and, length}
use aijak.Common.Bits.{bit_or-add, bit_and-mod, bit_and_high}
use aijak.Net.Checksum.{net_checksum_acc, net_checksum_final, net_checksum, swapped}

-- The sum of the little-endian 16-bit words, the last byte alone if the length is odd.
abbrev pub word_sum : List ℕ → ℕ
word_sum [] = 0
word_sum (p ∷ []) = p
word_sum (p ∷ q ∷ rest) = p + 256 * q + word_sum rest

abbrev pub IsBytes : List ℕ → Type 0
IsBytes [] = Unit
IsBytes (b ∷ bs) = (b < 256) × IsBytes bs

word_sum-le : (bs : List ℕ) → IsBytes bs → word_sum bs ≤ 32768 * (length bs + 1)
word_sum-le [] h = omega arith
word_sum-le (p ∷ []) h = omega arith
word_sum-le (p ∷ q ∷ rest) h = omega (arith, word_sum-le rest h.1.1)

-- The accumulator does not wrap while the total fits 32 bits.
acc-eq-sum :
    (bs : List ℕ) (sum : ℕ)
    → sum + word_sum bs < 2 ^ 32
    → net_checksum_acc bs sum ≡ sum + word_sum bs
unfolding net_checksum_acc
acc-eq-sum [] sum h = omega arith
acc-eq-sum (p ∷ []) sum h = omega arith
acc-eq-sum (p ∷ q ∷ rest) sum h =
    omega (arith, acc-eq-sum rest ((sum + (p + 256 * q)) % 2 ^ 32) (omega arith))

-- `net_checksum_acc` of any packet that fits a network buffer is the sum of its words.
pub net_checksum_acc-word_sum :
    (bs : List ℕ) → IsBytes bs → length bs ≤ 65535 → net_checksum_acc bs 0 ≡ word_sum bs
net_checksum_acc-word_sum bs h short =
    omega (arith, acc-eq-sum bs 0 (omega (arith, word_sum-le bs h)))

swapped-eq : (temp : ℕ) → temp < 2 ^ 16 → swapped temp ≡ temp / 256 + 256 * (temp % 256)
swapped-eq temp h =
    let low : bit_and temp 0x00ff ≡ temp % 256 = bit_and-mod 8 temp in
    let high : bit_and temp 0xff00 ≡ temp / 256 * 256 = bit_and_high 8 8 temp (omega arith) in
    rw (low, high) (omega (arith, bit_or-add 8 (temp % 256) (temp / 256 * 256 / 256) (omega arith)))

-- What is complemented at the end: the sum folded to 16 bits.
abbrev folded : ℕ → ℕ
folded sum = let once = sum % 65536 + sum / 65536 in (once + once / 65536) % 65536

net_checksum_final-eq :
    (sum : ℕ)
    → sum < 2 ^ 32
    → net_checksum_final sum ≡ (65535 - folded sum) / 256 + 256 * ((65535 - folded sum) % 256)
unfolding net_checksum_final
net_checksum_final-eq sum h =
    let mask : bit_and sum 0xffff ≡ sum % 65536 = bit_and-mod 16 sum in
    rw mask (swapped-eq _ (omega arith) ∙ omega arith)

word_sum-append :
    (pre rest : List ℕ) → length pre % 2 ≡ 0 → word_sum (pre ++ rest) ≡ word_sum pre + word_sum rest
word_sum-append [] rest h = omega arith
word_sum-append (p ∷ []) rest h = absurd (omega arith)
word_sum-append (p ∷ q ∷ pre) rest h = omega (arith, word_sum-append pre rest (omega arith))

IsBytes-append : (pre rest : List ℕ) → IsBytes (pre ++ rest) → IsBytes pre × IsBytes rest
IsBytes-append [] rest h = (tt, h)
IsBytes-append (p ∷ pre) rest h = let (a, b) = IsBytes-append pre rest h.1 in ((h.0, a), b)

-- A block of at most 65535 bytes whose checksum field, at an even offset, is zero: once the
-- checksum of the block is stored there, high byte first, the checksum of the block is zero, which
-- is how a receiver tells that it is intact.
pub net_checksum-verifies :
    (pre post : List ℕ)
    → IsBytes (pre ++ 0 ∷ 0 ∷ post)
    → length (pre ++ 0 ∷ 0 ∷ post) ≤ 65535
    → length pre % 2 ≡ 0
    → let c = net_checksum (pre ++ 0 ∷ 0 ∷ post) in
      net_checksum (pre ++ (c / 256) ∷ (c % 256) ∷ post) ≡ 0
unfolding net_checksum
net_checksum-verifies pre post bytes short even =
    let c = net_checksum_final (net_checksum_acc (pre ++ 0 ∷ 0 ∷ post) 0) in
    let zeros = word_sum-append pre (0 ∷ 0 ∷ post) even in
    let split = word_sum-append pre ((c / 256) ∷ (c % 256) ∷ post) even in
    let total = word_sum pre + word_sum post in
    let bound = word_sum-le (pre ++ 0 ∷ 0 ∷ post) bytes in
    let before : net_checksum_acc (pre ++ 0 ∷ 0 ∷ post) 0 ≡ total =
      omega (arith, acc-eq-sum (pre ++ 0 ∷ 0 ∷ post) 0 (omega arith)) in
    let value = net_checksum_final-eq total (omega arith) in
    let stored : c ≡ (65535 - folded total) / 256 + 256 * ((65535 - folded total) % 256) =
      rw before value in
    let after : net_checksum_acc (pre ++ (c / 256) ∷ (c % 256) ∷ post) 0
        ≡ total + (65535 - folded total) =
      omega (arith, acc-eq-sum (pre ++ (c / 256) ∷ (c % 256) ∷ post) 0 (omega arith)) in
    rw after (omega (arith, net_checksum_final-eq (total + (65535 - folded total)) (omega arith)))
