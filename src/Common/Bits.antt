-- ===== src/Common/Bits.antt =====
-- The bit operations of C at variables: `|` of fields that do not overlap is a sum, and `&` with a
-- mask of low bits is a remainder.
use Prim.Native.Nat.{ℕ, zero, suc, ◌+◌, ◌-◌, ◌*◌, ◌/◌, ◌%◌, ◌^◌, ◌≤◌, ◌<◌, min, max, digits}
use Prim.Native.Nat.{bit_and, bit_or, bit_and-bitwise, bit_or-bitwise}
use mathlib.Core.Path.{◌≡◌, refl, ap, ◌∙◌}
use native.Mathlib.Nat.{pow-suc, one-le-pow}
use native.Mathlib.Omega.{arith}
use aijak.Common.Words.{◌<<<◌}

abbrev or_digits : ℕ → ℕ → ℕ → ℕ
or_digits = digits (λ y. y) max

abbrev and_digits : ℕ → ℕ → ℕ → ℕ
and_digits = digits (λ _. 0) min

or_digits-zero : (n a : ℕ) → a ≤ n → or_digits n a 0 ≡ a
or_digits-zero zero a h = omega arith
or_digits-zero (suc n) zero h = refl
or_digits-zero (suc n) (suc a) h = omega (arith, or_digits-zero n (suc a / 2) (omega arith))

or_zero-digits : (n b : ℕ) → or_digits n 0 b ≡ b
or_zero-digits zero b = refl
or_zero-digits (suc n) b = refl

and_digits-zero : (n a : ℕ) → and_digits n a 0 ≡ 0
and_digits-zero zero a = refl
and_digits-zero (suc n) zero = refl
and_digits-zero (suc n) (suc a) = omega (arith, and_digits-zero n (suc a / 2))

double_pow : (c k : ℕ) → c * 2 ^ suc k ≡ c * 2 ^ k + c * 2 ^ k
double_pow c k = omega (arith, ap (λ (t : ℕ). c * t) (pow-suc 2 k))

-- `a` is a multiple of 2 ^ k, and `b` fits below.
or_digits-add : (k n c a b : ℕ) → a ≤ n → a ≡ c * 2 ^ k → b < 2 ^ k → or_digits n a b ≡ a + b
or_digits-add zero n c a zero h e s = omega (arith, or_digits-zero n a h)
or_digits-add zero n c a (suc b) h e s = absurd (omega arith)
or_digits-add (suc k) zero c a b h e s = omega arith
or_digits-add (suc k) (suc n) c zero b h e s = omega arith
or_digits-add (suc k) (suc n) c (suc a) b h e s =
    let both = double_pow c k in
    let top = pow-suc 2 k in
    omega (arith, or_digits-add k n c (suc a / 2) (b / 2) (omega arith) (omega arith) (omega arith))

-- The same with the low field first.
or_digits-add_right : (k n c a b : ℕ) → a ≤ n → a < 2 ^ k → b ≡ c * 2 ^ k → or_digits n a b ≡ a + b
or_digits-add_right zero n c zero b h s e = omega (arith, or_zero-digits n b)
or_digits-add_right zero n c (suc a) b h s e = absurd (omega arith)
or_digits-add_right (suc k) zero c a b h s e = omega arith
or_digits-add_right (suc k) (suc n) c zero b h s e = omega arith
or_digits-add_right (suc k) (suc n) c (suc a) b h s e =
    let both = double_pow c k in
    let top = pow-suc 2 k in
    omega (
      arith,
      or_digits-add_right k n c (suc a / 2) (b / 2) (omega arith) (omega arith) (omega arith),
    )

and_digits-mask :
    (k n c a r : ℕ) → a ≤ n → a ≡ c * 2 ^ k + r → r < 2 ^ k → and_digits n a (2 ^ k - 1) ≡ r
and_digits-mask zero n c a r h e s = omega (arith, and_digits-zero n a)
and_digits-mask (suc k) zero c a r h e s = omega arith
and_digits-mask (suc k) (suc n) c zero r h e s = omega arith
and_digits-mask (suc k) (suc n) c (suc a) r h e s =
    let both = double_pow c k in
    let top = pow-suc 2 k in
    let pos = one-le-pow k 2 (omega arith) in
    let half : (2 ^ suc k - 1) / 2 ≡ 2 ^ k - 1 = omega arith in
    let ih = and_digits-mask k n c (suc a / 2) (r / 2) (omega arith) (omega arith) (omega arith) in
    rw half (omega (arith, ih))

-- A mask of `j` ones above `k` zeros.
and_digits-mask_high :
    (k j n c a r : ℕ)
    → a ≤ n
    → a ≡ c * 2 ^ k + r
    → r < 2 ^ k
    → c < 2 ^ j
    → and_digits n a ((2 ^ j - 1) * 2 ^ k) ≡ c * 2 ^ k
and_digits-mask_high zero j n c a r h e s t =
    let one : (2 ^ j - 1) * 2 ^ 0 ≡ 2 ^ j - 1 = omega arith in
    rw one (omega (arith, and_digits-mask j n 0 a c h (omega arith) t))
and_digits-mask_high (suc k) j zero c a r h e s t = omega arith
and_digits-mask_high (suc k) j (suc n) c zero r h e s t = omega arith
and_digits-mask_high (suc k) j (suc n) c (suc a) r h e s t =
    let both = double_pow c k in
    let mask = double_pow (2 ^ j - 1) k in
    let top = pow-suc 2 k in
    let half : ((2 ^ j - 1) * 2 ^ suc k) / 2 ≡ (2 ^ j - 1) * 2 ^ k = omega arith in
    let ih =
      and_digits-mask_high k j n c (suc a / 2) (r / 2) (omega arith) (omega arith) (omega arith)
        t in
    rw half (omega (arith, ih))

-- `(q << k) | r`, where `r` fits `k` bits.
pub bit_or-add : (k q r : ℕ) → r < 2 ^ k → bit_or (q <<< k) r ≡ q * 2 ^ k + r
bit_or-add k q r fits =
    bit_or-bitwise (q * 2 ^ k) r
    ∙ or_digits-add k (q * 2 ^ k) q (q * 2 ^ k) r (omega arith) refl fits

-- `x & (2 ^ k - 1)`.
pub bit_and-mod : (k a : ℕ) → bit_and a (2 ^ k - 1) ≡ a % 2 ^ k
bit_and-mod k a =
    let pos = one-le-pow k 2 (omega arith) in
    bit_and-bitwise a (2 ^ k - 1)
    ∙ and_digits-mask k a (a / 2 ^ k) a (a % 2 ^ k) (omega arith) (omega arith) (omega arith)

-- `r | (q << k)`, where `r` fits `k` bits.
pub bit_or-add_right : (k q r : ℕ) → r < 2 ^ k → bit_or r (q <<< k) ≡ r + q * 2 ^ k
bit_or-add_right k q r fits =
    bit_or-bitwise r (q * 2 ^ k) ∙ or_digits-add_right k r q r (q * 2 ^ k) (omega arith) fits refl

-- `x & (((1 << j) - 1) << k)`, for `x` below 2 ^ (k + j).
pub bit_and_high :
    (k j a : ℕ) → a / 2 ^ k < 2 ^ j → bit_and a ((2 ^ j - 1) * 2 ^ k) ≡ a / 2 ^ k * 2 ^ k
bit_and_high k j a small =
    let pos = one-le-pow k 2 (omega arith) in
    bit_and-bitwise a ((2 ^ j - 1) * 2 ^ k)
    ∙ and_digits-mask_high k j a (a / 2 ^ k) a (a % 2 ^ k) (omega arith) (omega arith) (omega arith)
        small

and_digits-one : (n a : ℕ) → a ≤ n → and_digits n a 1 ≡ a % 2
and_digits-one zero a h = omega arith
and_digits-one (suc n) zero h = omega arith
and_digits-one (suc n) (suc a) h = omega (arith, and_digits-zero n (suc a / 2))

zero_bit : (k c : ℕ) → c * 2 ^ k ≡ 0 → c % 2 * 2 ^ k ≡ 0
zero_bit k zero h = omega arith
zero_bit k (suc c) h = let pos = one-le-pow k 2 (omega arith) in absurd (grind arith)

and_digits-bit :
    (k n c a r : ℕ) → a ≤ n → a ≡ c * 2 ^ k + r → r < 2 ^ k → and_digits n a (2 ^ k) ≡ c % 2 * 2 ^ k
and_digits-bit zero n c a r h e s =
    let same : a ≡ c = omega arith in and_digits-one n a h ∙ omega arith
and_digits-bit (suc k) zero c a r h e s = omega (arith, zero_bit (suc k) c (omega arith))
and_digits-bit (suc k) (suc n) c zero r h e s = omega (arith, zero_bit (suc k) c (omega arith))
and_digits-bit (suc k) (suc n) c (suc a) r h e s =
    let both = double_pow c k in
    let bit = double_pow (c % 2) k in
    let top = pow-suc 2 k in
    let pos = one-le-pow k 2 (omega arith) in
    let half : 2 ^ suc k / 2 ≡ 2 ^ k = omega arith in
    let ih = and_digits-bit k n c (suc a / 2) (r / 2) (omega arith) (omega arith) (omega arith) in
    rw half (omega (arith, ih))

-- `x & (1 << k)`.
pub bit_and-bit : (k a : ℕ) → bit_and a (2 ^ k) ≡ a / 2 ^ k % 2 * 2 ^ k
bit_and-bit k a =
    let pos = one-le-pow k 2 (omega arith) in
    bit_and-bitwise a (2 ^ k)
    ∙ and_digits-bit k a (a / 2 ^ k) a (a % 2 ^ k) (omega arith) (omega arith) (omega arith)
