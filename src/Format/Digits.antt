-- ===== src/Format/Digits.antt =====
-- src/stdlib/format.c: the digits that `_outdec` and `_outhex` write are the number's.
use mathlib.Core.List.{append_assoc}
use native.Mathlib.Nat.{pow-suc}
use native.Mathlib.Decide.{dec_lt}
use aijak.Common.{
  ℕ, zero, suc, ◌/◌, ◌%◌, ◌^◌, ◌≤◌, ◌<◌, ◌≡◌, refl, arith, sym, ap, ◌∙◌, ◌≢◌, inl, inr,
}
use aijak.Common.{some, List, [], ◌∷◌, ◌++◌, length, length-append, true, false, ltb}
use aijak.Common.{Bool-cases}
use aijak.Common.Bits.{bit_and-mod}
use aijak.Str.Compare.{NonZero, NonZero-append}
use aijak.Format.{dec_loop, hex_loop, hex_char}
use aijak.Format.Render.{numeral, dec_char, decimal, hexadecimal}

dec_loop-numeral :
    (room n : ℕ) (s : List ℕ)
    → n < 10 ^ suc room
    → dec_loop (suc room) n s ≡ some (numeral dec_char 10 (suc room) n ++ s)
unfolding dec_loop numeral
dec_loop-numeral zero n s h = let test : ltb 0 (n / 10) ≡ false = ground arith in rw test refl
dec_loop-numeral (suc room) n s h = elim (dec_lt 0 (n / 10)) [
  | yes more ↦
      let test : ltb 0 (n / 10) ≡ true = ground arith in
      let small : n / 10 < 10 ^ suc room = grind (arith, pow-suc 10 (suc room)) in
      let high = numeral dec_char 10 (suc room) (n / 10) in
      let joined = append_assoc high (dec_char (n % 10) ∷ []) s in
      rw test (dec_loop-numeral room (n / 10) (dec_char (n % 10) ∷ s) small ∙ ap some (sym joined))
  | no last ↦ let test : ltb 0 (n / 10) ≡ false = ground arith in rw test refl
]

hex_loop-numeral :
    (type room n : ℕ) (s : List ℕ)
    → n < 16 ^ suc room
    → hex_loop type (suc room) n s ≡ some (numeral (hex_char type) 16 (suc room) n ++ s)
unfolding hex_loop numeral
hex_loop-numeral type zero n s h =
    let test : ltb 0 (n / 16) ≡ false = ground arith in rw (test, bit_and-mod 4 n) refl
hex_loop-numeral type (suc room) n s h = elim (dec_lt 0 (n / 16)) [
  | yes more ↦
      let test : ltb 0 (n / 16) ≡ true = ground arith in
      let small : n / 16 < 16 ^ suc room = grind (arith, pow-suc 16 (suc room)) in
      let high = numeral (hex_char type) 16 (suc room) (n / 16) in
      let joined = append_assoc high (hex_char type (n % 16) ∷ []) s in
      rw (test, bit_and-mod 4 n)
        (hex_loop-numeral type room (n / 16) (hex_char type (n % 16) ∷ s) small
          ∙ ap some (sym joined))
  | no last ↦ let test : ltb 0 (n / 16) ≡ false = ground arith in rw (test, bit_and-mod 4 n) refl
]

-- The room of `buf` is enough for a number of 32 bits.
pub dec_loop-decimal : (n : ℕ) → n < 2 ^ 32 → dec_loop 31 n (0 ∷ []) ≡ some (decimal n ++ 0 ∷ [])
dec_loop-decimal n h = dec_loop-numeral 30 n (0 ∷ []) (omega arith)

pub hex_loop-hexadecimal :
    (type n : ℕ) → n < 2 ^ 32 → hex_loop type 31 n (0 ∷ []) ≡ some (hexadecimal type n ++ 0 ∷ [])
hex_loop-hexadecimal type n h = hex_loop-numeral type 30 n (0 ∷ []) (omega arith)

numeral-NonZero :
    (char : ℕ → ℕ) (base places n : ℕ)
    → ((r : ℕ) → char r ≢ 0)
    → NonZero (numeral char base places n)
unfolding numeral
numeral-NonZero char base zero n h = tt
numeral-NonZero char base (suc places) n h = elim (Bool-cases (ltb 0 (n / base))) [
  | inl more ↦ rw more (
      NonZero-append (numeral char base places (n / base)) (char (n % base) ∷ [])
        (numeral-NonZero char base places (n / base) h) (h (n % base), tt))
  | inr last ↦ rw last (h (n % base), tt)
]

pub decimal-NonZero : (n : ℕ) → NonZero (decimal n)
decimal-NonZero n = numeral-NonZero dec_char 10 31 n (λ r. omega arith)

pub hexadecimal-NonZero : (type n : ℕ) → NonZero (hexadecimal type n)
hexadecimal-NonZero type n = numeral-NonZero (hex_char type) 16 31 n (λ r. ground arith)

-- A number below the power of its base has no more digits than the exponent.
pub length-numeral :
    (char : ℕ → ℕ) (places k n : ℕ) → n < 10 ^ suc k → length (numeral char 10 places n) ≤ suc k
unfolding numeral
length-numeral char zero k n h = omega arith
length-numeral char (suc places) zero n h =
    let test : ltb 0 (n / 10) ≡ false = ground arith in rw test (omega arith)
length-numeral char (suc places) (suc k) n h = elim (Bool-cases (ltb 0 (n / 10))) [
  | inl more ↦
      let high = numeral char 10 places (n / 10) in
      let small : n / 10 < 10 ^ suc k = grind (arith, pow-suc 10 (suc k)) in
      rw more (
        omega (
          arith,
          length-append high (char (n % 10) ∷ []),
          length-numeral char places k (n / 10) small,
        ))
  | inr last ↦ rw last (omega arith)
]
