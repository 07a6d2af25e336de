-- ===== src/Format/Scan/Laws.antt =====
-- src/stdlib/format.c: `%d` reads back what `%d` printed.
use mathlib.Core.List.{append_assoc}
use native.Mathlib.Nat.{pow-suc}
use native.Mathlib.Decide.{dec_lt}
use aijak.Common.{ℕ, zero, suc, ◌+◌, ◌-◌, ◌*◌, ◌/◌, ◌%◌, ◌^◌, ◌<◌, ◌≡◌, refl, arith, sym, ap, ◌∙◌}
use aijak.Common.{true, false, some, List, [], ◌∷◌, ◌++◌, u32}
use aijak.Common.{◌==◌, ltb, Bool-cases, inl, inr}
use aijak.Memory.Bytes.{Mem, write32}
use aijak.Str.{◌>>=◌}
use aijak.Format.{is_digit, is_space, read_directive}
use aijak.Format.Render.{numeral, dec_char, decimal, converted, render_loop}
use aijak.Format.Scan.{number_loop, scan_int, scan_loop}

numeral_one : (places n : ℕ) → n < 10 → numeral dec_char 10 (suc places) n ≡ dec_char n ∷ []
unfolding numeral
numeral_one places n h =
    let test : ltb 0 (n / 10) ≡ false = ground arith in
    let whole : n % 10 ≡ n = omega arith in rw (test, whole) refl

number_loop-digit :
    (n : ℕ) (tail : List ℕ) → n < 10 → number_loop 0 (dec_char n ∷ tail) ≡ number_loop n tail
unfolding number_loop
number_loop-digit n tail h =
    let digit : is_digit (dec_char n) ≡ true = ground arith in
    let value : 0 + dec_char n - b'0' ≡ n = omega arith in
    let room : ltb n (2 ^ 31) ≡ true = ground arith in rw (digit, value, room) refl

number_loop-numeral :
    (places n : ℕ) (tail : List ℕ)
    → n < 10 ^ suc places
    → n < 2 ^ 31
    → number_loop 0 (numeral dec_char 10 (suc places) n ++ tail) ≡ number_loop n tail
unfolding number_loop numeral
number_loop-numeral zero n tail h small =
    ap (λ s. number_loop 0 (s ++ tail)) (numeral_one zero n (omega arith))
    ∙ number_loop-digit n tail (omega arith)
number_loop-numeral (suc places) n tail h small = elim (dec_lt 0 (n / 10)) [
  | yes more ↦
      let test : ltb 0 (n / 10) ≡ true = ground arith in
      let fits : n / 10 < 10 ^ suc places = grind (arith, pow-suc 10 (suc places)) in
      let high = numeral dec_char 10 (suc places) (n / 10) in
      let c : ℕ = dec_char (n % 10) in
      let joined = append_assoc high (c ∷ []) tail in
      let digit : is_digit c ≡ true = ground arith in
      let value : n / 10 * 10 + c - b'0' ≡ n = omega arith in
      let room : ltb n (2 ^ 31) ≡ true = ground arith in
      rw (test, joined)
        (number_loop-numeral places (n / 10) (c ∷ tail) fits (omega arith)
          ∙ rw (digit, value, room) refl)
  | no last ↦
      ap (λ s. number_loop 0 (s ++ tail)) (numeral_one (suc places) n (omega arith))
      ∙ number_loop-digit n tail (omega arith)
]

-- The first character of a number is a digit.
numeral-starts :
    (places n : ℕ)
    → (c : ℕ) × (rest : List ℕ) × (numeral dec_char 10 (suc places) n ≡ c ∷ rest)
      × (is_digit c ≡ true)
unfolding numeral
numeral-starts zero n = elim (Bool-cases (ltb 0 (n / 10))) [
  | inl e ↦ (dec_char (n % 10), [], rw e refl, ground arith)
  | inr e ↦ (dec_char (n % 10), [], rw e refl, ground arith)
]
numeral-starts (suc places) n = elim (dec_lt 0 (n / 10)) [
  | yes more ↦
      let test : ltb 0 (n / 10) ≡ true = ground arith in
      let (c, rest, e, d) = numeral-starts places (n / 10) in
      (c, rest ++ dec_char (n % 10) ∷ [], rw (test, e) refl, d)
  | no last ↦
      let test : ltb 0 (n / 10) ≡ false = ground arith in
      (dec_char (n % 10), [], rw test refl, ground arith)
]

number_loop-stop :
    (n c : ℕ) (rest : List ℕ) → is_digit c ≡ false → number_loop n (c ∷ rest) ≡ some (n, c ∷ rest)
unfolding number_loop
number_loop-stop n c rest h = rw h refl

pub scan_int-decimal :
    (n : ℕ) (c : ℕ) (rest : List ℕ)
    → n < 2 ^ 31
    → is_digit c ≡ false
    → scan_int (decimal n ++ c ∷ rest) ≡ some (n, c ∷ rest)
unfolding scan_int
scan_int-decimal n c rest h stop =
    let (d, ds, e, digit) = numeral-starts 30 n in
    let plain : (d == b'-') ≡ false = ground arith in
    let read = number_loop-numeral 30 n (c ∷ rest) (omega arith) h in
    rw (e, plain)
      (sym (ap (λ s. number_loop 0 (s ++ c ∷ rest)) e) ∙ read ∙ number_loop-stop n c rest stop)

-- One `%d` of a format reads one printed number.
pub scan_loop-decimal :
    (fuel : ℕ) (m : Mem) (n c : ℕ) (rest fmt : List ℕ) (ptr : ℕ) (args : List ℕ) (count : ℕ)
    → n < 2 ^ 31
    → ptr < 2 ^ 32
    → is_digit c ≡ false
    → scan_loop (suc fuel) m (decimal n ++ c ∷ rest) (b'%' ∷ b'd' ∷ fmt) (ptr ∷ args) count
      ≡ scan_loop fuel (write32 m ptr n) (c ∷ rest) fmt args (count + 1)
unfolding scan_loop
scan_loop-decimal fuel m n c rest fmt ptr args count h small stop =
    let (d, ds, e, digit) = numeral-starts 30 n in
    let some_char : (d == 0) ≡ false = ground arith in
    let word : u32 ptr ≡ ptr = omega arith in
    let read = scan_int-decimal n c rest h stop in
    let shown = ap (λ s. scan_int (s ++ c ∷ rest)) (sym e) ∙ read in
    rw (e, some_char, shown, word) refl

-- A character other than zero, white space and `%` reads itself.
pub scan_loop-literal :
    (fuel : ℕ) (m : Mem) (c : ℕ) (str fmt args : List ℕ) (count : ℕ)
    → (c == 0) ≡ false
    → is_space c ≡ false
    → (c == b'%') ≡ false
    → scan_loop (suc fuel) m (c ∷ str) (c ∷ fmt) args count ≡ scan_loop fuel m str fmt args count
unfolding scan_loop
scan_loop-literal fuel m c str fmt args count a b d =
    let same : (c == c) ≡ true = ground arith in rw (a, b, d, same) refl

-- One `%d` of a format prints one number.
pub render_loop-decimal :
    (string : ℕ → List ℕ) (fuel n : ℕ) (fmt args : List ℕ)
    → n < 2 ^ 31
    → render_loop string (suc fuel) (b'%' ∷ b'd' ∷ fmt) (n ∷ args)
      ≡ (render_loop string fuel fmt args >>= (λ rest. some (decimal n ++ rest)))
unfolding render_loop converted read_directive
render_loop-decimal string fuel n fmt args h =
    let word : u32 n ≡ n = omega arith in
    let sign : ltb n (2 ^ 31) ≡ true = ground arith in rw (word, sign) refl
