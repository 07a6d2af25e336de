-- ===== src/Format/Scan.antt =====
-- src/stdlib/format.c: formatted input. An `int32` is stored as its bit pattern, where the
-- argument points to.
pub mod Laws
use mathlib.Core.Option
use aijak.Common.{
  ℕ, zero, suc, ◌+◌, ◌-◌, ◌*◌, ◌^◌, Bool, true, false, ◌&&◌, ◌||◌, Option, none, some,
}
use aijak.Common.{List, [], ◌∷◌, length, ◌==◌, ltb, leb, if◌then◌else◌, sub32}
use aijak.Memory.Bytes.{Mem, write32}
use aijak.Str.{◌>>=◌}
use aijak.Format.{ℤ, pos, negsuc, is_space, is_digit, va_arg}

unfoldable pub skip_spaces : List ℕ → Option (List ℕ)
skip_spaces [] = none
skip_spaces (c ∷ str) = let rest = skip_spaces str in if is_space c then rest else some (c ∷ str)

-- `while (_is_digit(c))`, with the string from the first character that is no digit.
unfoldable pub number_loop : ℕ → List ℕ → Option (ℕ × List ℕ)
number_loop n [] = none
number_loop n (c ∷ str) =
    let n' = n * 10 + c - b'0' in
    let rest = number_loop n' str in
    if is_digit c then (if ltb n' (2 ^ 31) then rest else none) else some (n, c ∷ str)

-- The number behind `%d`, at a string that is not at its end.
unfoldable pub scan_int : List ℕ → Option (ℕ × List ℕ)
unfolding number_loop
scan_int [] = none
scan_int (c ∷ str) =
    if c == b'-'
    then (do (n, rest) ← number_loop 0 str; some (sub32 0 n, rest))
    else number_loop 0 (c ∷ str)

abbrev pub next_char : List ℕ → Option (ℕ × List ℕ)
next_char [] = none
next_char (c ∷ str) = some (c, str)

-- `return count ? count : -1`
abbrev pub end_of_input : ℕ → ℤ
end_of_input count = if count == 0 then negsuc 0 else pos count

-- Each round reads at least one character of the format; the fuel is its length.
unfoldable pub scan_loop : ℕ → Mem → List ℕ → List ℕ → List ℕ → ℕ → Option (Mem × ℤ)
unfolding skip_spaces scan_int write32
scan_loop zero m str fmt args count = none
scan_loop (suc fuel) m str [] args count = none
scan_loop (suc fuel) m str (c ∷ fmt) args count =
    let next = λ (m' : Mem) (str' fmt' args' : List ℕ) (count' : ℕ).
      scan_loop fuel m' str' fmt' args' count' in
    let literal = λ (expected : ℕ) (fmt' : List ℕ). (do
      (actual, rest) ← next_char str
      (if actual == 0
          then some (m, end_of_input count)
          else if actual == expected
          then next m rest fmt' args count
          else some (m, pos count))) in
    if c == 0
    then some (m, pos count)
    else if is_space c
    then (do rest ← skip_spaces str; next m rest fmt args count)
    else if c == b'%'
    then (do
      (type, fmt') ← next_char fmt
      (if type == b'%'
          then literal type fmt'
          else if type == b'd'
          then (do
            (first, behind) ← next_char str
            (if first == 0 then some (m, end_of_input count) else (do
              (n, rest) ← scan_int str
              (result, more) ← va_arg args
              next (write32 m result n) rest fmt' more (count + 1))))
          else next m str fmt' args count))
    else literal c fmt

-- The memory afterwards, and the result.
unfoldable pub vsscanf : Mem → List ℕ → List ℕ → List ℕ → Option (Mem × ℤ)
unfolding scan_loop
vsscanf m str fmt args = scan_loop (length fmt) m str fmt args 0
