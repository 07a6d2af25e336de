-- ===== src/Str/Number.antt =====
-- src/util.c: `itoa` and `uitoa`.
pub mod Laws
use Prim.Native.String
use Prim.Native.String.{String}
use Prim.Native.Char.{code}
use aijak.Common.{
  ℕ, zero, suc, ◌+◌, ◌-◌, ◌*◌, ◌/◌, ◌%◌, ◌^◌, Option, none, some, List, [], ◌∷◌, length,
}
use aijak.Common.{get_elem?, ◌==◌, ltb, leb, if◌then◌else◌}
use aijak.Str.{store?, str_reverse, ◌>>=◌}

abbrev pub codes : String → List ℕ
codes String.[] = []
codes (String.◌∷◌ c s) = code c ∷ codes s

pub digit_table : List ℕ
digit_table = codes "uyxwvutsrqponmlkjihgfedcba9876543210123456789abcdefghijklmnopqrstuvwxyz"

-- The loop of both functions: one digit a round, the lowest first. The result is the buffer and
-- the index behind the last digit.
pub digit_loop : ℕ → ℕ → ℕ → List ℕ → ℕ → Option (List ℕ × ℕ)
digit_loop zero n base str i = none
digit_loop (suc rounds) n base str i =
    let rest = λ (str : List ℕ). digit_loop rounds (n / base) base str (i + 1) in
    do
      c ← get_elem? digit_table (35 + n % base)
      str' ← store? str i c
      if ltb 0 (n / base) then rest str' else some (str', i + 1)

-- The rounds are 33, one more than the bits of `n`.
unfoldable pub uitoa : ℕ → List ℕ → ℕ → Option (List ℕ)
unfolding digit_loop digit_table
uitoa n str base = do
  (str', i) ← digit_loop 33 n base str 0
  str'' ← store? str' i 0
  str_reverse str''

-- An `int` is its bit pattern. Its negation overflows at -2 ^ 31, which C leaves undefined. The
-- table of the source differs from that of `uitoa` in its first letter, which no index reaches.
unfoldable pub itoa : ℕ → List ℕ → ℕ → Option (List ℕ)
unfolding uitoa
itoa n str base =
    if ltb n (2 ^ 31)
    then uitoa n str base
    else (if n == 2 ^ 31 then none else (do
      (str', i) ← digit_loop 33 (2 ^ 32 - n) base str 0
      str'' ← store? str' i b'-'
      str3 ← store? str'' (i + 1) 0
      str_reverse str3))
