-- ===== src/Str.antt =====
-- src/string.c and src/util.c: C strings. A pointer is the list of the bytes from its address to
-- the end of the object; `none` is an access behind the end.
pub mod Compare
pub mod Backspace
pub mod Reverse
pub mod Number
pub mod Tokens
use mathlib.Core.Option
use aijak.Common.{
  ℕ, zero, suc, ◌+◌, ◌-◌, ◌*◌, ◌/◌, ◌%◌, ◌^◌, Bool, true, false, ◌||◌, Option, none, some,
}
use aijak.Common.{
  List, [], ◌∷◌, ◌++◌, length, get_elem?, set, ◌==◌, ltb, leb, if◌then◌else◌, u32, sub32, map,
}

infixl 5 ◌>>=◌
abbrev pub ◌>>=◌ {ℓ κ} : {A : Type ℓ} {B : Type κ} → Option A → (A → Option B) → Option B
none >>= f = none
some a >>= f = f a

-- `xs[i] = v`
abbrev pub store? : List ℕ → ℕ → ℕ → Option (List ℕ)
store? xs i v = if ltb i (length xs) then some (set xs i v) else none

abbrev pub suc? : Option ℕ → Option ℕ
suc? none = none
suc? (some n) = some (suc n)

unfoldable pub strlen : List ℕ → Option ℕ
strlen [] = none
strlen (c ∷ cs) = if c == 0 then some 0 else suc? (strlen cs)

-- The -1 of the source, as the `uint8` that it returns.
abbrev pub order : ℕ → ℕ → ℕ
order a b = if ltb a b then 255 else 1

unfoldable pub strcmp : List ℕ → List ℕ → Option ℕ
strcmp [] t = none
strcmp (a ∷ s) [] = none
strcmp (a ∷ s) (b ∷ t) =
    if a == b then (if a == 0 then some 0 else strcmp s t) else some (order a b)

unfoldable pub strncmp : List ℕ → List ℕ → ℕ → Option ℕ
strncmp [] t num = none
strncmp (a ∷ s) [] num = none
strncmp (a ∷ s) (b ∷ t) num =
    if a == b
    then (if (a == 0) || (num == 0) then some 0 else strncmp s t (num - 1))
    else some (order a b)

unfoldable pub strprefix : List ℕ → List ℕ → Option Bool
strprefix prefix str = do n ← strlen prefix; r ← strncmp prefix str n; some (r == 0)

-- The loop `while (--i)` once `i` has been decreased.
pub backspace_loop : ℕ → List ℕ → ℕ → Option (ℕ × List ℕ)
backspace_loop zero s c = some (0, s)
backspace_loop (suc i) s c =
    let rest = backspace_loop i s c in
    do
      x ← get_elem? s (suc i)
      if x == c then (do t ← store? s (suc i + 1) 0; some (1, t)) else rest

unfoldable pub str_backspace : List ℕ → ℕ → Option (ℕ × List ℕ)
unfolding backspace_loop strlen
str_backspace s c = do n ← strlen s; backspace_loop (sub32 n 1) s c

-- The loop of `strReverse` at `i` and `j`; the rounds are those left.
pub reverse_loop : ℕ → List ℕ → ℕ → ℕ → Option (List ℕ)
reverse_loop zero s i j = none
reverse_loop (suc rounds) s i j =
    let again = λ (t : List ℕ). reverse_loop rounds t (i + 1) (j - 1) in
    if ltb i j
    then (do c ← get_elem? s i; d ← get_elem? s j; t ← store? s i d; u ← store? t j c; again u)
    else some s

-- `int j` is -1 for the empty string, where the loop is not entered.
unfoldable pub str_reverse : List ℕ → Option (List ℕ)
unfolding reverse_loop strlen
str_reverse s = do n ← strlen s; if n == 0 then some s else reverse_loop n s 0 (n - 1)
