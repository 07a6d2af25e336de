-- ===== src/Str/Tokens.antt =====
-- src/string.c: `strtok`, which cuts a string at each delimiter and returns all the pieces.
pub mod Laws
use aijak.Common.{
  ℕ, zero, suc, ◌+◌, ◌*◌, ◌/◌, Bool, true, false, Option, none, some, List, [], ◌∷◌, ◌==◌, u32,
}
use aijak.Common.{if◌then◌else◌}
use aijak.Str.{strlen, store?, ◌>>=◌}

-- The loop over `delim`, from `id` on: whether it comes to the `break`.
unfoldable pub delim_loop : ℕ → List ℕ → ℕ → Option Bool
delim_loop zero delim c = some false
delim_loop (suc left) [] c = none
delim_loop (suc left) (d ∷ delim) c =
    let rest = delim_loop left delim c in if c == d then some true else rest

module _ (num_d : ℕ) (delim : List ℕ) where
  -- The first loop over the string from `is` on, with the count so far.
  unfoldable pub count_loop : ℕ → List ℕ → ℕ → Option ℕ
  unfolding delim_loop
  count_loop zero str length = some length
  count_loop (suc left) [] length = none
  count_loop (suc left) (c ∷ str) length = do
    hit ← delim_loop num_d delim c
    count_loop left str (if hit then u32 (length + 1) else length)

  -- The second loop from `is` on: the string from there with its stores, and the pointers as
  -- offsets from the beginning of the string.
  unfoldable pub cut_loop : ℕ → List ℕ → ℕ → List ℕ → ℕ → Option (List ℕ × List ℕ)
  unfolding delim_loop
  cut_loop zero str is tokens n = some (str, tokens)
  cut_loop (suc left) [] is tokens n = none
  cut_loop (suc left) (c ∷ str) is tokens n = do
    hit ← delim_loop num_d delim c
    tokens' ← (if hit then store? tokens n (is + 1) else some tokens)
    cut ← cut_loop left str (is + 1) tokens' (if hit then n + 1 else n)
    some ((if hit then 0 else c) ∷ cut.0, cut.1)

-- An array of `n` cells with what its memory held.
abbrev pub cells : (ℕ → ℕ) → ℕ → List ℕ
cells old zero = []
cells old (suc n) = old 0 ∷ cells (λ i. old (suc i)) n

pub record Tokens : Type 0 where
  pub str : List ℕ
  pub tokens : List ℕ
  pub length : ℕ

-- `old` is what stood in the array that `malloc` returns.
unfoldable pub strtok : (ℕ → ℕ) → List ℕ → List ℕ → Option Tokens
unfolding strlen count_loop cut_loop
strtok old str delim = do
  num_s ← strlen str
  num_d ← strlen delim
  length ← count_loop num_d delim num_s str 1
  tokens ← store? (cells old (u32 (length * 4) / 4)) 0 0
  cut ← cut_loop num_d delim num_s str 0 tokens 1
  some (record { str = cut.0; tokens = cut.1; length = length })
