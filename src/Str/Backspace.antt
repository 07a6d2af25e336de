-- ===== src/Str/Backspace.antt =====
-- src/string.c: `str_backspace`.
use mathlib.Core.Path.{subst}
use native.Mathlib.Decide.{dec_lt, ℕ_discrete}
use aijak.Common.{
  ℕ, zero, suc, ◌+◌, ◌-◌, ◌^◌, ◌≤◌, ◌<◌, ◌≡◌, refl, ◌≢◌, ◌⊎◌, inl, inr, arith, sym, ap, ◌∙◌,
}
use aijak.Common.{
  Option, some, none, List, [], ◌∷◌, ◌++◌, length, length-append, get_elem?, set, take, ◌==◌,
}
use aijak.Common.{false, sub32}
use aijak.Str.{strlen, str_backspace, backspace_loop, ◌>>=◌}
use aijak.Str.Compare.{NonZero, cstr, strlen-cstr}

-- The last place of `c` among the indices 1 to `i` of `u`, if any, and what the loop makes of it.
abbrev Cut : List ℕ → ℕ → ℕ → Option (ℕ × List ℕ) → Type 0
Cut u c i result =
    (((j : ℕ) → 1 ≤ j → j ≤ i → get_elem? u j ≢ some c) × (result ≡ some (0, u)))
    ⊎ ((j : ℕ) × (1 ≤ j)
        × (j ≤ i)
        × (get_elem? u j ≡ some c)
        × ((k : ℕ) → j < k → k ≤ i → get_elem? u k ≢ some c)
        × (result ≡ some (1, set u (j + 1) 0)))

get_elem?-lt : (u : List ℕ) (i : ℕ) → i < length u → (x : ℕ) × (get_elem? u i ≡ some x)
get_elem?-lt [] i h = absurd (omega arith)
get_elem?-lt (x ∷ u) zero h = (x, refl)
get_elem?-lt (x ∷ u) (suc i) h = get_elem?-lt u i (omega arith)

backspace_loop-Cut :
    (i : ℕ) (u : List ℕ) (c : ℕ) → i + 1 < length u → Cut u c i (backspace_loop i u c)
unfolding backspace_loop
backspace_loop-Cut zero u c h = inl ((λ j lo hi. absurd (omega arith)), refl)
backspace_loop-Cut (suc i) u c h =
    let (x, at) = get_elem?-lt u (suc i) (omega arith) in
    elim (ℕ_discrete x c) [
      | yes same ↦ inr (
        suc i,
        omega arith,
        omega arith,
        at ∙ ap some same,
        (λ k lo hi. absurd (omega arith)),
        rw at (ground arith),
      )
      | no other ↦
          let miss : (x == c) ≡ false = ground arith in
          elim (backspace_loop-Cut i u c (omega arith)) [
            | inl (none_there, result) ↦ inl (
              (λ j lo hi. elim (dec_lt j (suc i)) [
                | yes p ↦ none_there j lo (omega arith)
                | no p ↦
                    let e : suc i ≡ j = omega arith in
                    subst (λ (k : ℕ). get_elem? u k ≢ some c) e (λ q. other (cc (at, q)))
              ]),
              rw (at, miss) result,
            )
            | inr (j, lo, hi, found, after, result) ↦ inr (
              j,
              lo,
              omega arith,
              found,
              (λ k lo' hi'. elim (dec_lt k (suc i)) [
                | yes p ↦ after k lo' (omega arith)
                | no p ↦
                    let e : suc i ≡ k = omega arith in
                    subst (λ (k : ℕ). get_elem? u k ≢ some c) e (λ q. other (cc (at, q)))
              ]),
              rw (at, miss) result,
            )
          ]
    ]

get_elem?-append_left : (s t : List ℕ) (i : ℕ) → i < length s → get_elem? (s ++ t) i ≡ get_elem? s i
get_elem?-append_left [] t i h = absurd (omega arith)
get_elem?-append_left (x ∷ s) t zero h = refl
get_elem?-append_left (x ∷ s) t (suc i) h = get_elem?-append_left s t i (omega arith)

get_elem?-ge : (s : List ℕ) (i c : ℕ) → length s ≤ i → get_elem? s i ≢ some c
get_elem?-ge [] i c h = λ e. cc
get_elem?-ge (x ∷ s) zero c h = absurd (omega arith)
get_elem?-ge (x ∷ s) (suc i) c h = get_elem?-ge s i c (omega arith)

set-cut :
    (s rest : List ℕ) (k : ℕ)
    → k ≤ length s
    → (rest' : List ℕ) × (set (cstr s rest) k 0 ≡ cstr (take k s) rest')
set-cut [] rest zero h = (rest, refl)
set-cut [] rest (suc k) h = absurd (omega arith)
set-cut (x ∷ s) rest zero h = (cstr s rest, refl)
set-cut (x ∷ s) rest (suc k) h =
    let (rest', e) = set-cut s rest k (omega arith) in (rest', ap (λ t. x ∷ t) e)

-- `s` is cut behind the last `c` that is not its first character, if there is one.
abbrev pub Backspaced : List ℕ → List ℕ → ℕ → Option (ℕ × List ℕ) → Type 0
Backspaced s rest c result =
    (((j : ℕ) → 1 ≤ j → get_elem? s j ≢ some c) × (result ≡ some (0, cstr s rest)))
    ⊎ ((j : ℕ) × (1 ≤ j)
        × (get_elem? s j ≡ some c)
        × ((k : ℕ) → j < k → get_elem? s k ≢ some c)
        × ((rest' : List ℕ) × (result ≡ some (1, cstr (take (j + 1) s) rest'))))

-- `str_backspace` of a zero-terminated string that is not empty and shorter than 4 GiB cuts it
-- behind the last occurrence of the character, the first character of the string not counted, and
-- returns 1; where there is no such occurrence it returns 0 and changes nothing.
pub str_backspace-Backspaced :
    (s rest : List ℕ) (c : ℕ)
    → NonZero s
    → 0 < length s
    → length s < 2 ^ 32
    → Backspaced s rest c (str_backspace (cstr s rest) c)
unfolding str_backspace
str_backspace-Backspaced s rest c hs pos small =
    let start : sub32 (length s) 1 ≡ length s - 1 = omega arith in
    let whole = length-append s (0 ∷ rest) in
    rw (strlen-cstr s rest hs, start)
      (elim (backspace_loop-Cut (length s - 1) (cstr s rest) c (omega arith)) [
        | inl (nowhere, result) ↦ inl ((λ j lo e. go j lo e nowhere), result)
        | inr (j, lo, hi, found, after, result) ↦
            let (rest', cut) = set-cut s rest (j + 1) (omega arith) in
            inr (
              j,
              lo,
              sym (get_elem?-append_left s (0 ∷ rest) j (omega arith)) ∙ found,
              (λ k lt e. beyond k j lt e after),
              (rest', result ∙ ap (λ t. some (1, t)) cut),
            )
      ])
  where
    go :
        (j : ℕ)
        → 1 ≤ j
        → get_elem? s j ≡ some c
        → ((j : ℕ) → 1 ≤ j → j ≤ length s - 1 → get_elem? (cstr s rest) j ≢ some c)
        → ⊥
    go j lo e nowhere = elim (dec_lt j (length s)) [
      | yes p ↦ nowhere j lo (omega arith) (get_elem?-append_left s (0 ∷ rest) j p ∙ e)
      | no p ↦ get_elem?-ge s j c (omega arith) e
    ]

    beyond :
        (k j : ℕ)
        → j < k
        → get_elem? s k ≡ some c
        → ((k : ℕ) → j < k → k ≤ length s - 1 → get_elem? (cstr s rest) k ≢ some c)
        → ⊥
    beyond k j lt e after = elim (dec_lt k (length s)) [
      | yes p ↦ after k lt (omega arith) (get_elem?-append_left s (0 ∷ rest) k p ∙ e)
      | no p ↦ get_elem?-ge s k c (omega arith) e
    ]

get_elem?-none : (u : List ℕ) (i : ℕ) → length u ≤ i → get_elem? u i ≡ none
get_elem?-none [] i h = refl
get_elem?-none (x ∷ u) zero h = absurd (omega arith)
get_elem?-none (x ∷ u) (suc i) h = get_elem?-none u i (omega arith)

backspace_loop-none :
    (i : ℕ) (u : List ℕ) (c : ℕ) → 1 ≤ i → length u ≤ i → backspace_loop i u c ≡ none
unfolding backspace_loop
backspace_loop-none zero u c pos h = absurd (omega arith)
backspace_loop-none (suc i) u c pos h = rw (get_elem?-none u (suc i) h) refl

str_backspace-eq :
    (s : List ℕ) (c n : ℕ) → strlen s ≡ some n → str_backspace s c ≡ backspace_loop (sub32 n 1) s c
unfolding str_backspace
str_backspace-eq s c n e = ap (λ o. o >>= λ n. backspace_loop (sub32 n 1) s c) e

-- On the empty string the index starts at 2 ^ 32 - 1, and the first read lies behind any object
-- that is not that long.
pub str_backspace_empty :
    (rest : List ℕ) (c : ℕ) → length rest < 2 ^ 32 - 1 → str_backspace (cstr [] rest) c ≡ none
str_backspace_empty rest c h =
    str_backspace-eq (cstr [] rest) c 0 (strlen-cstr [] rest tt)
    ∙ backspace_loop-none (sub32 0 1) (cstr [] rest) c (omega arith) (omega arith)
