-- ===== src/Str/Compare.antt =====
-- src/string.c: `strlen`, `strcmp`, `strncmp` and `strprefix` on strings that end.
use aijak.Common.{ℕ, suc, ◌-◌, ◌≡◌, refl, ◌↔◌, ◌≢◌, ◌⊎◌, inl, inr, arith, true, some}
use aijak.Common.{List, [], ◌∷◌, ◌++◌, length, ◌==◌, if◌then◌else◌, ap, sym, ◌∙◌}
use aijak.Str.{strlen, strcmp, strncmp, strprefix, order}

abbrev pub NonZero : List ℕ → Type 0
NonZero [] = Unit
NonZero (c ∷ s) = (c ≢ 0) × NonZero s

-- The string `s` with its end, and what stands behind it.
abbrev pub cstr : List ℕ → List ℕ → List ℕ
cstr s rest = s ++ 0 ∷ rest

pub NonZero-append : (s t : List ℕ) → NonZero s → NonZero t → NonZero (s ++ t)
NonZero-append [] t h k = k
NonZero-append (c ∷ s) t h k = (h.0, NonZero-append s t h.1 k)

pub strlen-cstr : (s rest : List ℕ) → NonZero s → strlen (cstr s rest) ≡ some (length s)
unfolding strlen
strlen-cstr [] rest h = refl
strlen-cstr (c ∷ s) rest h = ground (arith, strlen-cstr s rest h.1)

-- The order of strings by their first difference, as `strcmp` returns it.
abbrev lexicographic : List ℕ → List ℕ → ℕ
lexicographic [] [] = 0
lexicographic [] (y ∷ t) = 255
lexicographic (x ∷ s) [] = 1
lexicographic (x ∷ s) (y ∷ t) = if x == y then lexicographic s t else order x y

strcmp-lexicographic :
    (s t r q : List ℕ)
    → NonZero s
    → NonZero t
    → strcmp (cstr s r) (cstr t q) ≡ some (lexicographic s t)
unfolding strcmp
strcmp-lexicographic [] [] r q hs ht = refl
strcmp-lexicographic [] (y ∷ t) r q hs ht = ground arith
strcmp-lexicographic (x ∷ s) [] r q hs ht = ground arith
strcmp-lexicographic (x ∷ s) (y ∷ t) r q hs ht =
    ground (arith, strcmp-lexicographic s t r q hs.1 ht.1)

lexicographic-eq_zero : (s t : List ℕ) → lexicographic s t ≡ 0 → s ≡ t
lexicographic-eq_zero [] [] e = refl
lexicographic-eq_zero [] (y ∷ t) e = absurd (omega arith)
lexicographic-eq_zero (x ∷ s) [] e = absurd (omega arith)
lexicographic-eq_zero (x ∷ s) (y ∷ t) e = ground (arith, lexicographic-eq_zero s t)

lexicographic_self : (s : List ℕ) → lexicographic s s ≡ 0
lexicographic_self [] = refl
lexicographic_self (x ∷ s) = ground (arith, lexicographic_self s)

lexicographic-swap :
    (s t : List ℕ)
    → ((lexicographic s t ≡ 0) × (lexicographic t s ≡ 0))
      ⊎ ((lexicographic s t ≡ 255) × (lexicographic t s ≡ 1))
      ⊎ ((lexicographic s t ≡ 1) × (lexicographic t s ≡ 255))
lexicographic-swap [] [] = inl (refl, refl)
lexicographic-swap [] (y ∷ t) = inr (inl (refl, refl))
lexicographic-swap (x ∷ s) [] = inr (inr (refl, refl))
lexicographic-swap (x ∷ s) (y ∷ t) = ground (arith, lexicographic-swap s t)

module _ (s t r q : List ℕ) (hs : NonZero s) (ht : NonZero t) where
  -- `strcmp` of two zero-terminated strings returns 0 exactly when they are equal, whatever stands
  -- behind them.
  pub strcmp-eq_iff : (strcmp (cstr s r) (cstr t q) ≡ some 0) ↔ (s ≡ t)
  strcmp-eq_iff = (
    (λ e. lexicographic-eq_zero s t (cc (e, strcmp-lexicographic s t r q hs ht))),
    (λ e.
        strcmp-lexicographic s t r q hs ht
        ∙ ap some (ap (lexicographic s) (sym e) ∙ lexicographic_self s)),
  )

  -- Otherwise it returns 1 or 255, the -1 of the code as `uint8`, and the other of the two when
  -- the strings change places.
  pub strcmp-swap :
      s ≢ t
      → ((strcmp (cstr s r) (cstr t q) ≡ some 255) × (strcmp (cstr t q) (cstr s r) ≡ some 1))
        ⊎ ((strcmp (cstr s r) (cstr t q) ≡ some 1) × (strcmp (cstr t q) (cstr s r) ≡ some 255))
  strcmp-swap ne =
      let there = strcmp-lexicographic s t r q hs ht in
      let back = strcmp-lexicographic t s q r ht hs in
      elim (lexicographic-swap s t) [
        | inl (same, _) ↦ absurd (ne (lexicographic-eq_zero s t same))
        | inr (inl (a, b)) ↦ inl (there ∙ ap some a, back ∙ ap some b)
        | inr (inr (a, b)) ↦ inr (there ∙ ap some a, back ∙ ap some b)
      ]

-- With the length of the first string as its bound, `strncmp` still reads the end of it: the
-- bound is tested after the comparison.
strncmp-lexicographic :
    (s t r q : List ℕ)
    → NonZero s
    → NonZero t
    → strncmp (cstr s r) (cstr t q) (length s) ≡ some (lexicographic s t)
unfolding strncmp
strncmp-lexicographic [] [] r q hs ht = refl
strncmp-lexicographic [] (y ∷ t) r q hs ht = ground arith
strncmp-lexicographic (x ∷ s) [] r q hs ht = ground arith
strncmp-lexicographic (x ∷ s) (y ∷ t) r q hs ht =
    let less : suc (length s) - 1 ≡ length s = omega arith in
    rw less (ground (arith, strncmp-lexicographic s t r q hs.1 ht.1))

-- `strprefix` of two zero-terminated strings answers true exactly when they are equal: of a longer
-- string no proper prefix is accepted.
pub strprefix-eq_iff :
    (s t r q : List ℕ)
    → NonZero s
    → NonZero t
    → (strprefix (cstr s r) (cstr t q) ≡ some true) ↔ (s ≡ t)
unfolding strprefix
strprefix-eq_iff s t r q hs ht =
    rw (strlen-cstr s r hs, strncmp-lexicographic s t r q hs ht)
      (
        (λ e. lexicographic-eq_zero s t (ground arith)),
        (λ e. ground (arith, ap (lexicographic s) (sym e) ∙ lexicographic_self s)),
      )
