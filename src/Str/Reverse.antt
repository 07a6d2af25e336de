-- ===== src/Str/Reverse.antt =====
-- src/string.c: `strReverse` swaps in place, from both ends.
use mathlib.Core.Path.{subst}
use mathlib.Core.List.{append_assoc, reverse-append}
use aijak.Common.{
  ℕ, zero, suc, ◌+◌, ◌-◌, ◌*◌, ◌<◌, ◌≡◌, refl, arith, sym, ap, ap₂, ◌≤◌, ◌∙◌, inl, inr, true, false,
}
use aijak.Common.{some, List, [], ◌∷◌, ◌++◌, length, length-append, get_elem?, reverse}
use aijak.Common.{snoc-cases, get_elem?-append_at, set-append_at, length-lt-append_at, ltb, ◌==◌}
use aijak.Str.{str_reverse, reverse_loop, store?}
use aijak.Str.Compare.{NonZero, cstr, strlen-cstr}

pub store?-at :
    (xs : List ℕ) (a v : ℕ) (ys : List ℕ)
    → store? (xs ++ a ∷ ys) (length xs) v ≡ some (xs ++ v ∷ ys)
store?-at xs a v ys =
    let lt = length-lt-append_at xs a ys in
    let inside : ltb (length xs) (length (xs ++ a ∷ ys)) ≡ true = ground arith in
    rw (inside, set-append_at xs a v ys) refl

-- One round: the ends `x` and `y` of the middle change places.
reverse_loop-swap :
    (rounds : ℕ) (front : List ℕ) (x : ℕ) (mid : List ℕ) (y : ℕ) (back : List ℕ)
    → reverse_loop
        (suc rounds)
        (front ++ x ∷ (mid ++ y ∷ back))
        (length front)
        (length front + length mid + 1)
      ≡ reverse_loop rounds
          (front ++ y ∷ (mid ++ x ∷ back))
          (length front + 1)
          (length front + length mid + 1 - 1)
unfolding reverse_loop
reverse_loop-swap rounds front x mid y back =
    let i = length front in
    let j = length front + length mid + 1 in
    let fore = front ++ x ∷ mid in
    let fore' = front ++ y ∷ mid in
    let len : length fore ≡ j = omega (arith, length-append front (x ∷ mid)) in
    let len' : length fore' ≡ j = omega (arith, length-append front (y ∷ mid)) in
    let seen : fore ++ y ∷ back ≡ front ++ x ∷ (mid ++ y ∷ back) =
      append_assoc front (x ∷ mid) (y ∷ back) in
    let seen' : fore' ++ y ∷ back ≡ front ++ y ∷ (mid ++ y ∷ back) =
      append_assoc front (y ∷ mid) (y ∷ back) in
    let done' : fore' ++ x ∷ back ≡ front ++ y ∷ (mid ++ x ∷ back) =
      append_assoc front (y ∷ mid) (x ∷ back) in
    let test : ltb i j ≡ true = ground arith in
    let first = get_elem?-append_at front x (mid ++ y ∷ back) in
    let second : get_elem? (front ++ x ∷ (mid ++ y ∷ back)) j ≡ some y =
      subst (λ t. get_elem? t j ≡ some y) seen
        (subst (λ (k : ℕ). get_elem? (fore ++ y ∷ back) k ≡ some y) len
          (get_elem?-append_at fore y back)) in
    let third = store?-at front x y (mid ++ y ∷ back) in
    let fourth : store? (front ++ y ∷ (mid ++ y ∷ back)) j x
        ≡ some (front ++ y ∷ (mid ++ x ∷ back)) =
      subst (λ t. store? t j x ≡ some (front ++ y ∷ (mid ++ x ∷ back))) seen'
        (subst (λ (k : ℕ). store? (fore' ++ y ∷ back) k x ≡ some (front ++ y ∷ (mid ++ x ∷ back)))
          len' (store?-at fore' y x back ∙ ap some done')) in
    rw (test, first, second, third, fourth) refl

reverse_loop-done :
    (rounds : ℕ) (s : List ℕ) (i j : ℕ) → j ≤ i → reverse_loop (suc rounds) s i j ≡ some s
unfolding reverse_loop
reverse_loop-done rounds s i j h = let test : ltb i j ≡ false = ground arith in rw test refl

reverse-ends :
    (x : ℕ) (mid : List ℕ) (y : ℕ) → reverse (x ∷ (mid ++ y ∷ [])) ≡ y ∷ (reverse mid ++ x ∷ [])
reverse-ends x mid y =
    reverse-append (x ∷ mid) (y ∷ []) ∙ ap (λ t. y ∷ t) (reverse-append (x ∷ []) mid)

reverse_loop-reverse :
    (rounds : ℕ) (front mid back : List ℕ) (i j : ℕ)
    → length mid < 2 * rounds
    → i ≡ length front
    → j + 1 ≡ i + length mid
    → reverse_loop rounds (front ++ (mid ++ back)) i j ≡ some (front ++ (reverse mid ++ back))
reverse_loop-reverse zero front mid back i j h e f = absurd (omega arith)
reverse_loop-reverse (suc rounds) front [] back i j h e f =
    reverse_loop-done rounds (front ++ back) i j (omega arith)
reverse_loop-reverse (suc rounds) front (x ∷ rest) back i j h e f = elim (snoc-cases rest) [
  | inl q ↦
      let Goal = λ (rest : List ℕ).
        reverse_loop (suc rounds) (front ++ ((x ∷ rest) ++ back)) i j
        ≡ some (front ++ (reverse (x ∷ rest) ++ back)) in
      let none_left : length rest ≡ 0 = ap length q in
      subst Goal (sym q) (reverse_loop-done rounds (front ++ x ∷ back) i j (omega arith))
  | inr (mid, y, q) ↦
      let Goal = λ (rest : List ℕ).
        reverse_loop (suc rounds) (front ++ ((x ∷ rest) ++ back)) i j
        ≡ some (front ++ (reverse (x ∷ rest) ++ back)) in
      let size : length rest ≡ length mid + 1 = ap length q ∙ length-append mid (y ∷ []) in
      let j_at : length front + length mid + 1 ≡ j = omega arith in
      let fewer : length front + length mid + 1 - 1 + 1 ≡ length front + 1 + length mid =
        omega arith in
      let ih =
        reverse_loop-reverse rounds (front ++ y ∷ []) mid (x ∷ back) (length front + 1)
          (length front + length mid + 1 - 1) (omega arith)
          (omega (arith, length-append front (y ∷ []))) fewer in
      let swap = reverse_loop-swap rounds front x mid y back in
      let before : front ++ y ∷ (mid ++ x ∷ back) ≡ (front ++ y ∷ []) ++ (mid ++ x ∷ back) =
        sym (append_assoc front (y ∷ []) (mid ++ x ∷ back)) in
      let after : (front ++ y ∷ []) ++ (reverse mid ++ x ∷ back)
          ≡ front ++ (reverse (x ∷ (mid ++ y ∷ [])) ++ back) =
        append_assoc front (y ∷ []) (reverse mid ++ x ∷ back)
        ∙ ap (λ t. front ++ y ∷ t) (sym (append_assoc (reverse mid) (x ∷ []) back))
        ∙ ap (λ t. front ++ (t ++ back)) (sym (reverse-ends x mid y)) in
      let flat : front ++ ((x ∷ (mid ++ y ∷ [])) ++ back) ≡ front ++ x ∷ (mid ++ y ∷ back) =
        ap (λ t. front ++ x ∷ t) (append_assoc mid (y ∷ []) back) in
      subst Goal (sym q) (
        ap₂ (λ (t : List ℕ) (i : ℕ). reverse_loop (suc rounds) t i j) flat e
        ∙ ap
            (λ (j : ℕ). reverse_loop (suc rounds) (front ++ x ∷ (mid ++ y ∷ back)) (length front) j)
            (sym j_at)
        ∙ swap
        ∙ ap
            (λ (t : List ℕ).
              reverse_loop rounds t (length front + 1) (length front + length mid + 1 - 1))
            before
        ∙ ih
        ∙ ap some after)
]

-- `strReverse` reverses the characters of the string in place and writes nothing behind its end.
pub str_reverse-reverse :
    (s rest : List ℕ) → NonZero s → str_reverse (cstr s rest) ≡ some (cstr (reverse s) rest)
unfolding str_reverse
str_reverse-reverse [] rest h = refl
str_reverse-reverse (c ∷ s) rest h =
    let test : (suc (length s) == 0) ≡ false = ground arith in
    rw (strlen-cstr (c ∷ s) rest h, test)
      (reverse_loop-reverse (length (c ∷ s)) [] (c ∷ s) (0 ∷ rest) 0 (length (c ∷ s) - 1)
        (omega arith) refl (omega arith))
