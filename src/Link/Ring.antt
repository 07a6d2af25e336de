-- ===== src/Link/Ring.antt =====
-- What a ring of include/link.h stands for: the list of its nodes, seen from any one of them.
use aijak.Common.{ℕ, ◌≡◌, ◌≢◌, List, [], ◌∷◌, ◌++◌, arith, sym}
use mathlib.Core.List.{append-nil}
use aijak.Link.{Store, set_prev, set_next}

abbrev pub NotIn : ℕ → List ℕ → Type 0
NotIn a [] = Unit
NotIn a (x ∷ xs) = (a ≢ x) × NotIn a xs

abbrev pub Distinct : List ℕ → Type 0
Distinct [] = Unit
Distinct (x ∷ xs) = NotIn x xs × Distinct xs

-- From `p` the pointers lead through `xs` to `q`, and back.
abbrev pub Chain : Store → ℕ → List ℕ → ℕ → Type 0
Chain s p [] q = (s.next p ≡ q) × (s.prev q ≡ p)
Chain s p (x ∷ xs) q = (s.next p ≡ x) × (s.prev x ≡ p) × Chain s x xs q

-- The ring of the nodes `x ∷ xs`, in the order of `next`.
abbrev pub Ring : Store → List ℕ → Type 0
Ring s [] = ⊥
Ring s (x ∷ xs) = Chain s x xs x × Distinct (x ∷ xs)

pub Chain-set_next :
    (s : Store) (a v p : ℕ) (xs : List ℕ) (q : ℕ)
    → Chain s p xs q
    → NotIn a (p ∷ xs)
    → Chain (set_next s a v) p xs q
Chain-set_next s a v p [] q c out = ground arith
Chain-set_next s a v p (x ∷ xs) q c out =
    (ground arith, ground arith, Chain-set_next s a v x xs q c.2 out.1)

pub Chain-set_prev :
    (s : Store) (a v p : ℕ) (xs : List ℕ) (q : ℕ)
    → Chain s p xs q
    → NotIn a xs
    → a ≢ q
    → Chain (set_prev s a v) p xs q
Chain-set_prev s a v p [] q c out ne = ground arith
Chain-set_prev s a v p (x ∷ xs) q c out ne =
    (ground arith, ground arith, Chain-set_prev s a v x xs q c.2 out.1 ne)

pub NotIn-append : (a : ℕ) (xs ys : List ℕ) → NotIn a xs → NotIn a ys → NotIn a (xs ++ ys)
NotIn-append a [] ys h k = k
NotIn-append a (x ∷ xs) ys h k = (h.0, NotIn-append a xs ys h.1 k)

pub NotIn-split : (a : ℕ) (xs ys : List ℕ) → NotIn a (xs ++ ys) → NotIn a xs × NotIn a ys
NotIn-split a [] ys h = (tt, h)
NotIn-split a (x ∷ xs) ys h = let (l, r) = NotIn-split a xs ys h.1 in ((h.0, l), r)

pub Chain-append :
    (s : Store) (p : ℕ) (xs : List ℕ) (y : ℕ) (ys : List ℕ) (q : ℕ)
    → Chain s p xs y
    → Chain s y ys q
    → Chain s p (xs ++ y ∷ ys) q
Chain-append s p [] y ys q c d = (c.0, c.1, d)
Chain-append s p (x ∷ xs) y ys q c d = (c.0, c.1, Chain-append s x xs y ys q c.2 d)

pub Chain-split :
    (s : Store) (p : ℕ) (xs : List ℕ) (y : ℕ) (ys : List ℕ) (q : ℕ)
    → Chain s p (xs ++ y ∷ ys) q
    → Chain s p xs y × Chain s y ys q
Chain-split s p [] y ys q c = ((c.0, c.1), c.2)
Chain-split s p (x ∷ xs) y ys q c = let (l, r) = Chain-split s x xs y ys q c.2 in ((c.0, c.1, l), r)

-- The node after the last of `p ∷ xs` is `q`.
abbrev pub last_of : ℕ → List ℕ → ℕ
last_of p [] = p
last_of p (x ∷ xs) = last_of x xs

pub Chain-last :
    (s : Store) (p : ℕ) (xs : List ℕ) (q : ℕ) → Chain s p xs q → s.prev q ≡ last_of p xs
Chain-last s p [] q c = c.1
Chain-last s p (x ∷ xs) q c = Chain-last s x xs q c.2

-- The members of the two halves change places.
Distinct-rotate :
    (a : ℕ) (xs ys : List ℕ) → NotIn a (xs ++ ys) → Distinct (xs ++ ys) → Distinct (xs ++ a ∷ ys)
Distinct-rotate a [] ys out d = (out, d)
Distinct-rotate a (x ∷ xs) ys out d =
    let (l, r) = NotIn-split x xs ys d.0 in
    (NotIn-append x xs (a ∷ ys) l (λ e. out.0 (sym e), r), Distinct-rotate a xs ys out.1 d.1)

Distinct-swap : (xs ys : List ℕ) → Distinct (xs ++ ys) → Distinct (ys ++ xs)
Distinct-swap [] ys d = rw append-nil d
Distinct-swap (x ∷ xs) ys d =
    let (l, r) = NotIn-split x xs ys d.0 in
    Distinct-rotate x ys xs (NotIn-append x ys xs r l) (Distinct-swap xs ys d.1)

-- A ring may be seen from any of its nodes.
pub Ring-rotate :
    (s : Store) (a : ℕ) (xs : List ℕ) (b : ℕ) (ys : List ℕ)
    → Ring s (a ∷ (xs ++ b ∷ ys))
    → Ring s (b ∷ (ys ++ a ∷ xs))
Ring-rotate s a xs b ys r =
    let (there, back) = Chain-split s a xs b ys a r.0 in
    (Chain-append s b ys a xs b back there, Distinct-swap (a ∷ xs) (b ∷ ys) r.1)

pub NotIn-rotate :
    (x a : ℕ) (xs : List ℕ) (b : ℕ) (ys : List ℕ)
    → NotIn x (a ∷ (xs ++ b ∷ ys))
    → NotIn x (b ∷ (ys ++ a ∷ xs))
NotIn-rotate x a xs b ys h =
    let (l, r) = NotIn-split x xs (b ∷ ys) h.1 in (r.0, NotIn-append x ys (a ∷ xs) r.1 (h.0, l))
