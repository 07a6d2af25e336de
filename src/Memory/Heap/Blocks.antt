-- ===== src/Memory/Heap/Blocks.antt =====
-- src/memory/malloc.c: the blocks of the heap as a list, and the search of `malloc` on that list.
use aijak.Common.{ℕ, zero, suc, ◌+◌, ◌%◌, ◌^◌, ◌≤◌, ◌<◌, ◌≡◌, refl, ◌⊎◌, inl, inr, arith}
use aijak.Common.{List, [], ◌∷◌, ◌++◌, length, ◌==◌, leb, if◌then◌else◌, Bool-cases, ap, ◌∙◌, ◌&&◌}
use aijak.Memory.Bytes.{Mem, read32-eq, SameOutside}
use aijak.Memory.Heap.{status_of, size_of, Scan, reuse, nalloc, scan}

pub record Block : Type 0 where
  pub status : ℕ
  pub size : ℕ

-- The address behind the blocks: a header of 8 bytes, the payload and 4 bytes more for each.
abbrev pub address_after : ℕ → List Block → ℕ
address_after p [] = p
address_after p (b ∷ bs) = address_after (p + (b.size + 12)) bs

-- From `p` the headers in memory are those of the blocks.
abbrev pub Holds : Mem → ℕ → List Block → Type 0
Holds m p [] = Unit
Holds m p (b ∷ bs) =
    (status_of m p ≡ b.status)
    × (size_of m p ≡ b.size)
    × (0 < b.size)
    × Holds m (p + (b.size + 12)) bs

pub le-address_after : (p : ℕ) (bs : List Block) → p ≤ address_after p bs
le-address_after p [] = omega arith
le-address_after p (b ∷ bs) = omega (arith, le-address_after (p + (b.size + 12)) bs)

pub address_after-append :
    (p : ℕ) (xs ys : List Block)
    → address_after p (xs ++ ys) ≡ address_after (address_after p xs) ys
address_after-append p [] ys = refl
address_after-append p (x ∷ xs) ys = address_after-append (p + (x.size + 12)) xs ys

pub Holds-append :
    (m : Mem) (p : ℕ) (xs ys : List Block)
    → Holds m p xs
    → Holds m (address_after p xs) ys
    → Holds m p (xs ++ ys)
Holds-append m p [] ys h k = k
Holds-append m p (x ∷ xs) ys h k = (h.0, h.1, h.2, Holds-append m (p + (x.size + 12)) xs ys h.3 k)

pub Holds-split :
    (m : Mem) (p : ℕ) (xs ys : List Block)
    → Holds m p (xs ++ ys)
    → Holds m p xs × Holds m (address_after p xs) ys
Holds-split m p [] ys h = (tt, h)
Holds-split m p (x ∷ xs) ys h =
    let (l, r) = Holds-split m (p + (x.size + 12)) xs ys h.3 in ((h.0, h.1, h.2, l), r)

-- A change outside the blocks leaves them.
pub Holds-frame :
    (m m' : Mem) (lo hi p : ℕ) (bs : List Block)
    → SameOutside lo hi m m'
    → (address_after p bs ≤ lo) ⊎ (hi ≤ p)
    → Holds m p bs
    → Holds m' p bs
Holds-frame m m' lo hi p [] same out h = tt
Holds-frame m m' lo hi p (b ∷ bs) same out h =
    let p' = p + (b.size + 12) in
    let reach = le-address_after p' bs in
    let size_same : size_of m' p ≡ size_of m p =
      read32-eq m m' (p + 4) (λ c l r. same c (ground arith)) in
    (
      same p (ground arith) ∙ h.0,
      size_same ∙ h.1,
      h.2,
      Holds-frame m m' lo hi p' bs same (ground arith) h.3,
    )

-- The first free block that is large enough, between those before it and those behind.
pub data Fit : Type 0 where
  fits : (pre : List Block) (size : ℕ) (post : List Block) → Fit
  none_fits : Fit

abbrev pub behind : Block → Fit → Fit
behind b (fits pre sz post) = fits (b ∷ pre) sz post
behind b none_fits = none_fits

unfoldable pub first_fit : ℕ → List Block → Fit
first_fit size [] = none_fits
first_fit size (b ∷ bs) =
    if b.status == 0 && leb size b.size then fits [] b.size bs else behind b (first_fit size bs)

abbrev pub scan_of : ℕ → Fit → Scan
scan_of p (fits pre sz post) = reuse (address_after p pre)
scan_of p none_fits = nalloc

scan_of-behind :
    (p : ℕ) (b : Block) (f : Fit) → scan_of p (behind b f) ≡ scan_of (p + (b.size + 12)) f
scan_of-behind p b (fits pre sz post) = refl
scan_of-behind p b none_fits = refl

-- The loop of `malloc` finds the first fit.
pub scan-first_fit :
    (rounds : ℕ) (m : Mem) (last size p : ℕ) (bs : List Block)
    → Holds m p bs
    → address_after p bs ≡ last
    → last < 2 ^ 32
    → length bs < rounds
    → scan rounds m last size p ≡ scan_of p (first_fit size bs)
unfolding scan first_fit
scan-first_fit zero m last size p bs h e fit32 fuel = absurd (omega arith)
scan-first_fit (suc rounds) m last size p [] h e fit32 fuel = ground arith
scan-first_fit (suc rounds) m last size p (b ∷ bs) h e fit32 fuel =
    let p' = p + (b.size + 12) in
    let reach = le-address_after p' bs in
    let next : (p + (size_of m p + 8 + 4)) % 2 ^ 32 ≡ p' = omega arith in
    let rest = scan-first_fit rounds m last size p' bs h.3 e fit32 (omega arith) in
    rw next (ground (arith, rest, scan_of-behind p b (first_fit size bs)))

-- What `first_fit` finds is a part of the list, free and large enough.
abbrev pub Split : ℕ → List Block → Fit → Type 0
Split size bs (fits pre sz post) =
    (bs ≡ pre ++ record { status = 0; size = sz } ∷ post) × (size ≤ sz)
Split size bs none_fits = Unit

Split-behind :
    (size : ℕ) (b : Block) (bs : List Block) (f : Fit)
    → Split size bs f
    → Split size (b ∷ bs) (behind b f)
Split-behind size b bs (fits pre sz post) h = (ap (λ t. b ∷ t) h.0, h.1)
Split-behind size b bs none_fits h = tt

pub first_fit-Split : (size : ℕ) (bs : List Block) → Split size bs (first_fit size bs)
unfolding first_fit
first_fit-Split size [] = tt
first_fit-Split size (b ∷ bs) = elim (Bool-cases (b.status == 0 && leb size b.size)) [
  | inl hit ↦ rw hit (ground arith, ground arith)
  | inr miss ↦ rw miss (Split-behind size b bs (first_fit size bs) (first_fit-Split size bs))
]
