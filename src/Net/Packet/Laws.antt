-- ===== src/Net/Packet/Laws.antt =====
-- Reading back what was written to a buffer.
use aijak.Common.{ℕ, zero, suc, ◌+◌, ◌≤◌, ◌<◌, ◌≡◌, refl, sym, inl, inr, arith, ap, ap₂}
use aijak.Common.{List, [], ◌∷◌, ◌++◌, length, get_or, ◌∙◌}
use aijak.Memory.Bytes.{Mem, set_byte, SameOutside}
use aijak.Net.Packet.{write_bytes, read_bytes}

pub write_bytes-SameOutside :
    (m : Mem) (a : ℕ) (bs : List ℕ) → SameOutside a (a + length bs) m (write_bytes m a bs)
unfolding write_bytes
write_bytes-SameOutside m a [] b out = refl
write_bytes-SameOutside m a (x ∷ bs) b out =
    ground (arith, write_bytes-SameOutside (set_byte m a x) (a + 1) bs b)

pub read_bytes-eq :
    (m m' : Mem) (a n : ℕ)
    → ((b : ℕ) → a ≤ b → b < a + n → m' b ≡ m b)
    → read_bytes m' a n ≡ read_bytes m a n
unfolding read_bytes
read_bytes-eq m m' a zero same = refl
read_bytes-eq m m' a (suc n) same =
    ap₂ ◌∷◌ (same a (omega arith) (omega arith))
      (read_bytes-eq m m' (a + 1) n (λ b lo hi. same b (omega arith) (omega arith)))

-- What was written at a place is read there.
pub read_bytes-write_bytes :
    (m : Mem) (a : ℕ) (bs : List ℕ) → read_bytes (write_bytes m a bs) a (length bs) ≡ bs
unfolding read_bytes write_bytes
read_bytes-write_bytes m a [] = refl
read_bytes-write_bytes m a (x ∷ bs) =
    ap₂ ◌∷◌
      (write_bytes-SameOutside (set_byte m a x) (a + 1) bs a (inl (omega arith)) ∙ ground arith)
      (read_bytes-write_bytes (set_byte m a x) (a + 1) bs)

pub length-read_bytes : (m : Mem) (a n : ℕ) → length (read_bytes m a n) ≡ n
unfolding read_bytes
length-read_bytes m a zero = refl
length-read_bytes m a (suc n) = ap suc (length-read_bytes m (a + 1) n)

pub read_bytes-add :
    (m : Mem) (a k n : ℕ) → read_bytes m a (k + n) ≡ read_bytes m a k ++ read_bytes m (a + k) n
unfolding read_bytes
read_bytes-add m a zero n = ap₂ (read_bytes m) {x = a} {y = a + 0} (omega arith) (omega arith)
read_bytes-add m a (suc k) n =
    let e : suc k + n ≡ suc (k + n) = omega arith in
    let f : a + suc k ≡ a + 1 + k = omega arith in
    rw (e, f) (ap (λ t. m a ∷ t) (read_bytes-add m (a + 1) k n))

pub write_bytes-append :
    (m : Mem) (a : ℕ) (xs ys : List ℕ)
    → write_bytes m a (xs ++ ys) ≡ write_bytes (write_bytes m a xs) (a + length xs) ys
unfolding write_bytes
write_bytes-append m a [] ys = let e : a + 0 ≡ a = omega arith in rw e refl
write_bytes-append m a (x ∷ xs) ys =
    let e : a + suc (length xs) ≡ a + 1 + length xs = omega arith in
    rw e (write_bytes-append (set_byte m a x) (a + 1) xs ys)

pub read_bytes-get : (m : Mem) (a n i : ℕ) → i < n → get_or (read_bytes m a n) i 0 ≡ m (a + i)
unfolding read_bytes
read_bytes-get m a zero i h = absurd (omega arith)
read_bytes-get m a (suc n) zero h = ap m {x = a} {y = a + 0} (omega arith)
read_bytes-get m a (suc n) (suc i) h =
    read_bytes-get m (a + 1) n i (omega arith) ∙ ap m {x = a + 1 + i} {y = a + suc i} (omega arith)

read_part :
    (m : Mem) (a : ℕ) (xs ys : List ℕ) → read_bytes (write_bytes m a (xs ++ ys)) a (length xs) ≡ xs
read_part m a xs ys =
    let split = write_bytes-append m a xs ys in
    let front = write_bytes m a xs in
    rw split (
      read_bytes-eq front (write_bytes front (a + length xs) ys) a (length xs)
        (λ b lo hi. write_bytes-SameOutside front (a + length xs) ys b (inl hi))
      ∙ read_bytes-write_bytes m a xs)

-- A part in the middle of what was written is replaced.
pub read_bytes-replaced :
    (m : Mem) (a : ℕ) (xs old new ys : List ℕ)
    → length old ≡ length new
    → read_bytes
        (write_bytes (write_bytes m a (xs ++ (old ++ ys))) (a + length xs) new)
        a
        (length xs + (length new + length ys))
      ≡ xs ++ (new ++ ys)
read_bytes-replaced m a xs old new ys same =
    let lx = length xs in
    let ln = length new in
    let before = write_bytes m a (xs ++ (old ++ ys)) in
    let after = write_bytes before (a + lx) new in
    let keeps = write_bytes-SameOutside before (a + lx) new in
    let tail : read_bytes before (a + lx + ln) (length ys) ≡ ys =
      rw
        (
          write_bytes-append m a xs (old ++ ys),
          write_bytes-append (write_bytes m a xs) (a + lx) old ys,
          sym same,
        )
        (read_bytes-write_bytes (write_bytes (write_bytes m a xs) (a + lx) old)
          (a + lx + length old) ys) in
    let front : read_bytes after a lx ≡ xs =
      read_bytes-eq before after a lx (λ b lo hi. keeps b (inl hi))
      ∙ read_part m a xs (old ++ ys) in
    let behind : read_bytes after (a + lx + ln) (length ys) ≡ ys =
      read_bytes-eq before after (a + lx + ln) (length ys) (λ b lo hi. keeps b (inr lo)) ∙ tail in
    read_bytes-add after a lx (ln + length ys)
    ∙ ap₂ ◌++◌ front (
        read_bytes-add after (a + lx) ln (length ys)
        ∙ ap₂ ◌++◌ (read_bytes-write_bytes before (a + lx) new) behind)
