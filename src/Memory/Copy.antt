-- ===== src/Memory/Copy.antt =====
-- src/memory/memutils.c: `memcpy` and `memset16`. The mutex that `memcpy` holds is left out.
use aijak.Common.{
  ℕ, zero, suc, ◌+◌, ◌*◌, ◌/◌, ◌%◌, ◌^◌, ◌≤◌, ◌<◌, ◌≡◌, refl, sym, ap, ◌∙◌, ◌⊎◌, inl, arith,
}
use aijak.Common.{◌==◌, if◌then◌else◌, u8}
use native.Mathlib.Decide.{ℕ_discrete}
use aijak.Memory.Bytes.{Mem, set_byte, SameOutside}

abbrev pub copy_byte : Mem → ℕ → ℕ → Mem
copy_byte m dst src = set_byte m dst (m src)

-- `while (num--)`: two bytes in a round.
unfoldable pub copy_pairs : Mem → ℕ → ℕ → ℕ → Mem
copy_pairs m dst src zero = m
copy_pairs m dst src (suc num) =
    copy_pairs (copy_byte (copy_byte m dst src) (dst + 1) (src + 1)) (dst + 2) (src + 2) num

unfoldable pub memcpy : Mem → ℕ → ℕ → ℕ → Mem
unfolding copy_pairs
memcpy m dst src num =
    if num % 2 == 1
    then copy_pairs (copy_byte m dst src) (dst + 1) (src + 1) (num / 2)
    else copy_pairs m dst src (num / 2)

unfoldable pub memset16 : Mem → ℕ → ℕ → ℕ → Mem
memset16 m p value zero = m
memset16 m p value (suc num) =
    memset16 (set_byte (set_byte m p (u8 value)) (p + 1) (u8 (value / 2 ^ 8))) (p + 2) value num

-- One byte after another, from the front.
abbrev pub copy_bytes : Mem → ℕ → ℕ → ℕ → Mem
copy_bytes m dst src zero = m
copy_bytes m dst src (suc num) = copy_bytes (copy_byte m dst src) (dst + 1) (src + 1) num

copy_pairs-copy_bytes :
    (num : ℕ) (m : Mem) (dst src : ℕ) → copy_pairs m dst src num ≡ copy_bytes m dst src (2 * num)
unfolding copy_pairs
copy_pairs-copy_bytes zero m dst src = refl
copy_pairs-copy_bytes (suc num) m dst src =
    let m' = copy_byte (copy_byte m dst src) (dst + 1) (src + 1) in
    copy_pairs-copy_bytes num m' (dst + 2) (src + 2)
    ∙ ap (λ (d : ℕ). copy_bytes m' d (src + 2) (2 * num)) {x = dst + 2} {y = dst + 1 + 1}
        (omega arith)
    ∙ ap (λ (s : ℕ). copy_bytes m' (dst + 1 + 1) s (2 * num)) {x = src + 2} {y = src + 1 + 1}
        (omega arith)
    ∙ ap (copy_bytes m dst src) {x = suc (suc (2 * num))} {y = 2 * suc num} (omega arith)

-- The pairs and the odd byte in front are a copy of one byte after another, from the front, also
-- where the two blocks overlap.
pub memcpy-copy_bytes :
    (m : Mem) (dst src num : ℕ) → memcpy m dst src num ≡ copy_bytes m dst src num
unfolding memcpy
memcpy-copy_bytes m dst src num = elim (ℕ_discrete (num % 2) 1) [
  | yes odd ↦
      let whole : suc (2 * (num / 2)) ≡ num = omega arith in
      let start : memcpy m dst src num
          ≡ copy_pairs (copy_byte m dst src) (dst + 1) (src + 1) (num / 2) =
        ground (arith, odd) in
      start
      ∙ copy_pairs-copy_bytes (num / 2) (copy_byte m dst src) (dst + 1) (src + 1)
      ∙ ap (copy_bytes m dst src) whole
  | no even ↦
      let whole : 2 * (num / 2) ≡ num = omega arith in
      let start : memcpy m dst src num ≡ copy_pairs m dst src (num / 2) = ground (arith, even) in
      start ∙ copy_pairs-copy_bytes (num / 2) m dst src ∙ ap (copy_bytes m dst src) whole
]

pub copy_bytes-SameOutside :
    (num : ℕ) (m : Mem) (dst src : ℕ) → SameOutside dst (dst + num) m (copy_bytes m dst src num)
copy_bytes-SameOutside zero m dst src b out = refl
copy_bytes-SameOutside (suc num) m dst src b out =
    ground (arith, copy_bytes-SameOutside num (copy_byte m dst src) (dst + 1) (src + 1) b)

-- A destination at or before the source, or behind its end: the block is copied.
pub copy_bytes-apart :
    (num : ℕ) (m : Mem) (dst src i : ℕ)
    → (dst ≤ src) ⊎ (src + num ≤ dst)
    → i < num
    → copy_bytes m dst src num (dst + i) ≡ m (src + i)
copy_bytes-apart zero m dst src i apart h = absurd (omega arith)
copy_bytes-apart (suc num) m dst src zero apart h =
    ap (copy_bytes (copy_byte m dst src) (dst + 1) (src + 1) num) {x = dst + 0} {y = dst}
      (omega arith)
    ∙ copy_bytes-SameOutside num (copy_byte m dst src) (dst + 1) (src + 1) dst (inl (omega arith))
    ∙ ground arith
copy_bytes-apart (suc num) m dst src (suc i) apart h =
    let m' = copy_byte m dst src in
    ap (copy_bytes m' (dst + 1) (src + 1) num) {x = dst + suc i} {y = dst + 1 + i} (omega arith)
    ∙ copy_bytes-apart num m' (dst + 1) (src + 1) i (ground (arith, apart)) (omega arith)
    ∙ ap m' {x = src + 1 + i} {y = src + suc i} (omega arith)
    ∙ ground (arith, apart)

-- A source at or before the destination: the copy follows what stands in front of it.
copy_bytes-behind :
    (num : ℕ) (m : Mem) (dst src i : ℕ)
    → src ≤ dst
    → i < num
    → copy_bytes m dst src num (dst + i) ≡ copy_bytes m dst src num (src + i)
copy_bytes-behind zero m dst src i order h = absurd (omega arith)
copy_bytes-behind (suc num) m dst src zero order h =
    let m' = copy_byte m dst src in
    let there : copy_bytes m' (dst + 1) (src + 1) num (dst + 0) ≡ m src =
      copy_bytes-SameOutside num m' (dst + 1) (src + 1) (dst + 0) (inl (omega arith))
      ∙ ground arith in
    let here : copy_bytes m' (dst + 1) (src + 1) num (src + 0) ≡ m src =
      copy_bytes-SameOutside num m' (dst + 1) (src + 1) (src + 0) (inl (omega arith))
      ∙ ground arith in
    there ∙ sym here
copy_bytes-behind (suc num) m dst src (suc i) order h =
    let final = copy_bytes (copy_byte m dst src) (dst + 1) (src + 1) num in
    ap final {x = dst + suc i} {y = dst + 1 + i} (omega arith)
    ∙ copy_bytes-behind num (copy_byte m dst src) (dst + 1) (src + 1) i (omega arith) (omega arith)
    ∙ ap final {x = src + 1 + i} {y = src + suc i} (omega arith)

-- Blocks with the destination at or before the source, or behind the source's end: every byte of
-- the destination is the source's byte before the call, and no other byte changes.
pub memcpy_copied :
    (m : Mem) (dst src num : ℕ)
    → (dst ≤ src) ⊎ (src + num ≤ dst)
    → ((i : ℕ) → i < num → memcpy m dst src num (dst + i) ≡ m (src + i))
      × SameOutside dst (dst + num) m (memcpy m dst src num)
memcpy_copied m dst src num apart =
    rw (memcpy-copy_bytes m dst src num)
      ((λ i h. copy_bytes-apart num m dst src i apart h), copy_bytes-SameOutside num m dst src)

-- A source at or before the destination, also where the blocks overlap: after the call the
-- destination is equal, byte for byte, to what then stands at the source, so that a short
-- distance between them is a pattern that the destination repeats.
pub memcpy_repeats :
    (m : Mem) (dst src num i : ℕ)
    → src ≤ dst
    → i < num
    → memcpy m dst src num (dst + i) ≡ memcpy m dst src num (src + i)
memcpy_repeats m dst src num i order h =
    rw (memcpy-copy_bytes m dst src num) (copy_bytes-behind num m dst src i order h)
