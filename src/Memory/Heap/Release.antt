-- ===== src/Memory/Heap/Release.antt =====
-- src/memory/malloc.c: `free`, and `malloc` after it.
use mathlib.Core.Path.{subst}
use aijak.Common.{
  ℕ, ◌+◌, ◌-◌, ◌%◌, ◌^◌, ◌≤◌, ◌<◌, ◌≡◌, refl, sym, inl, inr, arith, ap, ◌∙◌, Bool-cases,
}
use aijak.Common.{List, [], ◌∷◌, ◌++◌, length, ◌==◌, leb, ◌&&◌}
use aijak.Memory.Bytes.{SameOutside, read32-eq}
use aijak.Memory.Heap.{Heap, pointer, malloc, free, set_status}
use aijak.Memory.Heap.Blocks.{
  Block, address_after, Holds-split, Fit, fits, none_fits, first_fit, behind,
}
use aijak.Memory.Heap.Malloc.{block, IsHeap, Served, Holds-middle, address_after-middle}
use aijak.Memory.Heap.Laws.{malloc-reuse, malloc-grow}

-- What `free` of a pointer that `malloc` gave leaves.
pub record Freed (s : Heap) (p sz : ℕ) (bs : List Block) (t : Heap) : Type 0 where
  pub blocks : IsHeap t bs
  pub frame : SameOutside p (p + 1) s.mem t.mem
  pub counted : t.memory_used ≡ (s.memory_used + 2 ^ 32 - (sz + 8)) % 2 ^ 32

module _ (s : Heap) (pre : List Block) (st sz : ℕ) (post : List Block)
    (h : IsHeap s (pre ++ block st sz ∷ post)) where
  abbrev header : ℕ
  header = address_after s.heap_begin pre

  -- In a well-formed heap, `free` of the pointer to a block's payload marks the block as free,
  -- changes no other byte of memory, and takes the size of the block and of its header off the
  -- count.
  pub free-Freed :
      Freed s
        (address_after s.heap_begin pre)
        sz
        (pre ++ block 0 sz ∷ post)
        (free s (address_after s.heap_begin pre + 8))
  unfolding free
  free-Freed =
      let (l, r) = Holds-split s.mem s.heap_begin pre (block st sz ∷ post) h.holds in
      let back : header + 8 - 8 ≡ header = omega arith in
      rw back (record {
        blocks = record {
          holds =
              Holds-middle s.mem (set_status s.mem header 0) s.heap_begin st 0 sz pre post h.holds 0
                (omega arith) (λ b out. ground arith) (ground arith)
                (read32-eq s.mem (set_status s.mem header 0) (header + 4)
                  (λ b lo hi. ground arith));
          last = sym (address_after-middle s.heap_begin st 0 sz pre post) ∙ h.last;
          room = h.room;
          small = h.small;
        };
        frame = λ b out. ground arith;
        counted = ground (arith, r.1);
      })

behind-none : (b : Block) (f : Fit) → behind b f ≡ none_fits → f ≡ none_fits
behind-none b (fits pre sz post) e = cc
behind-none b none_fits e = refl

first_fit-here :
    (n sz : ℕ) (pre post : List Block)
    → first_fit n pre ≡ none_fits
    → n ≤ sz
    → first_fit n (pre ++ block 0 sz ∷ post) ≡ fits pre sz post
unfolding first_fit
first_fit-here n sz [] post e le = ground arith
first_fit-here n sz (b ∷ pre) post e le = elim (Bool-cases (b.status == 0 && leb n b.size)) [
  | inl hit ↦ cc (rw hit at e)
  | inr miss ↦
      let rest = behind-none b (first_fit n pre) (rw miss at e) in
      rw (miss, first_fit-here n sz pre post rest le) refl
]

module _ (s : Heap) (pre : List Block) (st sz : ℕ) (post : List Block)
    (h : IsHeap s (pre ++ block st sz ∷ post)) where
  -- Memory that was freed is handed out again: in a well-formed heap where no earlier block
  -- serves, after `free` of a block, `malloc` of 1 byte up to the size of that block, with more
  -- rounds than blocks, returns the same pointer, its bytes zeroed.
  pub malloc-free :
      (n rounds : ℕ)
      → 0 < n
      → n ≤ sz
      → first_fit n pre ≡ none_fits
      → length (pre ++ block 0 sz ∷ post) < rounds
      → let p = address_after s.heap_begin pre in
        let t = free s (p + 8) in
        Served t n
          (address_after t.heap_begin pre)
          (n + 8)
          (pre ++ block 1 sz ∷ post)
          (malloc rounds t n)
  unfolding free
  malloc-free n rounds pos le none fuel =
      let t = free s (address_after s.heap_begin pre + 8) in
      malloc-reuse t n rounds (pre ++ block 0 sz ∷ post) (free-Freed s pre st sz post h).blocks pos
        fuel pre sz post (first_fit-here n sz pre post none le)

module _ (s : Heap) (size rounds : ℕ) (bs : List Block) (h : IsHeap s bs) (pos : 0 < size)
    (fuel : length bs < rounds) where
  -- The count of used memory does not return to its value: in a well-formed heap with room and no
  -- large enough free block, `free` of a block that `malloc` put at the end of the heap leaves
  -- the count four bytes higher than before `malloc`.
  pub memory_used-free-malloc :
      first_fit size bs ≡ none_fits
      → s.last_alloc + size + 8 < s.heap_end
      → (t : Heap) → malloc rounds s size ≡ pointer (s.last_alloc + 8) t
      → (free t (s.last_alloc + 8)).memory_used ≡ (s.memory_used + 4) % 2 ^ 32
  memory_used-free-malloc none fit t e =
      let served = malloc-grow s size rounds bs h pos fuel none fit in
      let u = served.after in
      let same : u ≡ t = cc (served.returns, e) in
      let a = address_after u.heap_begin bs in
      let here : a ≡ s.last_alloc = ap (λ (p : ℕ). address_after p bs) served.begin_kept ∙ h.last in
      let freed = free-Freed u bs 1 size [] served.blocks in
      let in_u : (free u (s.last_alloc + 8)).memory_used ≡ (s.memory_used + 4) % 2 ^ 32 =
        subst (λ (p : ℕ). (free u (p + 8)).memory_used ≡ (s.memory_used + 4) % 2 ^ 32) here
          (omega (arith, freed.counted, served.counted, h.small)) in
      subst (λ (t : Heap). (free t (s.last_alloc + 8)).memory_used ≡ (s.memory_used + 4) % 2 ^ 32)
        same in_u
