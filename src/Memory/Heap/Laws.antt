-- ===== src/Memory/Heap/Laws.antt =====
-- src/memory/malloc.c: the behaviour of `malloc` and `free` on every branch.
use mathlib.Core.Path.{subst}
use aijak.Common.{ℕ, ◌+◌, ◌^◌, ◌≤◌, ◌<◌, ◌≡◌, sym, arith, ap, ◌∙◌}
use aijak.Common.{List, [], ◌∷◌, ◌++◌, length}
use aijak.Memory.Heap.{Heap, fatal, malloc, take_block, new_block, after_scan}
use aijak.Memory.Heap.Blocks.{
  Block, address_after, fits, none_fits, first_fit, scan_of, scan-first_fit, first_fit-Split, Split,
}
use aijak.Memory.Heap.Malloc.{block, IsHeap, Served, take_block-Served}
use aijak.Memory.Heap.Grow.{new_block-Served, new_block-fatal}

module _ (s : Heap) (size rounds : ℕ) (bs : List Block) (h : IsHeap s bs) (pos : 0 < size)
    (fuel : length bs < rounds) where
  malloc-after_scan :
      malloc rounds s size ≡ after_scan s size (scan_of s.heap_begin (first_fit size bs))
  unfolding malloc
  malloc-after_scan =
      let found =
        scan-first_fit rounds s.mem s.last_alloc size s.heap_begin bs h.holds h.last
          (omega (arith, h.room, h.small)) fuel in
      ground (arith, found)

  -- In a well-formed heap, with a size above 0 and more rounds than blocks,
  -- `malloc` of a size for which the first large enough free block stands behind `pre` hands out
  -- that block, its first `size` bytes zeroed.
  pub malloc-reuse :
      (pre : List Block) (sz : ℕ) (post : List Block)
      → first_fit size bs ≡ fits pre sz post
      → Served s size
          (address_after s.heap_begin pre)
          (size + 8)
          (pre ++ block 1 sz ∷ post)
          (malloc rounds s size)
  malloc-reuse pre sz post e =
      let split : Split size bs (fits pre sz post) =
        subst (λ f. Split size bs f) e (first_fit-Split size bs) in
      let run : malloc rounds s size ≡ take_block s size (address_after s.heap_begin pre) =
        malloc-after_scan ∙ ap (λ f. after_scan s size (scan_of s.heap_begin f)) e in
      subst
        (λ o.
          Served s size (address_after s.heap_begin pre) (size + 8) (pre ++ block 1 sz ∷ post) o)
        (sym run) (take_block-Served s size pre sz post (subst (λ t. IsHeap s t) split.0 h) split.1)

  -- In a well-formed heap, with a size above 0 and more rounds than blocks:
  -- where no free block is large enough and the heap has room, `malloc` puts a new block at its
  -- end.
  pub malloc-grow :
      first_fit size bs ≡ none_fits
      → s.last_alloc + size + 8 < s.heap_end
      → Served s size s.last_alloc (size + 12) (bs ++ block 1 size ∷ []) (malloc rounds s size)
  malloc-grow e fit =
      let run : malloc rounds s size ≡ new_block s size =
        malloc-after_scan ∙ ap (λ f. after_scan s size (scan_of s.heap_begin f)) e in
      subst (λ o. Served s size s.last_alloc (size + 12) (bs ++ block 1 size ∷ []) o) (sym run)
        (new_block-Served s size bs h pos fit)

  -- In a well-formed heap, with a size above 0 and more rounds than blocks:
  -- where no free block is large enough and the heap is full, with no wrap-around of the address,
  -- `malloc` panics.
  pub malloc-full :
      first_fit size bs ≡ none_fits
      → s.heap_end ≤ s.last_alloc + size + 8
      → s.last_alloc + size + 8 < 2 ^ 32
      → malloc rounds s size ≡ fatal
  malloc-full e full fit32 =
      malloc-after_scan
      ∙ ap (λ f. after_scan s size (scan_of s.heap_begin f)) e
      ∙ new_block-fatal s size full fit32
