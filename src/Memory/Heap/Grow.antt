-- ===== src/Memory/Heap/Grow.antt =====
-- src/memory/malloc.c: a new block at the end of the heap (`nalloc`).
use aijak.Common.{ℕ, ◌+◌, ◌^◌, ◌≤◌, ◌<◌, ◌≡◌, refl, inl, arith, ◌∙◌}
use aijak.Common.{List, [], ◌∷◌, ◌++◌, u32}
use aijak.Memory.Bytes.{
  Mem, memset, SameOutside, memset-SameOutside, memset-inside, read32-eq, read32-write32,
  write32-SameOutside,
}
use aijak.Memory.Heap.{Heap, size_of, set_status, set_size, new_block, fatal}
use aijak.Memory.Heap.Blocks.{
  Block, le-address_after, address_after-append, Holds-append, Holds-frame,
}
use aijak.Memory.Heap.Malloc.{block, IsHeap, Served}

module _ (s : Heap) (size : ℕ) where
  abbrev with_header : Mem
  with_header = set_size (set_status s.mem s.last_alloc 1) s.last_alloc size

  abbrev filled : Mem
  filled = memset with_header (s.last_alloc + 8) 0 size

  filled-size : size < 2 ^ 32 → size_of filled s.last_alloc ≡ size
  filled-size h =
      read32-eq with_header filled (s.last_alloc + 4)
        (λ b l r. memset-SameOutside size with_header (s.last_alloc + 8) 0 b (inl (omega arith)))
      ∙ read32-write32 (set_status s.mem s.last_alloc 1) (s.last_alloc + 4) size h

  filled-SameOutside : SameOutside s.last_alloc (s.last_alloc + 8 + size) s.mem filled
  filled-SameOutside b out = ground (
    arith,
    memset-SameOutside size with_header (s.last_alloc + 8) 0 b,
    write32-SameOutside (set_status s.mem s.last_alloc 1) (s.last_alloc + 4) size b,
  )

  filled-status : filled s.last_alloc ≡ 1
  filled-status = ground (
    arith,
    memset-SameOutside size with_header (s.last_alloc + 8) 0 s.last_alloc,
    write32-SameOutside (set_status s.mem s.last_alloc 1) (s.last_alloc + 4) size s.last_alloc,
  )

  abbrev grown : Heap
  grown = record s {
    mem = filled;
    last_alloc = u32 (s.last_alloc + (size + 8 + 4));
    memory_used = u32 (s.memory_used + (size + 8 + 4));
  }

  pub new_block-Served :
      (bs : List Block)
      → IsHeap s bs
      → 0 < size
      → s.last_alloc + size + 8 < s.heap_end
      → Served s size s.last_alloc (size + 12) (bs ++ block 1 size ∷ []) (new_block s size)
  new_block-Served bs h pos fit =
      let sized = filled-size (omega (arith, h.small)) in
      let begins = le-address_after s.heap_begin bs in
      let end = address_after-append s.heap_begin bs (block 1 size ∷ []) in
      record {
        after = grown;
        returns = ground (arith, h.small);
        blocks = record {
          holds =
              Holds-append filled s.heap_begin bs (block 1 size ∷ [])
                (Holds-frame s.mem filled s.last_alloc (s.last_alloc + 8 + size) s.heap_begin bs
                  filled-SameOutside (inl (omega (arith, h.last))) h.holds)
                (rw h.last (filled-status, sized, pos, tt));
          last = omega (arith, h.last, h.small);
          room = omega (arith, h.small);
          small = h.small;
        };
        zeroed = λ b l r. memset-inside size with_header (s.last_alloc + 8) 0 b l r;
        frame = filled-SameOutside;
        low = omega (arith, h.last);
        high = omega arith;
        begin_kept = refl;
        end_kept = refl;
        pages_kept = (refl, refl);
        counted = omega arith;
      }

  pub new_block-fatal :
      s.heap_end ≤ s.last_alloc + size + 8
      → s.last_alloc + size + 8 < 2 ^ 32
      → new_block s size ≡ fatal
  new_block-fatal full fit32 = ground arith
