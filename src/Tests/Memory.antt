-- ===== src/Tests/Memory.antt =====
-- Small heaps, for the theorems on src/memory.
use aijak.Common.{some, ◌≡◌, refl, List, [], ◌∷◌, arith, ◌==◌, if◌then◌else◌}
use aijak.Memory.Bytes.{Mem, read32}
use aijak.Memory.Heap.{Heap, fatal, malloc, free}
use aijak.Memory.Heap.Blocks.{Block, first_fit}
use aijak.Memory.Heap.Malloc.{block, IsHeap, Served}
use aijak.Memory.Heap.Laws.{malloc-reuse, malloc-grow, malloc-full}
use aijak.Memory.Heap.Release.{Freed, free-Freed, malloc-free}
use aijak.Memory.Paging.{paging_init}
use aijak.Memory.Paging.Identity.{translate, translate-paging_init}

-- A heap that begins at 4096 with a free block of 32 bytes and one of 16 in use.
abbrev memory : Mem
memory a = if a == 4100 then 32 else (if a == 4140 then 1 else (if a == 4144 then 16 else 0))

abbrev heap : Heap
heap = record {
  mem = memory;
  last_alloc = 4168;
  heap_end = 8192;
  heap_begin = 4096;
  pheap_begin = 8192;
  pheap_end = 139264;
  pheap_desc = 4104;
  memory_used = 24;
}

abbrev two_blocks : List Block
two_blocks = block 0 32 ∷ block 1 16 ∷ []

heap-IsHeap : IsHeap heap two_blocks
unfolding read32
heap-IsHeap = record {
  holds = ground arith;
  last = refl;
  room = ground arith;
  small = ground arith;
}

malloc-reuse_example : Served heap 20 4096 28 (block 1 32 ∷ block 1 16 ∷ []) (malloc 3 heap 20)
unfolding first_fit
malloc-reuse_example =
    malloc-reuse heap 20 3 two_blocks heap-IsHeap (omega arith) (omega arith) [] 32
      (block 1 16 ∷ []) refl

malloc-grow_example :
    Served heap 64 4168 76 (block 0 32 ∷ block 1 16 ∷ block 1 64 ∷ []) (malloc 3 heap 64)
unfolding first_fit
malloc-grow_example =
    malloc-grow heap 64 3 two_blocks heap-IsHeap (omega arith) (omega arith) refl (omega arith)

malloc-full_example : malloc 3 heap 5000 ≡ fatal
unfolding first_fit
malloc-full_example =
    malloc-full heap 5000 3 two_blocks heap-IsHeap (omega arith) (omega arith) refl (omega arith)
      (omega arith)

free-Freed_example : Freed heap 4140 16 (block 0 32 ∷ block 0 16 ∷ []) (free heap 4148)
free-Freed_example = free-Freed heap (block 0 32 ∷ []) 1 16 [] heap-IsHeap

malloc-free_example :
    Served (free heap 4104) 8 4096 16 (block 1 32 ∷ block 1 16 ∷ []) (malloc 3 (free heap 4104) 8)
unfolding free first_fit
malloc-free_example =
    malloc-free heap [] 0 32 (block 1 16 ∷ []) heap-IsHeap 8 3 (omega arith) (omega arith) refl
      (omega arith)

-- A block of 40 bytes at the end.
forty : Served heap 40 4168 52 (block 0 32 ∷ block 1 16 ∷ block 1 40 ∷ []) (malloc 3 heap 40)
unfolding first_fit
forty = malloc-grow heap 40 3 two_blocks heap-IsHeap (omega arith) (omega arith) refl (omega arith)

-- An address of the device memory, with the tables made in empty memory.
translate-paging_init_example :
    translate (paging_init (λ a. 0)).mem 0x400000 0xFEBC1234 ≡ some 0xFEBC1234
translate-paging_init_example = translate-paging_init (λ a. 0) 0xFEBC1234 (omega arith)
