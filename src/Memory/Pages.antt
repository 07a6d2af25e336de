-- ===== src/Memory/Pages.antt =====
-- src/memory/malloc.c: `mm_init`, and the heap of whole pages with one descriptor byte for each.
pub mod Laws
use aijak.Common.{ℕ, zero, suc, ◌+◌, ◌-◌, ◌*◌, ◌/◌, ◌^◌, ◌||◌, Option, none, some}
use aijak.Common.{◌==◌, ltb, if◌then◌else◌, u32}
use aijak.Memory.Bytes.{Mem, set_byte, memset}
use aijak.Memory.Heap.{
  Heap, Outcome, null, pointer, fatal, diverged, malloc, max_page_aligned_allocs,
}

-- The loop of `pmalloc` at page `i`: the first page whose descriptor is zero.
pub page_loop : ℕ → Mem → ℕ → ℕ → Option ℕ
page_loop zero m desc i = none
page_loop (suc left) m desc i =
    let rest = page_loop left m desc (i + 1) in if m (desc + i) == 0 then some i else rest

abbrev pub hand_out : Heap → Option ℕ → Outcome
hand_out s none = null s
hand_out s (some i) =
    pointer (u32 (s.pheap_begin + i * 4096))
      (record s { mem = set_byte s.mem (s.pheap_desc + i) 1 })

-- The requested size is not read.
unfoldable pub pmalloc : Heap → ℕ → Outcome
unfolding page_loop
pmalloc s size = hand_out s (page_loop max_page_aligned_allocs s.mem s.pheap_desc 0)

unfoldable pub pfree : Heap → ℕ → Heap
pfree s p =
    if ltb p s.pheap_begin || ltb s.pheap_end p
    then s
    else (let ad = (p - s.pheap_begin) / 4096 in
        record s { mem = set_byte s.mem (s.pheap_desc + ad) 0 })

abbrev pub with_desc : Outcome → Outcome
with_desc (pointer p s) = pointer p (record s { pheap_desc = p })
with_desc (null s) = null (record s { pheap_desc = 0 })
with_desc fatal = fatal
with_desc diverged = diverged

-- The globals before the call, apart from the memory.
abbrev pub initial : Mem → ℕ → Heap
initial m kernel_end =
    let begin = u32 (kernel_end + 0x1000) in
    let pages = 0x400000 - max_page_aligned_allocs * 4096 in
    record {
      mem = memset m begin 0 (pages - begin);
      last_alloc = begin;
      heap_end = pages;
      heap_begin = begin;
      pheap_begin = pages;
      pheap_end = 0x400000;
      pheap_desc = 0;
      memory_used = 0;
    }

-- A single round decides in the empty heap.
unfoldable pub mm_init : Mem → ℕ → Outcome
unfolding malloc
mm_init m kernel_end = with_desc (malloc 1 (initial m kernel_end) max_page_aligned_allocs)
