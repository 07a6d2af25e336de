-- ===== src/Memory/Heap.antt =====
-- src/memory/malloc.c: the heap of blocks with headers, and the heap of whole pages.
pub mod Blocks
pub mod Malloc
pub mod Grow
pub mod Laws
pub mod Release
use aijak.Common.{ℕ, zero, suc, ◌+◌, ◌-◌, ◌*◌, ◌/◌, ◌%◌, ◌^◌, Bool, true, false, ◌||◌, List, []}
use aijak.Common.{◌==◌, ltb, leb, if◌then◌else◌, u8, u32, sub32}
use aijak.Memory.Bytes.{Mem, set_byte, read32, write32, memset}

abbrev pub max_page_aligned_allocs : ℕ
max_page_aligned_allocs = 32

-- The globals of the file, and the memory.
pub record Heap : Type 0 where
  pub mem : Mem
  pub last_alloc : ℕ
  pub heap_end : ℕ
  pub heap_begin : ℕ
  pub pheap_begin : ℕ
  pub pheap_end : ℕ
  pub pheap_desc : ℕ
  pub memory_used : ℕ

-- `alloc_t`: the status in the first byte, the size in the second word.
abbrev pub sizeof_alloc : ℕ
sizeof_alloc = 8

abbrev pub status_of : Mem → ℕ → ℕ
status_of m a = m a

abbrev pub size_of : Mem → ℕ → ℕ
size_of m a = read32 m (a + 4)

abbrev pub set_status : Mem → ℕ → ℕ → Mem
set_status m a v = set_byte m a v

abbrev pub set_size : Mem → ℕ → ℕ → Mem
set_size m a v = write32 m (a + 4) v

-- How the loop over the blocks ends: at a free block that is large enough, or at `nalloc`.
pub data Scan : Type 0 where
  reuse : ℕ → Scan
  nalloc : Scan
  out_of_fuel : Scan

pub scan : ℕ → Mem → ℕ → ℕ → ℕ → Scan
scan zero m last size p = out_of_fuel
scan (suc rounds) m last size p =
    let rest = scan rounds m last size (u32 (p + (size_of m p + sizeof_alloc + 4))) in
    if ltb p last
    then (if size_of m p == 0
        then nalloc
        else (if status_of m p == 0
            then (if leb size (size_of m p) then reuse p else rest)
            else rest))
    else nalloc

-- `fatal` stands for the panic, which does not return.
pub data Outcome : Type 0 where
  null : Heap → Outcome
  pointer : ℕ → Heap → Outcome
  fatal : Outcome
  diverged : Outcome

abbrev pub take_block : Heap → ℕ → ℕ → Outcome
take_block s size p = pointer (p + sizeof_alloc) (record s {
  mem = memset (set_status s.mem p 1) (p + sizeof_alloc) 0 size;
  memory_used = u32 (s.memory_used + (size + sizeof_alloc));
})

abbrev pub new_block : Heap → ℕ → Outcome
new_block s size =
    if leb s.heap_end (u32 (s.last_alloc + size + sizeof_alloc))
    then fatal
    else (let alloc = s.last_alloc in
        pointer (alloc + sizeof_alloc) (record s {
          mem =
              memset (set_size (set_status s.mem alloc 1) alloc size) (alloc + sizeof_alloc) 0 size;
          last_alloc = u32 (s.last_alloc + (size + sizeof_alloc + 4));
          memory_used = u32 (s.memory_used + (size + sizeof_alloc + 4));
        }))

abbrev pub after_scan : Heap → ℕ → Scan → Outcome
after_scan s size (reuse p) = take_block s size p
after_scan s size nalloc = new_block s size
after_scan s size out_of_fuel = diverged

unfoldable pub malloc : ℕ → Heap → ℕ → Outcome
unfolding scan memset
malloc rounds s size =
    if size == 0
    then null s
    else after_scan s size (scan rounds s.mem s.last_alloc size s.heap_begin)

unfoldable pub free : Heap → ℕ → Heap
unfolding read32
free s p =
    let alloc = p - sizeof_alloc in
    record s {
      memory_used = sub32 s.memory_used (size_of s.mem alloc + sizeof_alloc);
      mem = set_status s.mem alloc 0;
    }
