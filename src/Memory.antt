-- ===== src/Memory.antt =====
-- Memory management: include/memory/memory.h, src/memory/malloc.c and src/memory/memutils.c.
pub mod Bytes
pub mod Copy
pub mod Heap
pub mod Pages
pub mod Paging
