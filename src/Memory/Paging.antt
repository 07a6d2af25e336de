-- ===== src/Memory/Paging.antt =====
-- src/memory/paging.c: the page directory and the page tables in memory. Loading the control
-- registers is assembly.
pub mod Identity
use aijak.Common.{ℕ, zero, suc, ◌+◌, ◌*◌, bit_or, u16, u32, ◌>>>◌}
use aijak.Memory.Bytes.{Mem, write32}

-- The static variables of the file, and the memory.
pub record Paging : Type 0 where
  pub mem : Mem
  pub page_directory : ℕ
  pub last_page : ℕ

-- The loop of `paging_map_virtual_to_phys` from `i` on, with the entries that are left.
unfoldable pub table_loop : ℕ → Mem → ℕ → ℕ → ℕ → Mem
unfolding write32
table_loop zero m last_page i phys = m
table_loop (suc left) m last_page i phys =
    table_loop left (write32 m (last_page + 4 * i) (bit_or phys 3)) last_page (i + 1)
      (u32 (phys + 4096))

-- `last_page += 4096` counts words of four bytes.
unfoldable pub paging_map_virtual_to_phys : Paging → ℕ → ℕ → Paging
unfolding table_loop write32
paging_map_virtual_to_phys s virt phys =
    let id = u16 (virt >>> 22) in
    let m = table_loop 1024 s.mem s.last_page 0 phys in
    record s {
      mem = write32 m (s.page_directory + 4 * id) (bit_or s.last_page 3);
      last_page = s.last_page + 4 * 4096;
    }

-- `page_directory[i] = 0 | 2`, from `i` on.
unfoldable pub directory_loop : ℕ → Mem → ℕ → ℕ → Mem
unfolding write32
directory_loop zero m page_directory i = m
directory_loop (suc left) m page_directory i =
    directory_loop left (write32 m (page_directory + 4 * i) 2) page_directory (i + 1)

-- The identity map, from `i` on. The product overflows an `int` from 512 on, and wraps around here.
unfoldable pub identity_loop : ℕ → Paging → ℕ → Paging
unfolding paging_map_virtual_to_phys
identity_loop zero s i = s
identity_loop (suc left) s i =
    identity_loop left (paging_map_virtual_to_phys s (u32 (i * 0x400000)) (u32 (i * 0x400000)))
      (i + 1)

-- `paging_init` before `paging_enable`.
unfoldable pub paging_init : Mem → Paging
unfolding directory_loop identity_loop
paging_init m =
    identity_loop 1024
      (record {
        mem = directory_loop 1024 m 0x400000 0;
        page_directory = 0x400000;
        last_page = 0x404000;
      })
      0
