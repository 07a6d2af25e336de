-- ===== src/Tests/E1000.antt =====
-- A device without registers and a small ring, for the theorems on src/drivers/intel_e1000.c and
-- src/net/buf.c.
use aijak.Common.{
  ◌++◌, zero, suc, ◌^◌, ◌-◌, ℕ, ◌+◌, ◌*◌, ◌/◌, ◌%◌, ◌<◌, ◌≡◌, ◌≢◌, refl, arith, some, List, [], ◌∷◌,
  ◌==◌, if◌then◌else◌,
}
use aijak.Memory.Heap.{Heap, free}
use aijak.Ports.{Hardware}
use aijak.Net.Packet.{net_buf_start}
use aijak.Net.Buffers.{assign, Pool, alloc_buf, release_buf}
use aijak.Net.Buffers.Laws.{FreeList, alloc_buf-release_buf}
use aijak.E1000.{Dma, Receiver, EthIntelDevice, Driver}
use aijak.E1000.Address.{reads, eerd, read_address, HasRom, read_address-rom}
use aijak.E1000.Send.{send_all, tx_setup}
use aijak.E1000.Send.Laws.{Fills, tx_setup-Fills}

-- The registers keep nothing, and the EEPROM holds the same word everywhere.
abbrev registers : Hardware
registers = record {
  Device = ℕ;
  output = λ d width a v. if a == 0x14 then v else d;
  input = λ d width a. (d, if a == 0x14 then 0x1234 * 65536 + 0x11 else 0);
}

abbrev heap : Heap
heap = record {
  mem = λ a. 0;
  last_alloc = 4096;
  heap_end = 8192;
  heap_begin = 4096;
  pheap_begin = 8192;
  pheap_end = 139264;
  pheap_desc = 4104;
  memory_used = 0;
}

abbrev pool : Pool
pool = record {
  links = record { prev = λ x. 64; next = λ x. 64 };
  free_bufs = 64;
  heap = heap;
  start = λ b. b + 256;
  end = λ b. b + 316;
  ref_count = λ b. 1;
  alloc_count = 32;
}

pool-FreeList : FreeList pool []
pool-FreeList = ground arith

alloc_buf-release_buf_example :
    (p' : Pool) × (alloc_buf 1 (release_buf pool 4096) ≡ some (4096, p'))
    × FreeList p' []
    × (p'.start 4096 ≡ 4096 + net_buf_start)
    × (p'.end 4096 ≡ 4096 + net_buf_start)
    × ((b : ℕ) → p'.ref_count b ≡ pool.ref_count b)
    × ((b : ℕ) → b ≢ 4096 → (p'.start b ≡ pool.start b) × (p'.end b ≡ pool.end b))
    × (p'.alloc_count ≡ pool.alloc_count)
    × (p'.heap ≡ free pool.heap 4096)
alloc_buf-release_buf_example =
    alloc_buf-release_buf 1 pool [] 4096 pool-FreeList (ground arith) refl (omega arith)
      (omega arith)

-- The last descriptor and the first are done, the last with an error.
abbrev device : EthIntelDevice
device = record {
  mmio_addr = 0x1000000;
  rx_read = 31;
  tx_write = 0;
  rx_descs = λ i. record {
    addr = 4096 * (i + 1) + 256;
    len = 60;
    status = if i == 31 then 3 else (if i == 0 then 1 else 0);
    errors = if i == 31 then 1 else 0;
  };
  tx_descs = λ i. record { addr = 0; len = 0; cmd = 0; status = 0 };
  rx_bufs = λ i. 4096 * (i + 1);
  tx_bufs = λ i. 0;
}

-- Protocols that note the packets, and move the start of a packet behind its Ethernet header.
record World : Type 0 where
  pool : Pool
  packets : List (ℕ × ℕ)

abbrev receiver : Receiver
receiver = record {
  World = World;
  pool = λ w. w.pool;
  with_pool = λ w p. record w { pool = p };
  recv = λ w buf. record w {
    pool = record w.pool { start = assign w.pool.start buf (w.pool.start buf + 14) };
    packets = w.packets ++ (buf, w.pool.end buf) ∷ [];
  };
}

abbrev driver : Driver ℕ World
driver = record { device = device; mmio = 0; world = record { pool = pool; packets = [] } }

-- Before the look 1 the device fills the descriptor 1, and then nothing more.
abbrev one_more : Dma
one_more n descs i =
    if n == 1
    then (if i == 1 then record (descs i) { len = 60; status = 1; errors = 0 } else descs i)
    else descs i

-- The EEPROM answers at the third read, with the word in the upper half and the done bit below it.
record Eeprom : Type 0 where
  waits : ℕ

abbrev eeprom : Hardware
eeprom = record {
  Device = Eeprom;
  output = λ d width a v. record { waits = 2 };
  input = λ d width a.
      if a == 0x14
      then (record { waits = d.waits - 1 }, if d.waits == 0 then 0x12340010 else 0x12340001)
      else (d, 0);
}

fits32 : (e : Eeprom) → (if e.waits == 0 then 0x12340010 else 0x12340001) < 2 ^ 32
fits32 e = ground arith

waits_twice : (i : ℕ) → i < 2 → eerd eeprom 0 i (record { waits = 2 }) / 16 % 2 ≡ 0
unfolding reads
waits_twice zero lt = refl
waits_twice (suc zero) lt = refl
waits_twice (suc (suc i)) lt = absurd (omega arith)

eeprom-HasRom : HasRom eeprom 0 (λ addr. 0x1234) 2
unfolding reads
eeprom-HasRom = record {
  rom_small = λ addr. omega arith;
  answers = λ d addr small. record {
    n = 2;
    soon = omega arith;
    clear = waits_twice;
    set_bit = refl;
    data_bits = refl;
    fits = λ i. fits32 (reads eeprom 0 i (record { waits = 2 }));
  };
}

read_address-rom_example :
    (d' : Eeprom) × (read_address eeprom 5 (record { waits = 0 }) 0
      ≡ some (d', 0x1234 % 256 ∷ 0x1234 / 256 ∷ 0 ∷ 0 ∷ 0x1234 % 256 ∷ 0x1234 / 256 ∷ []))
read_address-rom_example =
    read_address-rom eeprom 0 (λ addr. 0x1234) 2 eeprom-HasRom 5 (record { waits = 0 })
      (omega arith) refl

tx_setup-Fills_example :
    Fills registers receiver
      (λ w p. refl)
      (record driver { device = tx_setup device })
      (4096 ∷ 8192 ∷ [])
      (send_all registers receiver (record driver { device = tx_setup device }) (4096 ∷ 8192 ∷ []))
tx_setup-Fills_example =
    tx_setup-Fills registers receiver (λ w p. refl) driver (4096 ∷ 8192 ∷ []) (omega arith)
      (ground arith)

-- At the start no buffer is free, and the heap is empty.
abbrev boot_pool : Pool
boot_pool = record pool { heap = record heap { heap_end = 131072 } }

abbrev booted : EthIntelDevice → Pool → Driver ℕ World
booted d p = record {
  device = record d { rx_read = 0 };
  mmio = 0;
  world = record { pool = p; packets = [] };
}
