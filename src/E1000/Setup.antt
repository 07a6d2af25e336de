-- ===== src/E1000/Setup.antt =====
-- src/drivers/intel_e1000.c: the receive ring behind its setup at the start, with its buffers from
-- the heap.
use aijak.Common.{ℕ, ◌+◌, ◌*◌, ◌<◌, ◌≡◌, false, List, [], ◌==◌, if◌then◌else◌}
use aijak.Memory.Heap.{Heap}
use aijak.Memory.Heap.Blocks.{Block, none_fits, first_fit}
use aijak.Memory.Heap.Malloc.{IsHeap}
use aijak.Net.Packet.{net_buf_start, net_buf_size}
use aijak.Net.Buffers.{Pool}
use aijak.Net.Buffers.Laws.{FreeList}
use aijak.E1000.{RecvDesc, EthIntelDevice, set_desc, is_done}

-- The address of the buffer `j`, where the first block begins at `base`: each takes 2048 bytes, a
-- header of 8 and 4 bytes more.
abbrev pub buffer_at : ℕ → ℕ → ℕ
buffer_at base j = base + 8 + 2060 * j

-- A descriptor that waits for a packet at the start of the buffer `a`.
record Waits (p : Pool) (desc : RecvDesc) (buf a : ℕ) : Type 0 where
  here : buf ≡ a
  paired : desc.addr ≡ a + net_buf_start
  waiting : is_done desc ≡ false
  single : p.ref_count a ≡ 1
  placed : p.start a ≡ a + net_buf_start

-- The first `i` places wait, and the heap has grown by their buffers.
record Filled (d : EthIntelDevice) (p : Pool) (bs : List Block) (base i : ℕ) : Type 0 where
  free_list : FreeList p []
  blocks : IsHeap p.heap bs
  no_fit : first_fit net_buf_size bs ≡ none_fits
  reached : p.heap.last_alloc ≡ base + 2060 * i
  low : p.free_bufs < base
  waits : (j : ℕ) → j < i → Waits p (d.rx_descs j) (d.rx_bufs j) (buffer_at base j)

-- The device with the buffer `buf` in the place `i`.
abbrev with_buf : EthIntelDevice → Pool → ℕ → ℕ → EthIntelDevice
with_buf d p buf i = record d {
  rx_bufs = λ (j : ℕ). if j == i then buf else d.rx_bufs j;
  rx_descs = set_desc d.rx_descs i (record (d.rx_descs i) { addr = p.start buf; status = 0 });
}
