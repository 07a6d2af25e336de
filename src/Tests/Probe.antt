-- ===== src/Tests/Probe.antt =====
-- A drive that is found, for the theorems on src/drivers/ata.c.
use aijak.Common.{◌+◌, ◌≡◌, refl, arith, false, inr, some}
use aijak.Memory.Bytes.{read32, write32}
use aijak.Memory.Heap.{Heap, Outcome, null, pointer, fatal, diverged, malloc}
use aijak.Net.Packet.{read_bytes}
use aijak.Ports.{Hardware}
use aijak.Vfs.Devices.{Table, device_get_by_id}
use aijak.Ata.{drive_of}
use aijak.Ata.Probe.{Drives, done, register_drive, pairs_swapped, register_drive-Registered}

abbrev silent : Hardware
silent = record { Device = Unit; output = λ d width a v. tt; input = λ d width a. (tt, 0) }

-- The IDENTIFY data stand before the heap.
abbrev heap : Heap
heap = record {
  mem = λ a. 0;
  last_alloc = 4096;
  heap_end = 8192;
  heap_begin = 4096;
  pheap_begin = 8192;
  pheap_end = 139264;
  pheap_desc = 4104;
  memory_used = 0;
}

abbrev heap_of : Outcome → Heap
heap_of (null h) = h
heap_of (pointer p h) = h
heap_of fatal = heap
heap_of diverged = heap

abbrev table : Table
table = record {
  devices = λ i. record { name = 0; unique_id = 0; dev_type = 0; priv = 0 };
  lastid = 0;
}

abbrev drives : Drives Unit
drives = record {
  device = tt;
  heap = heap;
  pit = record { task = 0; task_was_on = false; time = 0 };
  table = table;
  drive_at = λ p. 3;
  ide_buf = 1024;
  ata_pm = 0;
}

abbrev after_device : Heap
after_device = heap_of (malloc 3 heap 28)

abbrev after_private : Heap
after_private = heap_of (malloc 3 after_device 1)

register_drive-Registered_example :
    (s' : Drives Unit) × (register_drive silent 3 drives ≡ done s')
    × (device_get_by_id s'.table 32 ≡ some 0)
    × (let d = s'.table.devices 0 in
        (drive_of (s'.drive_at d.priv) ≡ some (0x1f0, 0))
        × (read_bytes s'.heap.mem d.name 40
            ≡ pairs_swapped (read_bytes (heap_of (malloc 3 after_private 40)).mem (1024 + 54) 40)))
unfolding malloc read32 write32
register_drive-Registered_example =
    register_drive-Registered silent 3 drives 4104 4144 4157 after_device after_private
      (heap_of (malloc 3 after_private 40)) refl refl refl (omega arith)
      (λ j lt. absurd (omega arith)) (inr (omega arith))
