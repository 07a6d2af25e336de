-- ===== src/Tests/Drivers.antt =====
-- Small devices, for the theorems on the drivers and the interrupts.
use aijak.Common.{◌*◌, ◌++◌, [], ℕ, ◌+◌, ◌-◌, ◌≡◌, ◌≢◌, refl, ap, some, List, arith, replicate, set}
use aijak.Common.{◌==◌, if◌then◌else◌, true, false}
use aijak.Memory.Bytes.{SameOutside}
use aijak.Net.Packet.{read_bytes}
use aijak.Ports.{Hardware}
use aijak.Pci.{pci_make_id, pci_read8, pci_read16, pci_read32}
use aijak.Pci.Laws.{ConfigSpace, field, replaced, bytes_of, pci_read-field}
use aijak.Ata.{Disk, returned, ide_poll, send_command, ata_read_one, ata_read, drive_of}
use aijak.Ata.Sectors.{given, ata_read_one-given, ata_read-Gives, sector, no_sector}
use aijak.Interrupt.{irq_handler, acknowledged, calls, reads_outside, send_eoi, irq_setroutine}
use aijak.Interrupt.Laws.{irq_handler-routines}

-- A configuration space of double words, with the address that was selected.
record Space : Type 0 where
  address : ℕ
  words : ℕ → ℕ

abbrev space : Hardware
space = record {
  Device = Space;
  output = λ s w port v. if port == 0xcf8 then record s { address = v } else record s {
    words = λ a.
        if a == s.address then replaced (s.words a) (port - 0xcfc) (bytes_of w) v else s.words a;
  };
  input = λ s w port. (s, field (s.words s.address) (port - 0xcfc) (bytes_of w));
}

offset : (k : ℕ) → 0xcfc + k - 0xcfc ≡ k
offset k = omega arith

data_port : (k : ℕ) → (0xcfc + k == 0xcf8) ≡ false
data_port k = ground arith

abbrev space_config : ConfigSpace space
space_config = record {
  selected = λ s. s.address;
  config = λ s a. s.words a;
  Kept = λ a. Unit;
  select_sets = λ s v. refl;
  select_keeps = λ s v a. refl;
  read_field = λ s w k h. ap (λ (j : ℕ). field (s.words s.address) j (bytes_of w)) (offset k);
  read_keeps = λ s w k a. refl;
  write_field = λ s w k v a h kept. rw (data_port k, offset k) refl;
}

abbrev device : Space
device = record { address = 0; words = λ a. if a == 0x8000083c then 0x12345678 else 0 }

pci_read-field_example :
    let id = pci_make_id 0 1 0 in
    ((pci_read8 space device id 0x3d).1 ≡ 0x56)
    × ((pci_read16 space device id 0x3d).1 ≡ 0x5678)
    × ((pci_read32 space device id 0x3d).1 ≡ 0x12345678)
pci_read-field_example =
    pci_read-field space space_config device 0 1 0 0x3d (omega arith) (omega arith) (omega arith)
      (omega arith) (omega arith)

-- A drive that is always ready and gives one word.
abbrev ready : Hardware
ready = record {
  Device = Unit;
  output = λ d w port v. tt;
  input = λ d w port. (tt, if port == 0x1f7 then 0x48 else 0x3412);
}

abbrev disk : Disk ready
disk = record { device = tt; mem = λ a. 0; pit = record { task = 1; task_was_on = true; time = 0 } }

ready_at_once : ide_poll ready 1 (send_command ready tt 0x1f0 0 7 0x00 0x20) 0x1f0 ≡ returned tt
unfolding ide_poll
ready_at_once = refl

first_drive : drive_of 0 ≡ some (0x1f0, 0)
unfolding drive_of
first_drive = refl

ata_read_one-given_example :
    (t : Disk ready) × (ata_read_one ready 1 disk 4096 7 0 ≡ returned (1, t))
    × (read_bytes t.mem 4096 512 ≡ given ready 256 tt 0x1f0)
    × SameOutside 4096 4608 disk.mem t.mem
ata_read_one-given_example =
    ata_read_one-given ready 1 disk 4096 7 0 0x1f0 0 tt first_drive ready_at_once

second_ready : ide_poll ready 1 (send_command ready tt 0x1f0 0 8 0x00 0x20) 0x1f0 ≡ returned tt
unfolding ide_poll
second_ready = refl

ata_read-Gives_example :
    (t : Disk ready) × (ata_read ready 1 2 disk 4096 7 0 ≡ returned (1, t))
    × (read_bytes t.mem 4096 (512 * 2)
        ≡ given ready 256 tt 0x1f0 ++ (given ready 256 tt 0x1f0 ++ []))
    × SameOutside 4096 (4096 + 512 * 2) disk.mem t.mem
ata_read-Gives_example =
    ata_read-Gives ready 1 2 disk 4096 7 0 0x1f0 0
      (given ready 256 tt 0x1f0 ++ (given ready 256 tt 0x1f0 ++ [])) first_drive
      (sector ready_at_once (sector second_ready no_sector))

abbrev routine : ℕ
routine = 0x5000

abbrev no_routines : List ℕ
no_routines = replicate 16 0

stored : irq_setroutine no_routines 1 routine ≡ some (set no_routines 1 routine)
unfolding irq_setroutine
stored = refl

irq_handler-routines_example :
    (routine ≢ 0 → irq_handler ready (set no_routines 1 routine) tt 33 ≡ calls routine)
    × (routine ≡ 0
        → irq_handler ready (set no_routines 1 routine) tt 33 ≡ acknowledged (send_eoi ready tt 1))
    × (irq_handler ready no_routines tt 48 ≡ reads_outside)
irq_handler-routines_example =
    irq_handler-routines ready no_routines (set no_routines 1 routine) tt 1 routine refl
      (omega arith) stored
