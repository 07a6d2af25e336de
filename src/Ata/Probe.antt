-- ===== src/Ata/Probe.antt =====
-- src/drivers/ata.c: the search for the drives and the device of the one that is found.
use aijak.Common.{
  ℕ, zero, suc, ◌+◌, ◌*◌, ◌≤◌, ◌<◌, ◌≡◌, ◌≢◌, ◌⊎◌, inl, refl, sym, ap, ap₂, ◌∙◌, arith, true,
  Option, none, some, List, [], ◌∷◌, ◌==◌, if◌then◌else◌,
}
use aijak.Memory.Bytes.{Mem, set_byte, SameOutside}
use aijak.Memory.Heap.{Heap, Outcome, null, pointer, fatal, diverged, malloc}
use aijak.Net.Packet.{read_bytes}
use aijak.Net.Packet.Laws.{read_bytes-eq}
use aijak.Ports.{Hardware}
use aijak.Timer.{Pit}
use aijak.Vfs.Devices.{Device, Table, device_add, device_get_by_id, device_get_by_id-device_add}
use aijak.Ata.{Disk, Waited, returned, panicked, endless, drive_of, ide_identify, model_loop}

abbrev pub device_block : ℕ
device_block = 2

abbrev pub ata_ident_model : ℕ
ata_ident_model = 54

-- A panic does not return, `endless` is a wait that the rounds do not finish, and `outside` a store
-- behind the table of devices.
pub data Probed (A : Type 0) : Type 0 where
  done : A → Probed A
  failed : Probed A
  waits : Probed A
  outside : Probed A

-- The heap has the memory. `drive_at` is the drive by the address of an `ide_private_data`.
pub record Drives (D : Type 0) : Type 0 where
  pub device : D
  pub heap : Heap
  pub pit : Pit
  pub table : Table
  pub drive_at : ℕ → ℕ
  pub ide_buf : ℕ
  pub ata_pm : ℕ

abbrev pub when_waited : {A B : Type 0} → Waited A → (A → Probed B) → Probed B
when_waited (returned a) f = f a
when_waited panicked f = failed
when_waited endless f = waits

abbrev pub with_block : {B : Type 0} → Outcome → (ℕ → Heap → Probed B) → Probed B
with_block (null h) f = f 0 h
with_block (pointer p h) f = f p h
with_block fatal f = failed
with_block diverged f = waits

abbrev pub when_added : {A B : Type 0} → Option A → (A → Probed B) → Probed B
when_added none f = outside
when_added (some a) f = f a

-- The device of the drive with its name, and the entry in the table, from the three blocks on.
unfoldable pub with_device : {D : Type 0} → Drives D → (dev priv str : ℕ) → Heap → Probed (Drives D)
unfolding model_loop device_add
with_device s dev priv str h =
    let named : Heap = record h { mem = model_loop 20 h.mem str (s.ide_buf + ata_ident_model) } in
    let entry : Device = record {
      name = str;
      unique_id = 32;
      dev_type = device_block;
      priv = priv;
    } in
    when_added (device_add s.table entry) (λ added. done (record s {
      heap = named;
      table = added.0;
      drive_at = λ p. if p == priv then 0 else s.drive_at p;
      ata_pm = 1;
    }))

module _ (hw : Hardware) where
  abbrev pub disk_of : Drives hw.Device → Disk hw
  disk_of s = record { device = s.device; mem = s.heap.mem; pit = s.pit }

  abbrev pub with_disk : Drives hw.Device → Disk hw → Drives hw.Device
  with_disk s t = record s { device = t.device; heap = record s.heap { mem = t.mem }; pit = t.pit }

  unfoldable pub register_drive : ℕ → Drives hw.Device → Probed (Drives hw.Device)
  unfolding malloc with_device
  register_drive rounds s = with_block (malloc rounds s.heap 28) (λ dev h1.
      with_block (malloc rounds h1 1)
        (λ priv h2. with_block (malloc rounds h2 40) (λ str h3. with_device s dev priv str h3)))

  -- `ide_identify(ATA_PRIMARY, ATA_SLAVE)`, whose result is not used.
  abbrev pub then_slave : ℕ → Drives hw.Device → Probed (Drives hw.Device)
  then_slave tries s =
      when_waited (ide_identify hw tries (disk_of s) s.ide_buf 0 1) (λ r. done (with_disk s r.1))

  abbrev pub after_probe : {A B : Type 0} → Probed A → (A → Probed B) → Probed B
  after_probe (done a) f = f a
  after_probe failed f = failed
  after_probe waits f = waits
  after_probe outside f = outside

  abbrev pub after_master : ℕ → ℕ → Drives hw.Device → ℕ × Disk hw → Probed (Drives hw.Device)
  after_master rounds tries s r =
      let s1 = with_disk s r.1 in
      if r.0 == 0
      then then_slave tries s1
      else after_probe (register_drive rounds s1) (then_slave tries)

  -- `tries` bounds the waits for a drive, `rounds` those of `malloc`.
  unfoldable pub ata_probe : ℕ → ℕ → Drives hw.Device → Probed (Drives hw.Device)
  unfolding ide_identify register_drive
  ata_probe rounds tries s =
      when_waited (ide_identify hw tries (disk_of s) s.ide_buf 0 0) (after_master rounds tries s)

  -- `ata_init` before its `_kill`.
  unfoldable pub ata_init : ℕ → ℕ → Drives hw.Device → Probed (Drives hw.Device)
  unfolding malloc ata_probe
  ata_init rounds tries s =
      with_block (malloc rounds s.heap 512)
        (λ p h. ata_probe rounds tries (record s { heap = h; ide_buf = p }))

-- Each two bytes in the other order.
abbrev pub pairs_swapped : List ℕ → List ℕ
pairs_swapped [] = []
pairs_swapped (x ∷ []) = x ∷ []
pairs_swapped (x ∷ (y ∷ rest)) = y ∷ x ∷ pairs_swapped rest

model_loop-SameOutside :
    (pairs : ℕ) (m : Mem) (str src : ℕ)
    → SameOutside str (str + 2 * pairs) m (model_loop pairs m str src)
unfolding model_loop
model_loop-SameOutside zero m str src b out = refl
model_loop-SameOutside (suc pairs) m str src b out =
    let m' = set_byte m str (m (src + 1)) in
    let m2 = set_byte m' (str + 1) (m' src) in
    let skip : m2 b ≡ m b = ground (arith, out) in
    model_loop-SameOutside pairs m2 (str + 2) (src + 2) b (ground (arith, out)) ∙ skip

-- The name of the device is the model of the drive, where the block of the name and that of the
-- IDENTIFY data are apart.
model_loop-pairs_swapped :
    (pairs : ℕ) (m : Mem) (str src : ℕ)
    → (str + 2 * pairs ≤ src) ⊎ (src + 2 * pairs ≤ str)
    → read_bytes (model_loop pairs m str src) str (2 * pairs)
      ≡ pairs_swapped (read_bytes m src (2 * pairs))
unfolding model_loop read_bytes
model_loop-pairs_swapped zero m str src apart = refl
model_loop-pairs_swapped (suc pairs) m str src apart =
    let m' = set_byte m str (m (src + 1)) in
    let m2 = set_byte m' (str + 1) (m' src) in
    let last = model_loop pairs m2 (str + 2) (src + 2) in
    let same = model_loop-SameOutside pairs m2 (str + 2) (src + 2) in
    let two : 2 * suc pairs ≡ suc (suc (2 * pairs)) = omega arith in
    let first : last str ≡ m (src + 1) = same str (inl (omega arith)) ∙ ground arith in
    let second : last (str + 1) ≡ m src =
      same (str + 1) (inl (omega arith)) ∙ ground (arith, apart) in
    let kept : read_bytes m2 (src + 2) (2 * pairs) ≡ read_bytes m (src + 2) (2 * pairs) =
      read_bytes-eq m m2 (src + 2) (2 * pairs) (λ b from to. ground (arith, apart)) in
    let step : (a : ℕ) → a + 1 + 1 ≡ a + 2 = λ a. omega arith in
    ap (read_bytes last str) two
    ∙ ap₂ ◌∷◌ first (
        ap₂ ◌∷◌ second (
          ap (λ (a : ℕ). read_bytes last a (2 * pairs)) (step str)
          ∙ model_loop-pairs_swapped pairs m2 (str + 2) (src + 2) (omega (arith, apart))
          ∙ ap pairs_swapped kept
          ∙ ap (λ (a : ℕ). pairs_swapped (read_bytes m a (2 * pairs))) (sym (step src))))
    ∙ ap (λ (n : ℕ). pairs_swapped (read_bytes m src n)) (sym two)

chosen_drive :
    (drive_at : ℕ → ℕ) (priv : ℕ)
    → drive_of (if priv == priv then 0 else drive_at priv) ≡ some (0x1f0, 0)
unfolding drive_of
chosen_drive drive_at priv = let same : (priv == priv) ≡ true = ground arith in rw same refl

-- With memory for the three blocks, the one of the name apart from the model in the IDENTIFY data, a
-- table that is not full and no device before with the number 32: the drive is found under this
-- number, its private data lead to the master of the primary bus, and its name is the model with each
-- two characters in the other order.
pub register_drive-Registered :
    (hw : Hardware) (rounds : ℕ) (s : Drives hw.Device) (dev priv str : ℕ) (h1 h2 h3 : Heap)
    → malloc rounds s.heap 28 ≡ pointer dev h1
    → malloc rounds h1 1 ≡ pointer priv h2
    → malloc rounds h2 40 ≡ pointer str h3
    → s.table.lastid < 64
    → ((j : ℕ) → j < s.table.lastid → (s.table.devices j).unique_id ≢ 32)
    → (str + 40 ≤ s.ide_buf + 54) ⊎ (s.ide_buf + 94 ≤ str)
    → (s' : Drives hw.Device) × (register_drive hw rounds s ≡ done s')
      × (device_get_by_id s'.table 32 ≡ some s.table.lastid)
      × (let d = s'.table.devices s.table.lastid in
          (drive_of (s'.drive_at d.priv) ≡ some (0x1f0, 0))
          × (read_bytes s'.heap.mem d.name 40
              ≡ pairs_swapped (read_bytes h3.mem (s.ide_buf + 54) 40)))
unfolding register_drive with_device
register_drive-Registered hw rounds s dev priv str h1 h2 h3 e1 e2 e3 room fresh apart =
    let entry : Device = record { name = str; unique_id = 32; dev_type = 2; priv = priv } in
    let (t', adds, found, more, kept) = device_get_by_id-device_add s.table entry room fresh in
    let named : Heap = record h3 { mem = model_loop 20 h3.mem str (s.ide_buf + 54) } in
    let s' : Drives hw.Device = record s {
      heap = named;
      table = t';
      drive_at = λ p. if p == priv then 0 else s.drive_at p;
      ata_pm = 1;
    } in
    let blocks : register_drive hw rounds s ≡ with_device s dev priv str h3 =
      ap
        (λ o. with_block o (λ d h.
          with_block (malloc rounds h 1)
            (λ p h'. with_block (malloc rounds h' 40) (λ n h''. with_device s d p n h''))))
        e1
      ∙ ap
          (λ o.
            with_block o
              (λ p h. with_block (malloc rounds h 40) (λ n h'. with_device s dev p n h')))
          e2
      ∙ ap (λ o. with_block o (λ n h. with_device s dev priv n h)) e3 in
    (
      s',
      blocks ∙ ap (λ o. when_added o (λ added. done (record s' { table = added.0 }))) adds,
      found,
      (
        ap (λ (d : Device). drive_of (s'.drive_at d.priv)) kept ∙ chosen_drive s.drive_at priv,
        ap (λ (d : Device). read_bytes named.mem d.name 40) kept
            ∙ model_loop-pairs_swapped 20 h3.mem str (s.ide_buf + 54) (omega (arith, apart)),
      ),
    )
