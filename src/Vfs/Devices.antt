-- ===== src/Vfs/Devices.antt =====
-- src/device.c: the table of 64 devices.
use native.Mathlib.Decide.{ℕ_discrete}
use aijak.Common.{ℕ, zero, suc, ◌+◌, ◌≤◌, ◌<◌, ◌≡◌, ◌≢◌, refl, sym, ap, ◌∙◌, arith}
use aijak.Common.{true, false, Option, none, some, ◌==◌, ltb, if◌then◌else◌, u8}

-- The fields of the device's structure, without its functions and its file system.
pub record Device : Type 0 where
  pub name : ℕ
  pub unique_id : ℕ
  pub dev_type : ℕ
  pub priv : ℕ

abbrev pub max_devices : ℕ
max_devices = 64

pub record Table : Type 0 where
  pub devices : ℕ → Device
  pub lastid : ℕ

unfoldable pub device_init : Table → Table
device_init t = record {
  devices = λ i.
      if ltb i max_devices
      then record { name = 0; unique_id = 0; dev_type = 0; priv = 0 }
      else t.devices i;
  lastid = 0;
}

-- The table afterwards, and the result; `none` is a store outside the table.
unfoldable pub device_add : Table → Device → Option (Table × ℕ)
device_add t dev =
    if ltb t.lastid max_devices
    then some (
      record {
        devices = λ i. if i == t.lastid then dev else t.devices i;
        lastid = u8 (t.lastid + 1);
      },
      t.lastid,
    )
    else none

-- The loop of `device_get_by_id` from `i` on, with the indices that are left.
unfoldable pub id_loop : ℕ → Table → ℕ → ℕ → Option ℕ
id_loop zero t id i = none
id_loop (suc left) t id i =
    let rest = id_loop left t id (i + 1) in if (t.devices i).unique_id == id then some i else rest

unfoldable pub device_get_by_id : Table → ℕ → Option ℕ
unfolding id_loop
device_get_by_id t id = id_loop max_devices t id 0

unfoldable pub device_getnumber : Table → ℕ
device_getnumber t = t.lastid

id_loop-first :
    (left : ℕ) (t : Table) (id i k : ℕ)
    → i ≤ k
    → k < i + left
    → (t.devices k).unique_id ≡ id
    → ((j : ℕ) → j < k → (t.devices j).unique_id ≢ id)
    → id_loop left t id i ≡ some k
unfolding id_loop
id_loop-first zero t id i k lo hi e before = absurd (omega arith)
id_loop-first (suc left) t id i k lo hi e before = elim (ℕ_discrete i k) [
  | yes same ↦
      let found : (t.devices i).unique_id ≡ id = ap (λ (j : ℕ). (t.devices j).unique_id) same ∙ e in
      let test : ((t.devices i).unique_id == id) ≡ true = ground (arith, found) in
      rw test (ap some same)
  | no ne ↦
      let miss : ((t.devices i).unique_id == id) ≡ false =
        ground (arith, before i (omega (arith, ne))) in
      rw miss (id_loop-first left t id (i + 1) k (omega (arith, ne)) (omega arith) e before)
]

-- A device added to a table that is not full, with an id that no device before it has, is what
-- `device_get_by_id` finds by that id, and the number of devices grows by one.
pub device_get_by_id-device_add :
    (t : Table) (dev : Device)
    → t.lastid < 64
    → ((j : ℕ) → j < t.lastid → (t.devices j).unique_id ≢ dev.unique_id)
    → (t' : Table) × (device_add t dev ≡ some (t', t.lastid))
      × (device_get_by_id t' dev.unique_id ≡ some t.lastid)
      × (device_getnumber t' ≡ device_getnumber t + 1)
      × (t'.devices t.lastid ≡ dev)
unfolding device_add device_get_by_id device_getnumber
device_get_by_id-device_add t dev room fresh =
    let test : ltb t.lastid 64 ≡ true = ground arith in
    let self : (t.lastid == t.lastid) ≡ true = ground arith in
    let t' : Table = record {
      devices = λ i. if i == t.lastid then dev else t.devices i;
      lastid = u8 (t.lastid + 1);
    } in
    (
      t',
      rw test refl,
      id_loop-first 64 t' dev.unique_id 0 t.lastid (omega arith) (omega arith) (rw self refl)
          (λ j lt e.
            let other : (j == t.lastid) ≡ false = ground arith in
            let kept : t'.devices j ≡ t.devices j = rw other refl in
            fresh j lt (ap (λ (d : Device). d.unique_id) (sym kept) ∙ e)),
      omega arith,
      rw self refl,
    )
