-- ===== src/Ata.antt =====
-- src/drivers/ata.c: the disks behind the ports of the two buses. The rounds of the loops that
-- wait for a drive are a bound that the source does not have.
pub mod Sectors
pub mod Probe
use mathlib.Core.Option
use aijak.Common.{
  ℕ, zero, suc, ◌+◌, ◌*◌, ◌/◌, ◌^◌, Bool, true, false, Option, none, some, List, [], ◌∷◌,
}
use aijak.Common.{◌==◌, if◌then◌else◌, u8, u32, bit_and, bit_or, ◌>>>◌}
use aijak.Memory.Bytes.{Mem, set_byte}
use aijak.Net.Packet.{read16}
use aijak.Ports.{Hardware, outportb, outportw, inportb, inportw}
use aijak.Str.{◌>>=◌}
use aijak.Timer.{Pit, set_task}

abbrev pub ata_primary_io : ℕ
ata_primary_io = 0x1f0

abbrev pub ata_secondary_io : ℕ
ata_secondary_io = 0x170

abbrev pub ata_sr_bsy : ℕ
ata_sr_bsy = 0x80

abbrev pub ata_sr_drq : ℕ
ata_sr_drq = 0x08

abbrev pub ata_sr_err : ℕ
ata_sr_err = 0x01

-- A panic does not return, and `endless` is a wait that the rounds do not finish.
pub data Waited (A : Type 0) : Type 0 where
  returned : A → Waited A
  panicked : Waited A
  endless : Waited A

abbrev pub and_then : {A : Type 0} {B : Type 0} → Waited A → (A → Waited B) → Waited B
and_then (returned a) f = f a
and_then panicked f = panicked
and_then endless f = endless

-- The value of `drive` in `ide_private_data`: bus and position. `none` is an unknown drive.
unfoldable pub drive_of : ℕ → Option (ℕ × ℕ)
drive_of drive =
    if drive == 0
    then some (ata_primary_io, 0)
    else if drive == 1
    then some (ata_primary_io, 1)
    else if drive == 2
    then some (ata_secondary_io, 0)
    else if drive == 3
    then some (ata_secondary_io, 1)
    else none

-- `str[i] = ide_buf[MODEL + i + 1]; str[i + 1] = ide_buf[MODEL + i]`, pair by pair.
unfoldable pub model_loop : ℕ → Mem → ℕ → ℕ → Mem
model_loop zero m str src = m
model_loop (suc pairs) m str src =
    model_loop pairs (let m' = set_byte m str (m (src + 1)) in set_byte m' (str + 1) (m' src))
      (str + 2) (src + 2)

module _ (hw : Hardware) where
  -- The drive, the memory and the timer, which a transfer stops.
  pub record Disk : Type 0 where
    pub device : hw.Device
    pub mem : Mem
    pub pit : Pit

  unfoldable pub ide_select_drive : hw.Device → ℕ → ℕ → hw.Device
  ide_select_drive d bus i =
      if bus == 0
      then outportb hw d (ata_primary_io + 6) (if i == 0 then 0xa0 else 0xb0)
      else outportb hw d (ata_secondary_io + 6) (if i == 0 then 0xa0 else 0xb0)

  unfoldable pub ide_400ns_delay : hw.Device → ℕ → hw.Device
  ide_400ns_delay d io =
      let read = λ (d : hw.Device). (inportb hw d (io + 0x0c)).0 in read (read (read (read d)))

  -- Until BSY is clear.
  unfoldable pub busy_loop : ℕ → hw.Device → ℕ → Waited hw.Device
  busy_loop zero d io = endless
  busy_loop (suc rounds) d io =
      let (d', status) = inportb hw d (io + 7) in
      let again = busy_loop rounds d' io in
      if bit_and status ata_sr_bsy == 0 then returned d' else again

  -- Until DRQ is set, with a panic on ERR.
  unfoldable pub data_loop : ℕ → hw.Device → ℕ → Waited hw.Device
  data_loop zero d io = endless
  data_loop (suc rounds) d io =
      let (d', status) = inportb hw d (io + 7) in
      let again = data_loop rounds d' io in
      if bit_and status ata_sr_err == 0
      then (if bit_and status ata_sr_drq == 0 then again else returned d')
      else panicked

  unfoldable pub ide_poll : ℕ → hw.Device → ℕ → Waited hw.Device
  unfolding ide_400ns_delay busy_loop data_loop
  ide_poll rounds d io =
      and_then (busy_loop rounds (ide_400ns_delay d io) io) (λ d'. data_loop rounds d' io)

  -- `*(uint16 *)p = inportw(io + ATA_REG_DATA)`, for the words that are left.
  unfoldable pub words_in : ℕ → hw.Device → Mem → ℕ → ℕ → hw.Device × Mem
  words_in zero d m io p = (d, m)
  words_in (suc left) d m io p =
      let (d', v) = inportw hw d io in
      words_in left d' (set_byte (set_byte m p (u8 v)) (p + 1) (u8 (v / 2 ^ 8))) io (p + 2)

  unfoldable pub words_out : ℕ → hw.Device → Mem → ℕ → ℕ → hw.Device
  words_out zero d m io p = d
  words_out (suc left) d m io p = words_out left (outportw hw d io (read16 m p)) m io (p + 2)

  -- The registers of a command for one sector, in order; `feature` is written to `io + 1`.
  unfoldable pub send_command : hw.Device → ℕ → ℕ → ℕ → ℕ → ℕ → hw.Device
  send_command d io drive lba feature command =
      let cmd = if drive == 0 then 0xe0 else 0xf0 in
      let d1 = outportb hw d (io + 6) (bit_or cmd (bit_and (lba >>> 24) 0x0f)) in
      let d2 = outportb hw d1 (io + 1) feature in
      let d3 = outportb hw d2 (io + 2) 1 in
      let d4 = outportb hw d3 (io + 3) (u8 lba) in
      let d5 = outportb hw d4 (io + 4) (u8 (lba >>> 8)) in
      let d6 = outportb hw d5 (io + 5) (u8 (lba >>> 16)) in outportb hw d6 (io + 7) command

  -- The transfer behind a command, with the timer stopped around it.
  unfoldable pub transfer_in : Disk → ℕ → ℕ → hw.Device → Disk
  unfolding words_in ide_400ns_delay set_task
  transfer_in s buf io d =
      let (d', m) = words_in 256 d s.mem io buf in
      record { device = ide_400ns_delay d' io; mem = m; pit = set_task (set_task s.pit 0) 1 }

  unfoldable pub transfer_out : Disk → ℕ → ℕ → hw.Device → Disk
  unfolding words_out ide_400ns_delay set_task
  transfer_out s buf io d = record {
    device = ide_400ns_delay (words_out 256 d s.mem io buf) io;
    mem = s.mem;
    pit = set_task (set_task s.pit 0) 1;
  }

  abbrev pub on_drive : (ℕ → ℕ → Waited (ℕ × Disk)) → Disk → Option (ℕ × ℕ) → Waited (ℕ × Disk)
  on_drive f s none = returned (0, s)
  on_drive f s (some (io, drive)) = f io drive

  unfoldable pub ata_read_one : ℕ → Disk → ℕ → ℕ → ℕ → Waited (ℕ × Disk)
  unfolding drive_of send_command ide_poll transfer_in
  ata_read_one rounds s buf lba priv =
      on_drive
        (λ io drive.
          and_then (ide_poll rounds (send_command s.device io drive lba 0x00 0x20) io)
            (λ d. returned (1, transfer_in s buf io d)))
        s (drive_of priv)

  unfoldable pub ata_write_one : ℕ → Disk → ℕ → ℕ → ℕ → Waited (ℕ × Disk)
  unfolding drive_of send_command ide_poll transfer_out
  ata_write_one rounds s buf lba priv =
      on_drive
        (λ io drive.
          and_then (ide_poll rounds (send_command s.device io drive lba 0x13 0x30) io)
            (λ d. returned (1, transfer_out s buf io d)))
        s (drive_of priv)

  -- The loops over the sectors, which drop what a sector returns.
  unfoldable pub ata_read : ℕ → ℕ → Disk → ℕ → ℕ → ℕ → Waited (ℕ × Disk)
  unfolding ata_read_one
  ata_read rounds zero s buf lba priv = returned (1, s)
  ata_read rounds (suc numsects) s buf lba priv =
      and_then (ata_read_one rounds s buf lba priv)
        (λ r. ata_read rounds numsects r.1 (buf + 512) (u32 (lba + 1)) priv)

  unfoldable pub ata_write : ℕ → ℕ → Disk → ℕ → ℕ → ℕ → Waited (ℕ × Disk)
  unfolding ata_write_one
  ata_write rounds zero s buf lba priv = returned (1, s)
  ata_write rounds (suc numsects) s buf lba priv =
      and_then (ata_write_one rounds s buf lba priv)
        (λ r. ata_write rounds numsects r.1 (buf + 512) (u32 (lba + 1)) priv)

  -- The code from `pm_start_read` on: `status` is not read again.
  unfoldable pub start_read : ℕ → Disk → ℕ → ℕ → ℕ → hw.Device → Waited (ℕ × Disk)
  unfolding words_in set_task
  start_read zero s io status ide_buf d = endless
  start_read (suc rounds) s io status ide_buf d =
      let again = start_read rounds s io status ide_buf d in
      let (d', m) = words_in 256 d s.mem io ide_buf in
      if bit_and status ata_sr_err == 0
      then (if bit_and status ata_sr_drq == 0
          then again
          else returned (1, record { device = d'; mem = m; pit = set_task (set_task s.pit 0) 1 }))
      else returned (0, record s { device = d })

  unfoldable pub ide_identify : ℕ → Disk → ℕ → ℕ → ℕ → Waited (ℕ × Disk)
  unfolding ide_select_drive busy_loop start_read
  ide_identify rounds s ide_buf bus drive =
      let io = if bus == 0 then ata_primary_io else ata_secondary_io in
      let d0 = ide_select_drive s.device bus drive in
      let d1 = outportb hw d0 (io + 2) 0 in
      let d2 = outportb hw d1 (io + 3) 0 in
      let d3 = outportb hw d2 (io + 4) 0 in
      let d4 = outportb hw d3 (io + 5) 0 in
      let (d5, status) = inportb hw (outportb hw d4 (io + 7) 0xec) (io + 7) in
      if status == 0
      then returned (0, record s { device = d5 })
      else and_then (busy_loop rounds d5 io) (λ d. start_read rounds s io status ide_buf d)
