-- ===== src/Ata/Sectors.antt =====
-- src/drivers/ata.c: which bytes a transfer writes, and what the drive is told.
use aijak.Common.{ℕ, zero, suc, ◌+◌, ◌*◌, ◌/◌, ◌^◌, ◌<◌, ◌≡◌, refl, ap, ap₂, ◌∙◌, inl, arith}
use aijak.Common.{true, some, none, List, [], ◌∷◌, ◌==◌, ◌++◌, inr}
use aijak.Common.{u8, u32, bit_and}
use aijak.Memory.Bytes.{Mem, set_byte, SameOutside}
use aijak.Net.Packet.{read_bytes}
use aijak.Net.Packet.Laws.{read_bytes-add, read_bytes-eq}
use aijak.Ports.{Hardware, inportw}
use aijak.Ata.{
  ide_400ns_delay, Disk, returned, endless, and_then, drive_of, words_in, ide_poll, send_command,
  transfer_in, ata_read_one, ata_read, start_read, ata_sr_err, ata_sr_drq,
}

drive_of_unknown : (priv : ℕ) → 3 < priv → drive_of priv ≡ none
unfolding drive_of
drive_of_unknown priv h = ground arith

-- What neither the first sector nor the others touch.
outside_both :
    (buf n : ℕ) (m m1 m2 : Mem)
    → SameOutside buf (buf + 512) m m1
    → SameOutside (buf + 512) (buf + 512 + 512 * n) m1 m2
    → SameOutside buf (buf + 512 * suc n) m m2
outside_both buf n m m1 m2 first rest b (inl low) =
    rest b (inl (omega (arith, low))) ∙ first b (inl low)
outside_both buf n m m1 m2 first rest b (inr high) =
    rest b (inr (omega (arith, high))) ∙ first b (inr (omega (arith, high)))

module _ (hw : Hardware) where
  -- The bytes of the next words that the drive gives, the low byte of each first.
  unfoldable pub given : ℕ → hw.Device → ℕ → List ℕ
  given zero d io = []
  given (suc n) d io = let (d', v) = inportw hw d io in u8 v ∷ u8 (v / 2 ^ 8) ∷ given n d' io

  words_in-SameOutside :
      (n : ℕ) (d : hw.Device) (m : Mem) (io p : ℕ)
      → SameOutside p (p + 2 * n) m (words_in hw n d m io p).1
  unfolding words_in
  words_in-SameOutside zero d m io p b out = refl
  words_in-SameOutside (suc n) d m io p b out =
      let (d', v) = inportw hw d io in
      let m' = set_byte (set_byte m p (u8 v)) (p + 1) (u8 (v / 2 ^ 8)) in
      let skip : m' b ≡ m b = ground (arith, out) in
      words_in-SameOutside n d' m' io (p + 2) b (ground (arith, out)) ∙ skip

  words_in-given :
      (n : ℕ) (d : hw.Device) (m : Mem) (io p : ℕ)
      → read_bytes (words_in hw n d m io p).1 p (2 * n) ≡ given n d io
  unfolding words_in given read_bytes
  words_in-given zero d m io p = refl
  words_in-given (suc n) d m io p =
      let (d', v) = inportw hw d io in
      let m' = set_byte (set_byte m p (u8 v)) (p + 1) (u8 (v / 2 ^ 8)) in
      let last = (words_in hw n d' m' io (p + 2)).1 in
      let same = words_in-SameOutside n d' m' io (p + 2) in
      let two : 2 * suc n ≡ suc (suc (2 * n)) = omega arith in
      let first : last p ≡ u8 v = same p (inl (omega arith)) ∙ ground arith in
      let second : last (p + 1) ≡ u8 (v / 2 ^ 8) =
        same (p + 1) (inl (omega arith)) ∙ ground arith in
      ap (read_bytes last p) two
      ∙ ap₂ ◌∷◌ first (
          ap₂ ◌∷◌ second (
            ap (λ (a : ℕ). read_bytes last a (2 * n)) {x = p + 1 + 1} {y = p + 2} (omega arith)
            ∙ words_in-given n d' m' io (p + 2)))

  -- `ata_read_one` from a drive that becomes ready fills the 512 bytes of its buffer with the next
  -- 256 words that the drive gives, and changes no other byte.
  pub ata_read_one-given :
      (rounds : ℕ) (s : Disk hw) (buf lba priv io drive : ℕ) (d : hw.Device)
      → drive_of priv ≡ some (io, drive)
      → ide_poll hw rounds (send_command hw s.device io drive lba 0x00 0x20) io ≡ returned d
      → (t : Disk hw) × (ata_read_one hw rounds s buf lba priv ≡ returned (1, t))
        × (read_bytes t.mem buf 512 ≡ given 256 d io)
        × SameOutside buf (buf + 512) s.mem t.mem
  unfolding ata_read_one transfer_in
  ata_read_one-given rounds s buf lba priv io drive d e ready = (
    transfer_in hw s buf io d,
    rw (e, ready) refl,
    words_in-given 256 d s.mem io buf,
    words_in-SameOutside 256 d s.mem io buf,
  )

  -- The drive after so many words were read.
  unfoldable pub drained : ℕ → hw.Device → ℕ → hw.Device
  drained zero d io = d
  drained (suc n) d io = drained n (inportw hw d io).0 io

  words_in-drained :
      (n : ℕ) (d : hw.Device) (m : Mem) (io p : ℕ) → (words_in hw n d m io p).0 ≡ drained n d io
  unfolding words_in drained
  words_in-drained zero d m io p = refl
  words_in-drained (suc n) d m io p =
      let (d', v) = inportw hw d io in
      words_in-drained n d' (set_byte (set_byte m p (u8 v)) (p + 1) (u8 (v / 2 ^ 8))) io (p + 2)

  -- The drive becomes ready for each of so many sectors from `lba` on, and gives the bytes.
  pub data Gives (rounds io drive : ℕ) : ℕ → ℕ → hw.Device → List ℕ → Type 0 where
    no_sector : {lba : ℕ} {d : hw.Device} → Gives rounds io drive 0 lba d []
    sector :
        {n lba : ℕ} {d d1 : hw.Device} {bytes : List ℕ}
        → ide_poll hw rounds (send_command hw d io drive lba 0x00 0x20) io ≡ returned d1
        → Gives rounds io drive n (u32 (lba + 1)) (ide_400ns_delay hw (drained 256 d1 io) io) bytes
        → Gives rounds io drive (suc n) lba d (given 256 d1 io ++ bytes)

  -- `ata_read_one`, with the state that it leaves the drive in.
  one_sector :
      (rounds : ℕ) (s : Disk hw) (buf lba priv io drive : ℕ) (d : hw.Device)
      → drive_of priv ≡ some (io, drive)
      → ide_poll hw rounds (send_command hw s.device io drive lba 0x00 0x20) io ≡ returned d
      → (t : Disk hw) × (ata_read_one hw rounds s buf lba priv ≡ returned (1, t))
        × (read_bytes t.mem buf 512 ≡ given 256 d io)
        × SameOutside buf (buf + 512) s.mem t.mem
        × (t.device ≡ ide_400ns_delay hw (words_in hw 256 d s.mem io buf).0 io)
  unfolding ata_read_one transfer_in
  one_sector rounds s buf lba priv io drive d e ready = (
    transfer_in hw s buf io d,
    rw (e, ready) refl,
    words_in-given 256 d s.mem io buf,
    words_in-SameOutside 256 d s.mem io buf,
    refl,
  )

  reads_all :
      (rounds io drive priv : ℕ) {n lba : ℕ} {d : hw.Device} {bytes : List ℕ} (s : Disk hw)
      (buf : ℕ)
      → drive_of priv ≡ some (io, drive)
      → Gives rounds io drive n lba d bytes
      → s.device ≡ d
      → (t : Disk hw) × (ata_read hw rounds n s buf lba priv ≡ returned (1, t))
        × (read_bytes t.mem buf (512 * n) ≡ bytes)
        × SameOutside buf (buf + 512 * n) s.mem t.mem
  unfolding ata_read read_bytes
  reads_all rounds io drive priv s buf e no_sector at = (s, refl, refl, λ b out. refl)
  reads_all rounds io drive priv s buf e (sector {n} {lba} {d} {d1} {bytes} ready more) at =
      let there : ide_poll hw rounds (send_command hw s.device io drive lba 0x00 0x20) io
          ≡ returned d1 =
        ap (λ (x : hw.Device). ide_poll hw rounds (send_command hw x io drive lba 0x00 0x20) io) at
        ∙ ready in
      let (t1, first, filled, kept, device) =
        one_sector rounds s buf lba priv io drive d1 e there in
      let moved : t1.device ≡ ide_400ns_delay hw (drained 256 d1 io) io =
        device
        ∙ ap (λ (x : hw.Device). ide_400ns_delay hw x io) (words_in-drained 256 d1 s.mem io buf) in
      let (t, rest, others, apart) = reads_all rounds io drive priv t1 (buf + 512) e more moved in
      let total : 512 * suc n ≡ 512 + 512 * n = omega arith in
      let stays : read_bytes t.mem buf 512 ≡ read_bytes t1.mem buf 512 =
        read_bytes-eq t1.mem t.mem buf 512 (λ b lo hi. apart b (inl hi)) in
      (
        t,
        ap (λ o. and_then o (λ r. ata_read hw rounds n r.1 (buf + 512) (u32 (lba + 1)) priv)) first
            ∙ rest,
        ap (read_bytes t.mem buf) total
            ∙ read_bytes-add t.mem buf 512 (512 * n)
            ∙ ap₂ ◌++◌ (stays ∙ filled) others,
        outside_both buf n s.mem t1.mem t.mem kept apart,
      )

  -- `ata_read` from a drive that becomes ready for each sector returns 1, with the bytes of all
  -- sectors in the buffer one after the other, and changes no byte outside them.
  pub ata_read-Gives :
      (rounds n : ℕ) (s : Disk hw) (buf lba priv io drive : ℕ) (bytes : List ℕ)
      → drive_of priv ≡ some (io, drive)
      → Gives rounds io drive n lba s.device bytes
      → (t : Disk hw) × (ata_read hw rounds n s buf lba priv ≡ returned (1, t))
        × (read_bytes t.mem buf (512 * n) ≡ bytes)
        × SameOutside buf (buf + 512 * n) s.mem t.mem
  ata_read-Gives rounds n s buf lba priv io drive bytes e gives =
      reads_all rounds io drive priv s buf e gives refl

  -- From a drive that the private data does not name, `ata_read` reads nothing and returns 1 as if
  -- it had.
  pub ata_read_unknown :
      (rounds numsects : ℕ) (s : Disk hw) (buf lba priv : ℕ)
      → 3 < priv
      → ata_read hw rounds numsects s buf lba priv ≡ returned (1, s)
  unfolding ata_read ata_read_one drive_of
  ata_read_unknown rounds zero s buf lba priv h = refl
  ata_read_unknown rounds (suc numsects) s buf lba priv h =
      let e : drive_of priv ≡ none = drive_of_unknown priv h in
      rw e (ata_read_unknown rounds numsects s (buf + 512) (u32 (lba + 1)) priv h)

  -- The loop of `ide_identify` behind `pm_start_read` does not end, with any number of rounds,
  -- where the status that was read before it has neither ERR nor DRQ.
  pub start_read-endless :
      (rounds : ℕ) (s : Disk hw) (io status ide_buf : ℕ) (d : hw.Device)
      → bit_and status ata_sr_err ≡ 0
      → bit_and status ata_sr_drq ≡ 0
      → start_read hw rounds s io status ide_buf d ≡ endless
  unfolding start_read
  start_read-endless zero s io status ide_buf d e f = refl
  start_read-endless (suc rounds) s io status ide_buf d e f =
      let a : (bit_and status ata_sr_err == 0) ≡ true = ground (arith, e) in
      let b : (bit_and status ata_sr_drq == 0) ≡ true = ground (arith, f) in
      rw (a, b) (start_read-endless rounds s io status ide_buf d e f)
