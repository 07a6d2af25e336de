-- ===== src/Vga.antt =====
-- src/vga.c: the registers of the graphics mode, and its screen.
pub mod Screen
pub mod Registers
use mathlib.Core.Option
use aijak.Common.{
  ℕ, zero, suc, ◌+◌, ◌-◌, ◌*◌, Option, none, some, List, [], ◌∷◌, bit_and, bit_or, u32, get_elem?,
  set, length, ltb, if◌then◌else◌,
}
use aijak.Str.{◌>>=◌, store?}
use aijak.Memory.Bytes.{Mem, set_byte}
use aijak.Ports.{Hardware, outportb, inportb}

abbrev pub vga_ac_index : ℕ
vga_ac_index = 0x3c0

abbrev pub vga_misc_write : ℕ
vga_misc_write = 0x3c2

abbrev pub vga_seq_index : ℕ
vga_seq_index = 0x3c4

abbrev pub vga_gc_index : ℕ
vga_gc_index = 0x3ce

abbrev pub vga_crtc_index : ℕ
vga_crtc_index = 0x3d4

abbrev pub vga_crtc_data : ℕ
vga_crtc_data = 0x3d5

abbrev pub vga_instat_read : ℕ
vga_instat_read = 0x3da

abbrev pub mode_320_200_256 : List ℕ
mode_320_200_256 =
    0x63 ∷ 0x03 ∷ 0x01 ∷ 0x0f ∷ 0x00 ∷ 0x0e ∷ 0x5f ∷ 0x4f ∷ 0x50 ∷ 0x82 ∷ 0x54 ∷ 0x80 ∷ 0xbf ∷ 0x1f
    ∷ 0x00 ∷ 0x41 ∷ 0x00 ∷ 0x00 ∷ 0x00 ∷ 0x00 ∷ 0x00 ∷ 0x00 ∷ 0x9c ∷ 0x0e ∷ 0x8f ∷ 0x28 ∷ 0x40
    ∷ 0x96 ∷ 0xb9 ∷ 0xa3 ∷ 0xff ∷ 0x00 ∷ 0x00 ∷ 0x00 ∷ 0x00 ∷ 0x00 ∷ 0x40 ∷ 0x05 ∷ 0x0f ∷ 0xff
    ∷ 0x00 ∷ 0x01 ∷ 0x02 ∷ 0x03 ∷ 0x04 ∷ 0x05 ∷ 0x06 ∷ 0x07 ∷ 0x08 ∷ 0x09 ∷ 0x0a ∷ 0x0b ∷ 0x0c
    ∷ 0x0d ∷ 0x0e ∷ 0x0f ∷ 0x41 ∷ 0x00 ∷ 0x0f ∷ 0x00 ∷ 0x00 ∷ []

-- `regs[0x03] |= 0x80; regs[0x11] &= ~0x80;`
unfoldable pub keep_unlocked : List ℕ → Option (List ℕ)
keep_unlocked regs = do
  blank ← get_elem? regs 0x03
  regs1 ← store? regs 0x03 (bit_or blank 0x80)
  retrace ← get_elem? regs1 0x11
  store? regs1 0x11 (bit_and retrace 0x7f)

module _ (hw : Hardware) where
  -- The loops over the registers of a unit, from `i` on; the data port stands behind the index port.
  -- `none` is a read behind the array.
  unfoldable pub unit_loop : ℕ → hw.Device → ℕ → ℕ → List ℕ → Option (hw.Device × List ℕ)
  unit_loop zero d port i regs = some (d, regs)
  unit_loop (suc left) d port i [] = none
  unit_loop (suc left) d port i (r ∷ regs) =
      unit_loop left (outportb hw (outportb hw d port i) (port + 1) r) port (i + 1) regs

  -- The loop over the attribute controller, whose port takes index and data in turn.
  unfoldable pub attribute_loop : ℕ → hw.Device → ℕ → List ℕ → Option (hw.Device × List ℕ)
  attribute_loop zero d i regs = some (d, regs)
  attribute_loop (suc left) d i [] = none
  attribute_loop (suc left) d i (r ∷ regs) =
      let d' = (inportb hw d vga_instat_read).0 in
      attribute_loop left (outportb hw (outportb hw d' vga_ac_index i) vga_ac_index r) (i + 1) regs

  unfoldable pub unlock_crtc : hw.Device → hw.Device
  unlock_crtc d =
      let (d1, blank) = inportb hw (outportb hw d vga_crtc_index 0x03) vga_crtc_data in
      let d2 = outportb hw d1 vga_crtc_data (bit_or blank 0x80) in
      let (d3, retrace) = inportb hw (outportb hw d2 vga_crtc_index 0x11) vga_crtc_data in
      outportb hw d3 vga_crtc_data (bit_and retrace 0x7f)

  unfoldable pub write_registers : hw.Device → List ℕ → Option hw.Device
  unfolding unit_loop attribute_loop unlock_crtc keep_unlocked
  write_registers d [] = none
  write_registers d (misc ∷ regs) = do
    (d1, regs1) ← unit_loop 5 (outportb hw d vga_misc_write misc) vga_seq_index 0 regs
    regs2 ← keep_unlocked regs1
    (d2, regs3) ← unit_loop 25 (unlock_crtc d1) vga_crtc_index 0 regs2
    (d3, regs4) ← unit_loop 9 d2 vga_gc_index 0 regs3
    (d4, regs5) ← attribute_loop 21 d3 0 regs4
    some (outportb hw (inportb hw d4 vga_instat_read).0 vga_ac_index 0x20)

-- The inner loop from `x` on, in the row `y`.
unfoldable pub column_loop : ℕ → Mem → ℕ → ℕ → ℕ → ℕ → Mem
column_loop zero m address width y x = m
column_loop (suc left) m address width y x =
    column_loop left (set_byte m (address + u32 (width * y + x)) 0x0f) address width y (x + 1)

-- The outer loop from `y` on.
unfoldable pub row_loop : ℕ → Mem → ℕ → ℕ → ℕ → Mem
unfolding column_loop
row_loop zero m address width y = m
row_loop (suc left) m address width y =
    row_loop left (column_loop width m address width y 0) address width (y + 1)

unfoldable pub vga_clear_screen : Mem → ℕ → ℕ → ℕ → Mem
unfolding row_loop
vga_clear_screen m address width height = row_loop height m address width 0

-- `vga_init` before its `_kill`.
unfoldable pub vga_init : (hw : Hardware) → hw.Device → Mem → Option (hw.Device × Mem)
unfolding write_registers vga_clear_screen
vga_init hw d m = do
  d' ← write_registers hw d mode_320_200_256
  some (d', vga_clear_screen m 0xa0000 320 200)
