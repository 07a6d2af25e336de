-- ===== src/Tests/Vga.antt =====
-- A small screen and the registers of the mode, for the theorems on src/vga.c.
use aijak.Common.{ℕ, ◌+◌, ◌*◌, arith, ◌≡◌, refl, some, List, [], ◌∷◌}
use aijak.Memory.Bytes.{Mem}
use aijak.Ports.{Hardware}
use aijak.Vga.{vga_clear_screen, write_registers, mode_320_200_256}
use aijak.Vga.Screen.{Painted, vga_clear_screen-Painted}
use aijak.Vga.Registers.{perform, script, write_registers-script}

abbrev empty : Mem
empty a = 0

vga_clear_screen-Painted_example :
    Painted 0xa0000 (0xa0000 + 4 * 3) empty (vga_clear_screen empty 0xa0000 4 3)
vga_clear_screen-Painted_example = vga_clear_screen-Painted empty 0xa0000 4 3 (omega arith)

-- Hardware that keeps what was written, the last write first, and reads 0x8e everywhere.
abbrev log : Hardware
log = record {
  Device = List (ℕ × ℕ);
  output = λ d w port v. (port, v) ∷ d;
  input = λ d w port. (d, 0x8e);
}

abbrev seq : List ℕ
seq = 0x03 ∷ 0x01 ∷ 0x0f ∷ 0x00 ∷ 0x0e ∷ []

abbrev crtc : ℕ → ℕ → List ℕ
crtc blank retrace =
    0x5f ∷ 0x4f ∷ 0x50 ∷ blank ∷ 0x54 ∷ 0x80 ∷ 0xbf ∷ 0x1f ∷ 0x00 ∷ 0x41 ∷ 0x00 ∷ 0x00 ∷ 0x00 ∷ 0x00
    ∷ 0x00 ∷ 0x00 ∷ 0x9c ∷ retrace ∷ 0x8f ∷ 0x28 ∷ 0x40 ∷ 0x96 ∷ 0xb9 ∷ 0xa3 ∷ 0xff ∷ []

abbrev gc : List ℕ
gc = 0x00 ∷ 0x00 ∷ 0x00 ∷ 0x00 ∷ 0x00 ∷ 0x40 ∷ 0x05 ∷ 0x0f ∷ 0xff ∷ []

abbrev ac : List ℕ
ac =
    0x00 ∷ 0x01 ∷ 0x02 ∷ 0x03 ∷ 0x04 ∷ 0x05 ∷ 0x06 ∷ 0x07 ∷ 0x08 ∷ 0x09 ∷ 0x0a ∷ 0x0b ∷ 0x0c ∷ 0x0d
    ∷ 0x0e ∷ 0x0f ∷ 0x41 ∷ 0x00 ∷ 0x0f ∷ 0x00 ∷ 0x00 ∷ []

write_registers-script_example :
    write_registers log [] mode_320_200_256
    ≡ some (perform log [] (script 0x63 seq (crtc 0x82 0x0e) gc ac))
write_registers-script_example =
    write_registers-script log [] 0x63 0x82 0x0e seq (0x5f ∷ 0x4f ∷ 0x50 ∷ [])
      (0x54 ∷ 0x80 ∷ 0xbf ∷ 0x1f ∷ 0x00 ∷ 0x41 ∷ 0x00 ∷ 0x00 ∷ 0x00 ∷ 0x00 ∷ 0x00 ∷ 0x00 ∷ 0x9c
        ∷ [])
      (0x8f ∷ 0x28 ∷ 0x40 ∷ 0x96 ∷ 0xb9 ∷ 0xa3 ∷ 0xff ∷ []) gc ac [] refl refl refl refl refl refl
