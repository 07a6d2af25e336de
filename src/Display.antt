-- ===== src/Display.antt =====
-- src/display/textmode/dispi_textmode.c: the text display, as the memory with the screen in it and
-- the console. The ports that move the hardware's cursor are in Display.Table.
pub mod Scroll
pub mod Laws
pub mod Print
pub mod Table
use aijak.Common.{
  ℕ, zero, suc, ◌+◌, ◌-◌, ◌*◌, ◌/◌, ◌%◌, ◌^◌, Bool, true, false, ◌||◌, List, [], ◌∷◌, bit_or,
}
use aijak.Common.{◌==◌, ltb, leb, if◌then◌else◌, u8, u16, u32, sub32, ◌<<<◌}
use aijak.Memory.Bytes.{Mem, set_byte}
use aijak.Memory.Copy.{memcpy, memset16}

abbrev pub vga_memory : ℕ
vga_memory = 0xb8000

abbrev pub textmode_width : ℕ
textmode_width = 80

abbrev pub textmode_height : ℕ
textmode_height = 26

-- `CONSOLE`, with the memory.
pub record Console : Type 0 where
  pub mem : Mem
  pub bgcol : ℕ
  pub fgcol : ℕ
  pub cx : ℕ
  pub cy : ℕ

unfoldable pub textmode_make_color : ℕ → ℕ → ℕ
textmode_make_color fg bg = u8 (bit_or (u8 fg) (u8 bg <<< 4))

-- A `char` is signed, and is extended to 16 bits.
unfoldable pub textmode_create_entry : ℕ → ℕ → ℕ
textmode_create_entry c color = bit_or (if ltb c 128 then c else 0xff00 + c) (u16 (color <<< 8))

-- A store of 16 bits.
abbrev pub write16 : Mem → ℕ → ℕ → Mem
write16 m a v = set_byte (set_byte m a (u8 v)) (a + 1) (u8 (v / 2 ^ 8))

-- `' '` in the colours of the console.
abbrev pub space_entry : Console → ℕ
space_entry d = textmode_create_entry 32 (textmode_make_color d.fgcol d.bgcol)

-- The loop of `__textmode_scrollup` from row `y` on.
unfoldable pub scroll_rows : ℕ → ℕ → Mem → Mem
unfolding memcpy
scroll_rows zero y m = m
scroll_rows (suc left) y m =
    scroll_rows left (y + 1) (memcpy m (vga_memory + y * 160) (vga_memory + (y + 1) * 160) 160)

unfoldable pub textmode_scrollup : Console → Mem
unfolding scroll_rows memset16 textmode_create_entry textmode_make_color
textmode_scrollup d =
    memset16 (scroll_rows textmode_height 0 d.mem) (vga_memory + textmode_height * 160)
      (space_entry d) (textmode_width * 2)

-- The loops of `textmode_clear`, over the columns and over the rows.
unfoldable pub clear_columns : ℕ → ℕ → ℕ → ℕ → Mem → Mem
clear_columns zero y x entry m = m
clear_columns (suc left) y x entry m =
    clear_columns left y (x + 1) entry (write16 m (vga_memory + (y * 160 + x * 2)) entry)

unfoldable pub clear_rows : ℕ → ℕ → ℕ → Mem → Mem
unfolding clear_columns
clear_rows zero y entry m = m
clear_rows (suc left) y entry m =
    clear_rows left (y + 1) entry (clear_columns textmode_width y 0 entry m)

unfoldable pub textmode_clear : Console → Console
unfolding clear_rows textmode_create_entry textmode_make_color
textmode_clear d = record d {
  mem = clear_rows textmode_height 0 (space_entry d) d.mem;
  cx = 0;
  cy = 0;
}

-- The column after the tests for a tab and for `'\r'`.
abbrev pub moved : ℕ → ℕ → ℕ
moved c cx = if c == 9 then u32 (cx + 4) else (if c == 13 then sub32 cx 1 else cx)

-- `if (d.con.cx >= TEXTMODE_WIDTH || c == '\n')`; behind it `c` is no longer `'\r'`.
abbrev pub wraps : ℕ → ℕ → Bool
wraps c cx = leb textmode_width cx || (c == 10)

abbrev pub broken : ℕ → Console → Console
broken c d = record d {
  cx = if wraps c d.cx then 0 else d.cx;
  cy = if wraps c d.cx then u32 (d.cy + 1) else d.cy;
}

-- `if (d.con.cy >= TEXTMODE_HEIGHT - 1)`
abbrev pub scrolled : Console → Console
scrolled d = record d {
  mem = if leb (textmode_height - 1) d.cy then textmode_scrollup d else d.mem;
  cy = if leb (textmode_height - 1) d.cy then d.cy - 1 else d.cy;
}

-- The store of the character, and the step to the right.
abbrev pub put : ℕ → Bool → Console → Console
put c incx d = record d {
  mem =
      write16 d.mem (vga_memory + (d.cy * 160 + d.cx * 2))
        (textmode_create_entry c (textmode_make_color d.fgcol d.bgcol));
  cx = if incx then u32 (d.cx + 1) else d.cx;
}

abbrev pub putc_at : ℕ → Console → Console
putc_at c d =
    if (c == 10) || (c == 9) then d else (if c == 13 then put 32 false d else put c true d)

unfoldable pub textmode_putc : Console → ℕ → Console
unfolding textmode_scrollup
textmode_putc d c =
    if c == 0 then d else putc_at c (scrolled (broken c (record d { cx = moved c d.cx })))

-- The characters before the end of the string.
unfoldable pub textmode_puts : Console → List ℕ → Console
unfolding textmode_putc
textmode_puts d [] = d
textmode_puts d (c ∷ cs) =
    let rest = textmode_puts (textmode_putc d c) cs in if c == 0 then d else rest
