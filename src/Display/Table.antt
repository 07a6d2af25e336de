-- ===== src/Display/Table.antt =====
-- src/display/display.c: the table of displays and the current one; the text driver of
-- src/display/textmode/dispi_textmode.c as an entry of it.
use aijak.Common.{
  ℕ, ◌+◌, ◌*◌, ◌<◌, ◌≡◌, ◌≢◌, refl, ap, ◌∙◌, arith, Option, none, some, List, get_elem?, length,
  set, ◌==◌, ltb, if◌then◌else◌, u8, u16, bit_and, ◌>>>◌, get_elem?-set_self, first_branch,
  second_branch, lt→ltb,
}
use aijak.Str.{◌>>=◌}
use aijak.Str.Number.{codes}
use aijak.Ports.{Hardware, outportb}
use aijak.Display.{Console, textmode_clear, textmode_puts, textmode_putc}

-- The methods of a `DISPLAY`, on the console.
pub record Display : Type 0 where
  pub on_register : Console → Console
  pub on_set : ℕ → Console → Console
  pub puts : List ℕ → Console → Console
  pub putc : ℕ → Console → Console
  pub clear : Console → Console

-- The globals, with a null pointer as `none`.
pub record Displays : Type 0 where
  pub dispis : List (Option Display)
  pub last_register : ℕ
  pub current : ℕ
  pub cd : Option Display
  pub console : Console

-- The display afterwards, and the number it has; `none` is a store behind the table.
unfoldable pub display_register : Displays → Display → Option (ℕ × Displays)
display_register t d =
    if ltb t.last_register (length t.dispis)
    then some (
      t.last_register,
      record t {
        dispis = set t.dispis t.last_register (some d);
        last_register = u8 (t.last_register + 1);
        console = d.on_register t.console;
      },
    )
    else none

-- `dispis[current]->onSet(id); cd = dispis[current]`; `none` is a read behind the table or a call
-- through a null pointer.
abbrev pub set_to : Displays → ℕ → Option (Option Display) → Option (ℕ × Displays)
set_to t id none = none
set_to t id (some none) = none
set_to t id (some (some d)) =
    some (1, record t { current = id; cd = some d; console = d.on_set id t.console })

unfoldable pub display_set_current : Displays → ℕ → Option (ℕ × Displays)
display_set_current t id =
    if t.current == id then some (0, t) else set_to t id (get_elem? t.dispis id)

unfoldable pub display_get_current : Displays → Option Display
display_get_current t = t.cd

unfoldable pub display_clear : Displays → Option Displays
display_clear t = do d ← t.cd; some (record t { console = d.clear t.console })

-- `__texmode_onSet`; the number is a character.
unfoldable pub textmode_on_set : ℕ → Console → Console
unfolding textmode_clear textmode_puts textmode_putc
textmode_on_set id d =
    let greeting =
      textmode_puts (textmode_clear d) (codes "Textmode driver initialized as display ") in
    textmode_putc (textmode_putc greeting (u8 (id + 48))) 10

unfoldable pub textmode_display : Display
unfolding textmode_on_set textmode_puts textmode_putc textmode_clear
textmode_display = record {
  on_register = λ d. d;
  on_set = textmode_on_set;
  puts = λ s d. textmode_puts d s;
  putc = λ c d. textmode_putc d c;
  clear = textmode_clear;
}

module _ (hw : Hardware) where
  -- The position has 16 bits.
  unfoldable pub set_cursor : hw.Device → ℕ → ℕ → hw.Device
  set_cursor dev row col =
      let pos = u16 (row * 80 + col) in
      let d1 = outportb hw dev 0x3d4 0x0f in
      let d2 = outportb hw d1 0x3d5 (bit_and pos 0xff) in
      let d3 = outportb hw d2 0x3d4 0x0e in outportb hw d3 0x3d5 (bit_and (pos >>> 8) 0xff)

  unfoldable pub textmode_init : hw.Device → Console → hw.Device × Console
  unfolding set_cursor
  textmode_init dev d =
      (set_cursor dev 0xff 0xff, record d { cx = 0; cy = 0; fgcol = 15; bgcol = 0 })

-- A display that is added to a table with room for it, and is made the current one, is the one
-- that `display_get_current` returns and that `display_clear` clears; its number is the one it got,
-- and its methods have run in this order.
pub display_set_current-display_register :
    (t : Displays) (d : Display)
    → t.last_register < length t.dispis
    → t.current ≢ t.last_register
    → (t1 : Displays) × (t2 : Displays) × (display_register t d ≡ some (t.last_register, t1))
      × (display_set_current t1 t.last_register ≡ some (1, t2))
      × (display_get_current t2 ≡ some d)
      × (display_clear t2
          ≡ some (record t2 {
            console = d.clear (d.on_set t.last_register (d.on_register t.console));
          }))
unfolding display_register display_set_current display_get_current display_clear
display_set_current-display_register t d room other =
    let n = t.last_register in
    let t1 : Displays = record t {
      dispis = set t.dispis n (some d);
      last_register = u8 (n + 1);
      console = d.on_register t.console;
    } in
    let there = get_elem?-set_self t.dispis n (some d) room in
    (
      t1,
      record t1 { current = n; cd = some d; console = d.on_set n t1.console },
      first_branch (ltb n (length t.dispis)) _ _ (lt→ltb n (length t.dispis) room),
      second_branch (t.current == n) _ _ (ground (arith, other)) ∙ ap (set_to t1 n) there,
      refl,
      refl,
    )
