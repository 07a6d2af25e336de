-- ===== src/Display/Laws.antt =====
-- src/display/textmode/dispi_textmode.c: where the cursor stands and what is written.
use aijak.Common.{
  ℕ, ◌+◌, ◌-◌, ◌*◌, ◌^◌, ◌≤◌, ◌<◌, ◌≡◌, refl, ap, ◌∙◌, ◌⊎◌, inl, inr, arith, Bool, true, false,
  List, [], ◌∷◌,
}
use aijak.Common.{◌==◌, if◌then◌else◌, leb, u32, sub32, ◌||◌}
use native.Mathlib.Decide.{ℕ_discrete}
use aijak.Memory.Bytes.{Mem, SameOutside}
use aijak.Display.{
  Console, vga_memory, textmode_scrollup, textmode_putc, textmode_puts, moved, wraps, broken,
  scrolled, put, putc_at, write16, textmode_create_entry, textmode_make_color,
}
use aijak.Display.Scroll.{textmode_scrollup_moves}

-- The cursor is in one of 25 rows, in one of the 80 columns or behind them.
abbrev pub InScreen : Console → Type 0
InScreen d = (d.cx ≤ 80) × (d.cy ≤ 24)

-- `d'` differs from `d` in memory only from the first row to the end of row 28.
abbrev pub Framed : Console → Console → Type 0
Framed d d' = SameOutside vga_memory (vga_memory + 28 * 160) d.mem d'.mem

write16-framed :
    (m : Mem) (y x v : ℕ)
    → x ≤ 80
    → y ≤ 24
    → SameOutside vga_memory
        (vga_memory + 28 * 160)
        m
        (write16 m (vga_memory + (y * 160 + x * 2)) v)
write16-framed m y x v hx hy b out = ground (arith, out)

column_lt : (c cx : ℕ) → (if wraps c cx then 0 else cx) < 80
column_lt c cx = ground arith

row_le :
    (b : Bool) (cy : ℕ)
    → cy ≤ 24
    → let cy' = if b then u32 (cy + 1) else cy in (if leb 25 cy' then cy' - 1 else cy') ≤ 24
row_le true cy h = ground arith
row_le false cy h = ground arith

either_framed :
    (b : Bool) (lo hi : ℕ) (m m' : Mem)
    → SameOutside lo hi m m'
    → SameOutside lo hi m (if b then m' else m)
either_framed true lo hi m m' h = h
either_framed false lo hi m m' h = λ b out. refl

-- Behind the tests on the column and on the row.
placed_cursor :
    (c : ℕ) (d : Console)
    → InScreen d
    → let d' = scrolled (broken c (record d { cx = moved c d.cx })) in
      (d'.cx < 80) × (d'.cy ≤ 24) × Framed d d'
placed_cursor c d h =
    let d1 = broken c (record d { cx = moved c d.cx }) in
    let (_, frame) = textmode_scrollup_moves d1 in
    (
      column_lt c (moved c d.cx),
      row_le (wraps c (moved c d.cx)) d.cy h.1,
      either_framed (leb 25 d1.cy) vga_memory (vga_memory + 28 * 160) d.mem (textmode_scrollup d1)
          frame,
    )

put-InScreen :
    (c : ℕ) (incx : Bool) (d : Console)
    → d.cx < 80
    → d.cy ≤ 24
    → InScreen (put c incx d) × Framed d (put c incx d)
put-InScreen c incx d hx hy = (
  (ground arith, hy),
  write16-framed d.mem d.cy d.cx (textmode_create_entry c (textmode_make_color d.fgcol d.bgcol))
      (omega arith) hy,
)

Good : Console → Console → Type 0
Good d d' = InScreen d' × Framed d d'

choose : (b : Bool) (d x y : Console) → Good d x → Good d y → Good d (if b then x else y)
choose true d x y hx hy = hx
choose false d x y hx hy = hy

putc_at-InScreen : (c : ℕ) (d : Console) → d.cx < 80 → d.cy ≤ 24 → Good d (putc_at c d)
unfolding Good
putc_at-InScreen c d hx hy =
    let same : Good d d = ((omega arith, hy), (λ b out. refl)) in
    choose ((c == 10) || (c == 9)) d d (if c == 13 then put 32 false d else put c true d) same (
      choose (c == 13) d (put 32 false d) (put c true d) (put-InScreen 32 false d hx hy)
        (put-InScreen c true d hx hy))

-- From a cursor in the first 25 rows and at most behind the last column, `textmode_putc` of any
-- character leaves such a cursor, and writes no byte outside 28 rows from the screen's beginning.
pub textmode_putc-InScreen :
    (d : Console) (c : ℕ)
    → InScreen d
    → InScreen (textmode_putc d c)
      × SameOutside vga_memory (vga_memory + 28 * 160) d.mem (textmode_putc d c).mem
unfolding textmode_putc Good
textmode_putc-InScreen d c h =
    let d1 = scrolled (broken c (record d { cx = moved c d.cx })) in
    let (hx, hy, frame) = placed_cursor c d h in
    let (inside, written) = putc_at-InScreen c d1 hx hy in
    choose (c == 0) d d (putc_at c d1) (h, (λ b out. refl))
      (inside, (λ b out. written b out ∙ frame b out))

-- From a cursor in the first 25 rows and at most behind the last column, `textmode_puts` of any
-- string leaves such a cursor, and writes no byte outside 28 rows from the screen's beginning.
pub textmode_puts-InScreen :
    (d : Console) (cs : List ℕ)
    → InScreen d
    → InScreen (textmode_puts d cs)
      × SameOutside vga_memory (vga_memory + 28 * 160) d.mem (textmode_puts d cs).mem
unfolding textmode_puts Good
textmode_puts-InScreen d [] h = (h, (λ b out. refl))
textmode_puts-InScreen d (c ∷ cs) h =
    let (next, written) = textmode_putc-InScreen d c h in
    let (last, more) = textmode_puts-InScreen (textmode_putc d c) cs next in
    choose (c == 0) d d (textmode_puts (textmode_putc d c) cs) (h, (λ b out. refl))
      (last, (λ b out. more b out ∙ written b out))

-- With the cursor in one of the first 24 rows, `'\r'` moves it one column to the left, in the same
-- row; in the first column it moves it to the first column of the next row instead.
pub textmode_putc-backspace :
    (d : Console)
    → d.cx ≤ 80
    → d.cy < 24
    → let d' = textmode_putc d 13 in
      ((0 < d.cx) × (d'.cx + 1 ≡ d.cx) × (d'.cy ≡ d.cy))
      ⊎ ((d.cx ≡ 0) × (d'.cx ≡ 0) × (d'.cy ≡ d.cy + 1))
unfolding textmode_putc
textmode_putc-backspace d hx hy = elim (ℕ_discrete d.cx 0) [
  | yes e ↦
      let left : sub32 d.cx 1 ≡ 2 ^ 32 - 1 = omega (arith, e) in
      let over : wraps 13 (sub32 d.cx 1) ≡ true = ap (wraps 13) left in
      inr (e, ground (arith, over), ground (arith, over))
  | no ne ↦
      let left : sub32 d.cx 1 ≡ d.cx - 1 = omega arith in
      let stays : wraps 13 (sub32 d.cx 1) ≡ false = ap (wraps 13) left ∙ ground arith in
      inl (omega arith, ground (arith, stays, left), ground (arith, stays))
]
