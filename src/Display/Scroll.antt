-- ===== src/Display/Scroll.antt =====
-- src/display/textmode/dispi_textmode.c: `__textmode_scrollup`.
use aijak.Common.{
  ℕ, zero, suc, ◌+◌, ◌-◌, ◌*◌, ◌/◌, ◌^◌, ◌≤◌, ◌<◌, ◌≡◌, refl, ap, ◌∙◌, ◌⊎◌, inl, inr, arith,
}
use aijak.Common.{u8}
use native.Mathlib.Decide.{dec_lt}
use aijak.Memory.Bytes.{Mem, set_byte, SameOutside}
use aijak.Memory.Copy.{memcpy, memset16, memcpy_copied}
use aijak.Display.{Console, vga_memory, scroll_rows, textmode_scrollup, space_entry}

pub memset16-SameOutside :
    (num : ℕ) (m : Mem) (p v : ℕ) → SameOutside p (p + 2 * num) m (memset16 m p v num)
unfolding memset16
memset16-SameOutside zero m p v b out = refl
memset16-SameOutside (suc num) m p v b out = ground (
  arith,
  memset16-SameOutside num (set_byte (set_byte m p (u8 v)) (p + 1) (u8 (v / 2 ^ 8))) (p + 2) v b,
)

pub scroll_rows-SameOutside :
    (left y : ℕ) (m : Mem)
    → SameOutside (vga_memory + y * 160) (vga_memory + (y + left) * 160) m (scroll_rows left y m)
unfolding scroll_rows
scroll_rows-SameOutside zero y m b out = refl
scroll_rows-SameOutside (suc left) y m b out =
    let m' = memcpy m (vga_memory + y * 160) (vga_memory + (y + 1) * 160) 160 in
    let (_, frame) =
      memcpy_copied m (vga_memory + y * 160) (vga_memory + (y + 1) * 160) 160 (inl (omega arith)) in
    scroll_rows-SameOutside left (y + 1) m' b (ground (arith, out)) ∙ frame b (ground (arith, out))

scroll_rows-copied :
    (left y o : ℕ) (m : Mem)
    → y * 160 ≤ o
    → o < (y + left) * 160
    → scroll_rows left y m (vga_memory + o) ≡ m (vga_memory + o + 160)
unfolding scroll_rows
scroll_rows-copied zero y o m lo hi = absurd (omega arith)
scroll_rows-copied (suc left) y o m lo hi =
    let m' = memcpy m (vga_memory + y * 160) (vga_memory + (y + 1) * 160) 160 in
    let (copied, frame) =
      memcpy_copied m (vga_memory + y * 160) (vga_memory + (y + 1) * 160) 160 (inl (omega arith)) in
    elim (dec_lt o ((y + 1) * 160)) [
      | yes here ↦
          scroll_rows-SameOutside left (y + 1) m' (vga_memory + o) (inl (omega arith))
          ∙ ap m' {x = vga_memory + o} {y = vga_memory + y * 160 + (o - y * 160)} (omega arith)
          ∙ copied (o - y * 160) (omega arith)
          ∙ ap m {x = vga_memory + (y + 1) * 160 + (o - y * 160)} {y = vga_memory + o + 160}
              (omega arith)
      | no later ↦
          scroll_rows-copied left (y + 1) o m' (omega arith) (omega arith)
          ∙ frame (vga_memory + o + 160) (inr (omega arith))
    ]

-- What lies outside a region lies outside a part of it.
pub outside_part :
    {b lo hi lo' hi' : ℕ} → lo' ≤ lo → hi ≤ hi' → (b < lo') ⊎ (hi' ≤ b) → (b < lo) ⊎ (hi ≤ b)
outside_part l h (inl below) = inl (omega arith)
outside_part l h (inr above) = inr (omega arith)

-- Scrolling moves every byte of the 26 rows up by one row, and changes nothing but those rows and
-- the two behind them.
pub textmode_scrollup_moves :
    (d : Console)
    → ((o : ℕ) → o < 26 * 160 → textmode_scrollup d (vga_memory + o) ≡ d.mem (vga_memory + o + 160))
      × SameOutside vga_memory (vga_memory + 28 * 160) d.mem (textmode_scrollup d)
unfolding textmode_scrollup
textmode_scrollup_moves d =
    let moved = scroll_rows 26 0 d.mem in
    let blank = memset16-SameOutside 160 moved (vga_memory + 26 * 160) (space_entry d) in
    (
      (λ o h.
          blank (vga_memory + o) (inl (omega arith))
          ∙ scroll_rows-copied 26 0 o d.mem (omega arith) (omega arith)),
      (λ b out.
          blank b (outside_part (omega arith) (omega arith) out)
          ∙ scroll_rows-SameOutside 26 0 d.mem b
              (outside_part {hi = vga_memory + (0 + 26) * 160} (omega arith) (omega arith) out)),
    )
