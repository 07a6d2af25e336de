-- ===== src/Vga/Screen.antt =====
-- src/vga.c: what `VGA_clear_screen` leaves.
use mathlib.Core.Path.{subst}
use native.Mathlib.Decide.{dec_lt}
use aijak.Common.{sym, ap, u32}
use aijak.Common.{ℕ, zero, suc, ◌+◌, ◌*◌, ◌^◌, ◌≤◌, ◌<◌, ◌≡◌, inl, refl, ◌∙◌, arith}
use aijak.Memory.Bytes.{Mem, set_byte, SameOutside}
use aijak.Vga.{column_loop, row_loop, vga_clear_screen}

-- From `lo` to below `hi` all bytes are 0x0f, and the others are those of `m`.
pub record Painted (lo hi : ℕ) (m m' : Mem) : Type 0 where
  pub paint : (b : ℕ) → lo ≤ b → b < hi → m' b ≡ 0x0f
  pub around : SameOutside lo hi m m'

Painted-none : (a : ℕ) (m : Mem) → Painted a a m m
Painted-none a m = record { paint = λ b lo hi. absurd (omega arith); around = λ b out. refl }

Painted-trans :
    (lo mid hi : ℕ) (m m1 m2 : Mem)
    → lo ≤ mid
    → mid ≤ hi
    → Painted lo mid m m1
    → Painted mid hi m1 m2
    → Painted lo hi m m2
Painted-trans lo mid hi m m1 m2 p q h k = record {
  paint = λ b from to. elim (dec_lt b mid) [
    | yes low ↦ k.around b (inl low) ∙ h.paint b from low
    | no high ↦ k.paint b (omega (arith, high)) to
  ];
  around = λ b out. k.around b (ground (arith, out)) ∙ h.around b (ground (arith, out));
}

Painted-byte : (a : ℕ) (m : Mem) → Painted a (a + 1) m (set_byte m a 0x0f)
Painted-byte a m = record {
  paint = λ b from to. ground arith;
  around = λ b out. ground (arith, out);
}

Painted-at :
    (lo lo' hi hi' : ℕ) (m m' : Mem)
    → lo ≡ lo'
    → hi ≡ hi'
    → Painted lo hi m m'
    → Painted lo' hi' m m'
Painted-at lo lo' hi hi' m m' e f h =
    subst (λ (x : ℕ). Painted x hi' m m') e (subst (λ (x : ℕ). Painted lo x m m') f h)

column_loop-Painted :
    (left : ℕ) (m : Mem) (address width y x : ℕ)
    → width * y + x + left ≤ 2 ^ 32
    → Painted
        (address + (width * y + x))
        (address + (width * y + x + left))
        m
        (column_loop left m address width y x)
unfolding column_loop
column_loop-Painted zero m address width y x fit =
    let a : ℕ = address + (width * y + x) in
    Painted-at a a a (address + (width * y + x + 0)) m m refl (omega arith) (Painted-none a m)
column_loop-Painted (suc left) m address width y x fit =
    let a : ℕ = address + (width * y + x) in
    let end : ℕ = address + (width * y + x + suc left) in
    let m1 = set_byte m a 0x0f in
    let run = λ (m' : Mem). column_loop left m' address width y (x + 1) in
    let place : u32 (width * y + x) ≡ width * y + x = omega arith in
    let rest =
      Painted-at (address + (width * y + (x + 1))) (a + 1) (address + (width * y + (x + 1) + left))
        end m1 (run m1) (omega arith) (omega arith)
        (column_loop-Painted left m1 address width y (x + 1) (omega arith)) in
    subst (λ (i : ℕ). Painted a end m (run (set_byte m (address + i) 0x0f))) (sym place)
      (Painted-trans a (a + 1) end m m1 (run m1) (omega arith) (omega arith) (Painted-byte a m)
        rest)

row_loop-Painted :
    (left : ℕ) (m : Mem) (address width y : ℕ)
    → width * (y + left) ≤ 2 ^ 32
    → Painted
        (address + width * y)
        (address + width * (y + left))
        m
        (row_loop left m address width y)
unfolding row_loop
row_loop-Painted zero m address width y fit =
    let a : ℕ = address + width * y in
    let same : y ≡ y + 0 = omega arith in
    Painted-at a a a (address + width * (y + 0)) m m refl (ap (λ (n : ℕ). address + width * n) same)
      (Painted-none a m)
row_loop-Painted (suc left) m address width y fit =
    let next : width * (y + 1) ≡ width * y + width = grind arith in
    let more : width * (y + suc left) ≡ width * (y + 1) + width * left = grind arith in
    let here : width * (y + 1 + left) ≡ width * (y + suc left) = grind arith in
    let m1 = column_loop width m address width y 0 in
    let a : ℕ = address + width * y in
    let mid : ℕ = address + width * (y + 1) in
    let end : ℕ = address + width * (y + suc left) in
    let row =
      Painted-at (address + (width * y + 0)) a (address + (width * y + 0 + width)) mid m m1
        (omega arith) (omega (arith, next))
        (column_loop-Painted width m address width y 0 (omega arith)) in
    let rest =
      Painted-at mid mid (address + width * (y + 1 + left)) end m1
        (row_loop left m1 address width (y + 1)) refl (omega (arith, here))
        (row_loop-Painted left m1 address width (y + 1) (omega (arith, here))) in
    Painted-trans a mid end m m1 (row_loop left m1 address width (y + 1)) (omega arith)
      (omega arith) row rest

-- With at most 2 ^ 32 pixels, `VGA_clear_screen` writes 0x0f to the byte of each pixel, and no other
-- byte.
pub vga_clear_screen-Painted :
    (m : Mem) (address width height : ℕ)
    → width * height ≤ 2 ^ 32
    → Painted address (address + width * height) m (vga_clear_screen m address width height)
unfolding vga_clear_screen
vga_clear_screen-Painted m address width height fit =
    let none_yet : width * 0 ≡ 0 = grind arith in
    let all : 0 + height ≡ height = omega arith in
    Painted-at (address + width * 0) address (address + width * (0 + height))
      (address + width * height) m (row_loop height m address width 0) (omega (arith, none_yet))
      (ap (λ (n : ℕ). address + width * n) all)
      (row_loop-Painted height m address width 0
        (subst (λ (n : ℕ). width * n ≤ 2 ^ 32) (sym all) fit))
