-- ===== src/Tasking/Frame.antt =====
-- src/tasking.c: the stack of a process, and the registers that come back from it.
use mathlib.Core.List.{reverse-cons}
use aijak.Common.{
  ℕ, zero, suc, ◌≡◌, ◌≤◌, ◌<◌, ◌+◌, ◌-◌, ◌*◌, ◌^◌, refl, sym, ap, ap₂, ◌∙◌, arith, inr,
}
use aijak.Common.{◌%◌, ◌==◌, true, some, List, [], ◌∷◌, ◌++◌, length, reverse}
use aijak.Memory.Bytes.{Mem, read32, write32, read32-write32, write32-SameOutside, read32-eq}
use aijak.Tasking.{Kernel, alive}
use aijak.Tasking.Create.{set_up, first_frame}
use aijak.Tasking.Switch.{Registers, pushes, words, popped, restore, saved, save}

abbrev pub Words : List ℕ → Type 0
Words [] = Unit
Words (w ∷ ws) = (w < 2 ^ 32) × Words ws

pushes_pointer :
    (m : Mem) (sp : ℕ) (ws : List ℕ) → 4 * length ws ≤ sp → (pushes m sp ws).1 ≡ sp - 4 * length ws
unfolding pushes
pushes_pointer m sp [] h = omega arith
pushes_pointer m sp (w ∷ ws) h =
    omega (arith, pushes_pointer (write32 m (sp - 4) w) (sp - 4) ws (omega arith))

-- The pushes change nothing from the stack pointer up.
pushes-above :
    (m : Mem) (sp : ℕ) (ws : List ℕ) (b : ℕ)
    → 4 * length ws ≤ sp
    → sp ≤ b
    → (pushes m sp ws).0 b ≡ m b
unfolding pushes
pushes-above m sp [] b h above = refl
pushes-above m sp (w ∷ ws) b h above =
    pushes-above (write32 m (sp - 4) w) (sp - 4) ws b (omega arith) (omega arith)
    ∙ write32-SameOutside m (sp - 4) w b (inr (omega arith))

words-add : (m : Mem) (a k n : ℕ) → words m a (k + n) ≡ words m a k ++ words m (a + 4 * k) n
unfolding words
words-add m a zero n = ap₂ (words m) {x = a} {y = a + 0} (omega arith) (omega arith)
words-add m a (suc k) n =
    let e : suc k + n ≡ suc (k + n) = omega arith in
    let f : a + 4 * suc k ≡ a + 4 + 4 * k = omega arith in
    rw (e, f) (ap (λ t. read32 m a ∷ t) (words-add m (a + 4) k n))

words_one : (m : Mem) (a : ℕ) → words m a 1 ≡ read32 m a ∷ []
unfolding words
words_one m a = refl

-- What was pushed is read from the stack pointer up, the last word first.
pub words-pushes :
    (m : Mem) (sp : ℕ) (ws : List ℕ)
    → Words ws
    → 4 * length ws ≤ sp
    → words (pushes m sp ws).0 (sp - 4 * length ws) (length ws) ≡ reverse ws
unfolding pushes
words-pushes m sp [] fit h = unfold words in refl
words-pushes m sp (w ∷ ws) fit h =
    let n : ℕ = length ws in
    let m1 = write32 m (sp - 4) w in
    let m2 = (pushes m1 (sp - 4) ws).0 in
    let low : ℕ = sp - 4 - 4 * n in
    let first : read32 m2 (sp - 4) ≡ w =
      read32-eq m1 m2 (sp - 4) (λ b lo hi. pushes-above m1 (sp - 4) ws b (omega arith) lo)
      ∙ read32-write32 m (sp - 4) w fit.0 in
    let one : words m2 (low + 4 * n) 1 ≡ w ∷ [] =
      ap (λ (a : ℕ). words m2 a 1) {x = low + 4 * n} {y = sp - 4} (omega arith)
      ∙ words_one m2 (sp - 4)
      ∙ ap (λ (v : ℕ). v ∷ []) first in
    ap₂ (words m2) {x = sp - 4 * suc n} {y = low} (omega arith) (omega arith)
    ∙ words-add m2 low n 1
    ∙ ap (λ t. t ++ words m2 (low + 4 * n) 1) (words-pushes m1 (sp - 4) ws fit.1 (omega arith))
    ∙ ap (λ t. reverse ws ++ t) one
    ∙ sym (reverse-cons w ws)

restore-pushes :
    (m : Mem) (sp : ℕ) (ws : List ℕ)
    → Words ws
    → length ws ≡ 14
    → 56 ≤ sp
    → restore (pushes m sp ws).0 (pushes m sp ws).1 ≡ popped (reverse ws)
unfolding restore
restore-pushes m sp ws fit long h = ap popped (
    ap (λ (a : ℕ). words (pushes m sp ws).0 a 14) (pushes_pointer m sp ws (omega arith))
    ∙ ap (words (pushes m sp ws).0 (sp - 4 * length ws)) (sym long)
    ∙ words-pushes m sp ws fit (omega arith))

-- The registers of a process that begins at `addr` with its stack below `top`.
abbrev pub first_registers : ℕ → ℕ → Registers
first_registers addr top = record {
  gs = 0x10;
  fs = 0x10;
  es = 0x10;
  ds = 0x10;
  ebp = top;
  edi = 0;
  esi = 0;
  edx = 0;
  ecx = 0;
  ebx = 0;
  eax = 0;
  eip = addr;
  cs = 8;
  eflags = 0x202;
}

-- A process with its structure at `p` and its stack of 4096 bytes at `stack` has the next pid, is
-- alive, and the registers that are popped from its stack when it is first scheduled are those of
-- a start at `addr`.
pub set_up-first_registers :
    (k : Kernel) (p stack name addr cr3 : ℕ)
    → addr < 2 ^ 32
    → stack + 4096 < 2 ^ 32
    → let k' = set_up k p stack name addr cr3 in
      ((k'.proc p).pid ≡ (k.lpid + 1) % 2 ^ 32)
      × ((k'.proc p).state ≡ alive)
      × (restore k'.heap.mem (k'.proc p).esp ≡ some (first_registers addr (stack + 4096)))
unfolding set_up
set_up-first_registers k p stack name addr cr3 small room =
    let self : (p == p) ≡ true = ground arith in
    (
      rw self refl,
      rw self refl,
      rw self (
          restore-pushes k.heap.mem (stack + 4096) (first_frame addr (stack + 4096)) (ground arith)
            refl (omega arith)),
    )

abbrev Fit : Registers → Type 0
Fit r = Words (saved 16 r)

-- The registers as they come back, where the frame of `schedule` is at `frame`.
abbrev pub shifted : ℕ → Registers → Registers
shifted frame r = record r {
  ebp = frame;
  edi = r.esi;
  esi = r.edx;
  edx = r.ecx;
  ecx = r.ebx;
  ebx = r.eax;
  eax = r.ebp;
}

-- `schedule`, compiled without optimisation, pushes `ebp` in its prologue and ten registers behind it,
-- and pops eleven. With at least 56 bytes of stack and registers of 32 bits, the process goes on where it was
-- interrupted, with its segments and flags, but each register from `eax` to `esi` comes back in the
-- one that is popped before it, `eax` is the former `ebp`, `ebp` is the address of the frame of
-- `schedule`, and `edi` is lost.
pub restore-save :
    (m : Mem) (sp : ℕ) (r : Registers)
    → Fit r
    → 56 ≤ sp
    → sp < 2 ^ 32
    → restore (save m sp r).0 (save m sp r).1 ≡ some (shifted (sp - 16) r)
unfolding save
restore-save m sp r fit h small = restore-pushes m sp (saved sp r) (ground (arith, fit)) refl h
