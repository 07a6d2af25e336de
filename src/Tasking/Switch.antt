-- ===== src/Tasking/Switch.antt =====
-- src/tasking.c: the registers of a process on its stack.
use aijak.Common.{ℕ, zero, suc, ◌+◌, ◌-◌, Option, none, some, List, [], ◌∷◌}
use aijak.Memory.Bytes.{Mem, read32, write32}

pub record Registers : Type 0 where
  pub gs : ℕ
  pub fs : ℕ
  pub es : ℕ
  pub ds : ℕ
  pub ebp : ℕ
  pub edi : ℕ
  pub esi : ℕ
  pub edx : ℕ
  pub ecx : ℕ
  pub ebx : ℕ
  pub eax : ℕ
  pub eip : ℕ
  pub cs : ℕ
  pub eflags : ℕ

-- The memory and the stack pointer after words were pushed, the first one first.
unfoldable pub pushes : Mem → ℕ → List ℕ → Mem × ℕ
unfolding write32
pushes m sp [] = (m, sp)
pushes m sp (w ∷ ws) = pushes (write32 m (sp - 4) w) (sp - 4) ws

-- The words from the stack pointer up.
unfoldable pub words : Mem → ℕ → ℕ → List ℕ
unfolding read32
words m sp zero = []
words m sp (suc n) = read32 m sp ∷ words m (sp + 4) n

-- The pops at the end of `__exec` and `schedule`, and `iret`.
abbrev pub popped : List ℕ → Option Registers
popped (gs ∷ fs ∷ es ∷ ds ∷ ebp ∷ edi ∷ esi ∷ edx ∷ ecx ∷ ebx ∷ eax ∷ eip ∷ cs ∷ eflags ∷ _) =
    some (record {
      gs = gs;
      fs = fs;
      es = es;
      ds = ds;
      ebp = ebp;
      edi = edi;
      esi = esi;
      edx = edx;
      ecx = ecx;
      ebx = ebx;
      eax = eax;
      eip = eip;
      cs = cs;
      eflags = eflags;
    })
popped _ = none

unfoldable pub restore : Mem → ℕ → Option Registers
unfolding words
restore m sp = popped (words m sp 14)

-- The words that the interrupt at the stack pointer `sp`, the prologue and `schedule` push, in order.
-- The prologue is that of the Makefile's build without optimisation: `push %ebp; mov %esp, %ebp`, so
-- that the `ebp` pushed behind it is the address of the frame.
abbrev pub saved : ℕ → Registers → List ℕ
saved sp r =
    r.eflags
    ∷ r.cs
    ∷ r.eip
    ∷ r.ebp
    ∷ r.eax
    ∷ r.ebx
    ∷ r.ecx
    ∷ r.edx
    ∷ r.esi
    ∷ (sp - 16)
    ∷ r.ds
    ∷ r.es
    ∷ r.fs
    ∷ r.gs
    ∷ []

-- The first half of `schedule`, with the `esp` that it stores.
unfoldable pub save : Mem → ℕ → Registers → Mem × ℕ
unfolding pushes
save m sp r = pushes m sp (saved sp r)
