-- ===== src/Memory/Paging/Identity.antt =====
-- src/memory/paging.c: the tables that `paging_init` builds, as the processor reads them.
use native.Mathlib.Decide.{ℕ_discrete}
use mathlib.Core.Path.{subst}
use aijak.Common.{
  ℕ, zero, suc, ◌+◌, ◌*◌, ◌/◌, ◌%◌, ◌^◌, ◌≤◌, ◌<◌, ◌≡◌, refl, sym, ap, ◌∙◌, ◌⊎◌, inl, inr, arith,
}
use aijak.Common.{Option, none, some, ◌&&◌, ◌==◌, if◌then◌else◌, bit_or, u16, u32}
use aijak.Common.Bits.{bit_or-add}
use aijak.Memory.Bytes.{
  Mem, read32, write32, SameOutside, read32-write32, write32-SameOutside, read32-eq,
}
use aijak.Memory.Paging.{
  Paging, table_loop, paging_map_virtual_to_phys, directory_loop, identity_loop, paging_init,
}

-- The translation of a virtual address by the i386: an entry of the directory and one of the table
-- that it points to, both with the bit that says that they are present.
unfoldable pub translate : Mem → ℕ → ℕ → Option ℕ
translate m cr3 virt =
    let pde = read32 m (cr3 + 4 * (virt / 2 ^ 22)) in
    let pte = read32 m (pde / 4096 * 4096 + 4 * (virt / 4096 % 1024)) in
    if (pde % 2 == 1) && (pte % 2 == 1) then some (pte / 4096 * 4096 + virt % 4096) else none

-- A load that a store does not touch.
load_apart :
    (lo hi : ℕ) (m m' : Mem) (a : ℕ)
    → SameOutside lo hi m m'
    → (a + 4 ≤ lo) ⊎ (hi ≤ a)
    → read32 m' a ≡ read32 m a
load_apart lo hi m m' a same out = read32-eq m m' a (λ b from to. same b (ground (arith, out)))

table_loop-SameOutside :
    (left : ℕ) (m : Mem) (t i phys : ℕ)
    → SameOutside (t + 4 * i) (t + 4 * (i + left)) m (table_loop left m t i phys)
unfolding table_loop
table_loop-SameOutside zero m t i phys b out = refl
table_loop-SameOutside (suc left) m t i phys b out =
    let m1 = write32 m (t + 4 * i) (bit_or phys 3) in
    table_loop-SameOutside left m1 t (i + 1) (u32 (phys + 4096)) b (ground (arith, out))
    ∙ write32-SameOutside m (t + 4 * i) (bit_or phys 3) b (ground (arith, out))

-- The address of a page with the two low bits.
present : (q : ℕ) → bit_or (q * 4096) 3 ≡ q * 4096 + 3
present q = bit_or-add 12 q 3 (omega arith)

table_loop_entry :
    (left : ℕ) (m : Mem) (t i q j : ℕ)
    → j < left
    → q + left ≤ 2 ^ 20
    → read32 (table_loop left m t i (q * 4096)) (t + 4 * (i + j)) ≡ (q + j) * 4096 + 3
unfolding table_loop
table_loop_entry zero m t i q j h fit = absurd (omega arith)
table_loop_entry (suc left) m t i q zero h fit =
    let m1 = write32 m (t + 4 * i) (bit_or (q * 4096) 3) in
    let rest = table_loop-SameOutside left m1 t (i + 1) (u32 (q * 4096 + 4096)) in
    let m2 = table_loop left m1 t (i + 1) (u32 (q * 4096 + 4096)) in
    ap (read32 m2) {x = t + 4 * (i + 0)} {y = t + 4 * i} (omega arith)
    ∙ load_apart (t + 4 * (i + 1)) (t + 4 * (i + 1 + left)) m1 m2 (t + 4 * i) rest
        (inl (omega arith))
    ∙ read32-write32 m (t + 4 * i) (bit_or (q * 4096) 3) (omega (arith, present q))
    ∙ omega (arith, present q)
table_loop_entry (suc left) m t i q (suc j) h fit =
    let m1 = write32 m (t + 4 * i) (bit_or (q * 4096) 3) in
    let next : u32 (q * 4096 + 4096) ≡ (q + 1) * 4096 = omega arith in
    let run = λ (p : ℕ). table_loop left m1 t (i + 1) p in
    ap (λ (p : ℕ). read32 (run p) (t + 4 * (i + suc j))) next
    ∙ ap (read32 (run ((q + 1) * 4096))) {x = t + 4 * (i + suc j)} {y = t + 4 * (i + 1 + j)}
        (omega arith)
    ∙ table_loop_entry left m1 t (i + 1) (q + 1) j (omega arith) (omega arith)
    ∙ omega arith

abbrev directory : ℕ
directory = 0x400000

abbrev table : ℕ → ℕ
table n = 0x404000 + 16384 * n

abbrev state : Mem → ℕ → Paging
state m n = record { mem = m; page_directory = directory; last_page = table n }

-- The memory after the tables of one directory entry more.
abbrev filled : Mem → ℕ → Mem
filled m n = table_loop 1024 m (table n) 0 (n * 1024 * 4096)

abbrev step : Mem → ℕ → Mem
step m n = write32 (filled m n) (directory + 4 * n) (table n + 3)

map_state :
    (m : Mem) (n : ℕ)
    → n < 1024
    → paging_map_virtual_to_phys (state m n) (u32 (n * 0x400000)) (u32 (n * 0x400000))
      ≡ state (step m n) (n + 1)
unfolding paging_map_virtual_to_phys
map_state m n h =
    let id : u16 (u32 (n * 0x400000) / 2 ^ 22) ≡ n = omega arith in
    let phys : u32 (n * 0x400000) ≡ n * 1024 * 4096 = omega arith in
    let base : table n ≡ (0x404 + 4 * n) * 4096 = omega arith in
    let flagged : bit_or (table n) 3 ≡ table n + 3 =
      ap (λ (a : ℕ). bit_or a 3) base ∙ present (0x404 + 4 * n) ∙ omega arith in
    let next : table n + 4 * 4096 ≡ table (n + 1) = omega arith in
    let made = λ (i p v l : ℕ). record (state m n) {
      mem = write32 (table_loop 1024 m (table n) 0 p) (directory + 4 * i) v;
      last_page = l;
    } in
    ap (λ (i : ℕ). made i (u32 (n * 0x400000)) (bit_or (table n) 3) (table n + 4 * 4096)) id
    ∙ ap (λ (p : ℕ). made n p (bit_or (table n) 3) (table n + 4 * 4096)) phys
    ∙ ap (λ (v : ℕ). made n (n * 1024 * 4096) v (table n + 4 * 4096)) flagged
    ∙ ap (λ (l : ℕ). made n (n * 1024 * 4096) (table n + 3) l) next

-- The entries of the first `n` parts of the address space.
abbrev Mapped : Mem → ℕ → Type 0
Mapped m n =
    (id j : ℕ)
    → id < n
    → j < 1024
    → (read32 m (directory + 4 * id) ≡ table id + 3)
      × (read32 m (table id + 4 * j) ≡ (id * 1024 + j) * 4096 + 3)

step-Mapped : (m : Mem) (n : ℕ) → n < 1024 → Mapped m n → Mapped (step m n) (n + 1)
step-Mapped m n h before id j lt small =
    let m1 = filled m n in
    let tables = table_loop-SameOutside 1024 m (table n) 0 (n * 1024 * 4096) in
    let entry = write32-SameOutside m1 (directory + 4 * n) (table n + 3) in
    let lo : ℕ = table n + 4 * 0 in
    let hi : ℕ = table n + 4 * (0 + 1024) in
    let dir : ℕ = directory + 4 * n in
    elim (ℕ_discrete id n) [
      | yes same ↦
          subst
            (λ (id : ℕ).
              (read32 (step m n) (directory + 4 * id) ≡ table id + 3)
              × (read32 (step m n) (table id + 4 * j) ≡ (id * 1024 + j) * 4096 + 3))
            (sym same)
            (
              read32-write32 m1 dir (table n + 3) (omega arith),
              load_apart dir (dir + 4) m1 (step m n) (table n + 4 * j) entry (inr (omega arith))
                  ∙ ap (read32 m1) {x = table n + 4 * j} {y = table n + 4 * (0 + j)} (omega arith)
                  ∙ table_loop_entry 1024 m (table n) 0 (n * 1024) j small (omega arith),
            )
      | no other ↦
          let older : id < n = omega (arith, other) in
          let old = before id j older small in
          (
            load_apart dir (dir + 4) m1 (step m n) (directory + 4 * id) entry (inl (omega arith))
                ∙ load_apart lo hi m m1 (directory + 4 * id) tables (inl (omega arith))
                ∙ old.0,
            load_apart dir (dir + 4) m1 (step m n) (table id + 4 * j) entry (inr (omega arith))
                ∙ load_apart lo hi m m1 (table id + 4 * j) tables (inl (omega arith))
                ∙ old.1,
          )
    ]

identity_loop-Mapped :
    (left n : ℕ) (m : Mem)
    → n + left ≡ 1024
    → Mapped m n
    → Mapped ((identity_loop left (state m n) n).mem) 1024
unfolding identity_loop
identity_loop-Mapped zero n m e h = λ id j lt small. h id j (omega arith) small
identity_loop-Mapped (suc left) n m e h =
    let here : n < 1024 = omega arith in
    subst (λ s. Mapped ((identity_loop left s (n + 1)).mem) 1024) (sym (map_state m n here))
      (identity_loop-Mapped left (n + 1) (step m n) (omega arith) (step-Mapped m n here h))

-- Entries with the bit that says that they are present.
both_present :
    (d p virt : ℕ)
    → d % 2 ≡ 1
    → p % 2 ≡ 1
    → p / 4096 * 4096 + virt % 4096 ≡ virt
    → (if (d % 2 == 1) && (p % 2 == 1) then some (p / 4096 * 4096 + virt % 4096) else none)
      ≡ some virt
both_present d p virt hd hp back = rw (hd, hp, back) refl

-- A directory whose entries point to tables that map every page to itself.
translate-Mapped :
    (m : Mem) (virt : ℕ) → virt < 2 ^ 32 → Mapped m 1024 → translate m directory virt ≡ some virt
unfolding translate
translate-Mapped m virt h built =
    let id : ℕ = virt / 2 ^ 22 in
    let j : ℕ = virt / 4096 % 1024 in
    let (pde, pte) = built id j (omega arith) (omega arith) in
    let base : (table id + 3) / 4096 * 4096 ≡ table id = omega arith in
    let read = λ (d p : ℕ).
      if (d % 2 == 1) && (p % 2 == 1) then some (p / 4096 * 4096 + virt % 4096) else none in
    let at = λ (d : ℕ). read d (read32 m (d / 4096 * 4096 + 4 * j)) in
    ap at pde
    ∙ ap (λ (b : ℕ). read (table id + 3) (read32 m (b + 4 * j))) base
    ∙ ap (read (table id + 3)) pte
    ∙ both_present (table id + 3) ((id * 1024 + j) * 4096 + 3) virt (omega arith) (omega arith)
        (omega arith)

-- With the tables that `paging_init` leaves, whatever was in the memory, the processor translates
-- every virtual address of 32 bits to itself.
pub translate-paging_init :
    (m : Mem) (virt : ℕ) → virt < 2 ^ 32 → translate (paging_init m).mem 0x400000 virt ≡ some virt
unfolding paging_init
translate-paging_init m virt h =
    let m0 = directory_loop 1024 m 0x400000 0 in
    translate-Mapped (identity_loop 1024 (state m0 0) 0).mem virt h
      (identity_loop-Mapped 1024 0 m0 refl (λ id j lt small. absurd (omega arith)))
