-- ===== src/Memory/Heap/Malloc.antt =====
-- src/memory/malloc.c: what `malloc` and `free` do to the blocks of the heap.
use aijak.Common.{ℕ, ◌+◌, ◌-◌, ◌%◌, ◌^◌, ◌≤◌, ◌<◌, ◌≡◌, refl, sym, inl, inr, arith}
use aijak.Common.{List, [], ◌∷◌, ◌++◌, ◌∙◌, u32}
use aijak.Memory.Bytes.{Mem, memset, SameOutside, memset-SameOutside, memset-inside, read32-eq}
use aijak.Memory.Heap.{Heap, size_of, set_status, Outcome, pointer, take_block}
use aijak.Memory.Heap.Blocks.{
  Block, address_after, Holds, le-address_after, address_after-append, Holds-append, Holds-split,
  Holds-frame,
}

abbrev pub block : ℕ → ℕ → Block
block st sz = record { status = st; size = sz }

-- The heap is the blocks, from its beginning to `last_alloc`.
pub record IsHeap (s : Heap) (bs : List Block) : Type 0 where
  pub holds : Holds s.mem s.heap_begin bs
  pub last : address_after s.heap_begin bs ≡ s.last_alloc
  pub room : s.last_alloc < s.heap_end + 4
  pub small : s.heap_end < 2 ^ 32 - 16

-- A pointer to `size` zeroed bytes behind the header at `p`, inside the heap; nothing else in
-- memory changed, and the blocks are now `bs`.
pub record Served (s : Heap) (size p used : ℕ) (bs : List Block) (o : Outcome) : Type 0 where
  pub after : Heap
  pub returns : o ≡ pointer (p + 8) after
  pub blocks : IsHeap after bs
  pub zeroed : (b : ℕ) → p + 8 ≤ b → b < p + 8 + size → after.mem b ≡ 0
  pub frame : SameOutside p (p + 8 + size) s.mem after.mem
  pub low : s.heap_begin ≤ p
  pub high : p + 8 + size < s.heap_end
  pub begin_kept : after.heap_begin ≡ s.heap_begin
  pub end_kept : after.heap_end ≡ s.heap_end
  pub pages_kept : (after.pheap_begin ≡ s.pheap_begin) × (after.pheap_end ≡ s.pheap_end)
  pub counted : after.memory_used ≡ (s.memory_used + used) % 2 ^ 32

-- A block in the middle gets another status, and its payload other bytes.
pub Holds-middle :
    (m m' : Mem) (p st st' sz : ℕ) (pre post : List Block)
    → Holds m p (pre ++ block st sz ∷ post)
    → (size : ℕ) → size ≤ sz
    → SameOutside (address_after p pre) (address_after p pre + 8 + size) m m'
    → m' (address_after p pre) ≡ st'
    → size_of m' (address_after p pre) ≡ size_of m (address_after p pre)
    → Holds m' p (pre ++ block st' sz ∷ post)
Holds-middle m m' p st st' sz pre post h size le same status sized =
    let a = address_after p pre in
    let (l, r) = Holds-split m p pre (block st sz ∷ post) h in
    Holds-append m' p pre (block st' sz ∷ post)
      (Holds-frame m m' a (a + 8 + size) p pre same (inl (omega arith)) l)
      (
        status,
        sized ∙ r.1,
        r.2,
        Holds-frame m m' a (a + 8 + size) (a + (sz + 12)) post same (inr (omega arith)) r.3,
      )

pub address_after-middle :
    (p st st' sz : ℕ) (pre post : List Block)
    → address_after p (pre ++ block st sz ∷ post) ≡ address_after p (pre ++ block st' sz ∷ post)
address_after-middle p st st' sz [] post = refl
address_after-middle p st st' sz (b ∷ pre) post =
    address_after-middle (p + (b.size + 12)) st st' sz pre post

module _ (s : Heap) (size : ℕ) where
  take_block-size :
      (p : ℕ) → size_of (memset (set_status s.mem p 1) (p + 8) 0 size) p ≡ size_of s.mem p
  take_block-size p =
      read32-eq s.mem (memset (set_status s.mem p 1) (p + 8) 0 size) (p + 4)
        (λ b l r. ground (arith, memset-SameOutside size (set_status s.mem p 1) (p + 8) 0 b))

  take_block-SameOutside :
      (p : ℕ) → SameOutside p (p + 8 + size) s.mem (memset (set_status s.mem p 1) (p + 8) 0 size)
  take_block-SameOutside p b out =
      ground (arith, memset-SameOutside size (set_status s.mem p 1) (p + 8) 0 b)

  pub take_block-Served :
      (pre : List Block) (sz : ℕ) (post : List Block)
      → IsHeap s (pre ++ block 0 sz ∷ post)
      → size ≤ sz
      → Served s size
          (address_after s.heap_begin pre)
          (size + 8)
          (pre ++ block 1 sz ∷ post)
          (take_block s size (address_after s.heap_begin pre))
  take_block-Served pre sz post h le =
      let a = address_after s.heap_begin pre in
      let m' = memset (set_status s.mem a 1) (a + 8) 0 size in
      let split = address_after-append s.heap_begin pre (block 0 sz ∷ post) in
      let reach = le-address_after (a + (sz + 12)) post in
      let begins = le-address_after s.heap_begin pre in
      record {
        after = record s { mem = m'; memory_used = u32 (s.memory_used + (size + 8)) };
        returns = refl;
        blocks = record {
          holds =
              Holds-middle s.mem m' s.heap_begin 0 1 sz pre post h.holds size le
                (take_block-SameOutside a)
                (ground (arith, memset-SameOutside size (set_status s.mem a 1) (a + 8) 0 a))
                (take_block-size a);
          last = sym (address_after-middle s.heap_begin 0 1 sz pre post) ∙ h.last;
          room = h.room;
          small = h.small;
        };
        zeroed = λ b l r. memset-inside size (set_status s.mem a 1) (a + 8) 0 b l r;
        frame = take_block-SameOutside a;
        low = begins;
        high = omega (arith, h.last, h.room);
        begin_kept = refl;
        end_kept = refl;
        pages_kept = (refl, refl);
        counted = refl;
      }
