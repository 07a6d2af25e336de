-- ===== src/Memory/Pages/Laws.antt =====
-- src/memory/malloc.c: whole pages.
use mathlib.Core.Path.{subst, subst₂, fun_ext}
use aijak.Common.{
  ℕ, zero, suc, ◌+◌, ◌-◌, ◌*◌, ◌/◌, ◌%◌, ◌^◌, ◌≤◌, ◌<◌, ◌≡◌, refl, ◌≢◌, arith, ap, ◌∙◌,
}
use aijak.Common.{Option, none, some, [], ◌∷◌, ◌⊎◌, inl, inr, ◌==◌, ltb, ◌||◌}
use native.Mathlib.Decide.{dec_lt, ℕ_discrete}
use aijak.Common.{false}
use aijak.Memory.Bytes.{Mem, set_byte}
use aijak.Memory.Heap.{Heap, Outcome, null, pointer}
use aijak.Memory.Heap.Blocks.{Fit, first_fit}
use aijak.Memory.Heap.Malloc.{block, IsHeap}
use aijak.Memory.Heap.Laws.{malloc-grow}
use aijak.Memory.Pages.{page_loop, hand_out, pmalloc, pfree, mm_init, initial, with_desc}

-- The answer of the loop is the first page from `i` on whose descriptor is zero.
abbrev First : Mem → ℕ → ℕ → ℕ → Option ℕ → Type 0
First m desc i end none = (j : ℕ) → i ≤ j → j < end → m (desc + j) ≢ 0
First m desc i end (some k) =
    (i ≤ k) × (k < end) × (m (desc + k) ≡ 0) × ((j : ℕ) → i ≤ j → j < k → m (desc + j) ≢ 0)

First-later :
    (m : Mem) (desc i end : ℕ) (o : Option ℕ)
    → m (desc + i) ≢ 0
    → First m desc (i + 1) end o
    → First m desc i end o
First-later m desc i end none used rest = λ j lo hi. elim (dec_lt i j) [
  | yes p ↦ rest j (omega arith) hi
  | no p ↦ let e : j ≡ i = omega arith in rw e used
]
First-later m desc i end (some k) used rest = (
  omega arith,
  rest.1,
  rest.2,
  λ j lo hi. elim (dec_lt i j) [
    | yes p ↦ rest.3 j (omega arith) hi
    | no p ↦ let e : j ≡ i = omega arith in rw e used
  ],
)

page_loop-First :
    (left : ℕ) (m : Mem) (desc i end : ℕ)
    → i + left ≡ end
    → First m desc i end (page_loop left m desc i)
unfolding page_loop
page_loop-First zero m desc i end e = λ j lo hi. absurd (omega arith)
page_loop-First (suc left) m desc i end e = elim (ℕ_discrete (m (desc + i)) 0) [
  | yes free ↦ rw free (omega arith, omega arith, free, (λ j lo hi. absurd (omega arith)))
  | no used ↦
      let test : (m (desc + i) == 0) ≡ false = ground arith in
      rw test (
        First-later m desc i end (page_loop left m desc (i + 1)) used
          (page_loop-First left m desc (i + 1) end (omega arith)))
]

-- The pages lie below `pheap_end`, one for each descriptor.
abbrev pub IsPages : Heap → Type 0
IsPages s = (s.pheap_begin + 32 * 4096 ≡ s.pheap_end) × (s.pheap_end < 2 ^ 32)

abbrev pub IsUsed : Heap → ℕ → Type 0
IsUsed s i = s.mem (s.pheap_desc + i) ≢ 0

abbrev pub Marked : Heap → ℕ → Heap
Marked s i = record s { mem = set_byte s.mem (s.pheap_desc + i) 1 }

-- For 32 pages that end below 2 ^ 32, `pmalloc` hands out the first page that is not in use and
-- marks it, or, when all are in use, returns null and changes nothing.
pub pmalloc_lem :
    (s : Heap) (size : ℕ)
    → IsPages s
    → (((j : ℕ) → j < 32 → IsUsed s j) × (pmalloc s size ≡ null s))
      ⊎ ((i : ℕ) × (i < 32)
          × (s.mem (s.pheap_desc + i) ≡ 0)
          × ((j : ℕ) → j < i → IsUsed s j)
          × (pmalloc s size ≡ pointer (s.pheap_begin + i * 4096) (Marked s i)))
unfolding pmalloc
pmalloc_lem s size h =
    go (page_loop 32 s.mem s.pheap_desc 0) refl (page_loop-First 32 s.mem s.pheap_desc 0 32 refl)
  where
    go :
        (o : Option ℕ)
        → page_loop 32 s.mem s.pheap_desc 0 ≡ o
        → First s.mem s.pheap_desc 0 32 (page_loop 32 s.mem s.pheap_desc 0)
        → (((j : ℕ) → j < 32 → IsUsed s j) × (pmalloc s size ≡ null s))
          ⊎ ((i : ℕ) × (i < 32)
              × (s.mem (s.pheap_desc + i) ≡ 0)
              × ((j : ℕ) → j < i → IsUsed s j)
              × (pmalloc s size ≡ pointer (s.pheap_begin + i * 4096) (Marked s i)))
    go none e f =
        let f' : First s.mem s.pheap_desc 0 32 none =
          subst (λ o. First s.mem s.pheap_desc 0 32 o) e f in
        inl ((λ j lt. f' j (omega arith) lt), ap (hand_out s) e)
    go (some i) e f =
        let f' : First s.mem s.pheap_desc 0 32 (some i) =
          subst (λ o. First s.mem s.pheap_desc 0 32 o) e f in
        let exact : (s.pheap_begin + i * 4096) % 2 ^ 32 ≡ s.pheap_begin + i * 4096 = omega arith in
        inr (
          i,
          f'.1,
          f'.2,
          (λ j lt. f'.3 j (omega arith) lt),
          ap (hand_out s) e ∙ ap (λ (p : ℕ). pointer p (Marked s i)) exact,
        )

-- For 32 pages that end below 2 ^ 32, `pfree` of any address of a page clears the descriptor of
-- that page and changes nothing else.
pub pfree-page :
    (s : Heap) (i k : ℕ)
    → IsPages s
    → i < 32
    → k < 4096
    → pfree s (s.pheap_begin + i * 4096 + k)
      ≡ record s { mem = set_byte s.mem (s.pheap_desc + i) 0 }
unfolding pfree
pfree-page s i k h lt small =
    let page : (s.pheap_begin + i * 4096 + k - s.pheap_begin) / 4096 ≡ i = omega arith in
    let inside : (ltb (s.pheap_begin + i * 4096 + k) s.pheap_begin
          || ltb s.pheap_end (s.pheap_begin + i * 4096 + k))
        ≡ false =
      ground arith in
    rw (inside, page) refl

-- For 32 pages that end below 2 ^ 32, the guard of `pfree` lets the end of the pages through: the
-- byte behind the descriptors is cleared, which belongs to no page.
pub pfree-end :
    (s : Heap)
    → IsPages s
    → pfree s s.pheap_end ≡ record s { mem = set_byte s.mem (s.pheap_desc + 32) 0 }
unfolding pfree
pfree-end s h =
    let page : (s.pheap_end - s.pheap_begin) / 4096 ≡ 32 = omega arith in
    let inside : (ltb s.pheap_end s.pheap_begin || ltb s.pheap_end s.pheap_end) ≡ false =
      ground arith in
    rw (inside, page) refl

with_mem : (s : Heap) (m : Mem) → ((b : ℕ) → m b ≡ s.mem b) → record s { mem = m } ≡ s
with_mem s m same = λ i. record s { mem = fun_ext same i }

-- For 32 pages that end below 2 ^ 32, giving back the page that `pmalloc` handed out restores
-- the state.
pub pfree-pmalloc :
    (s t : Heap) (size p : ℕ) → IsPages s → pmalloc s size ≡ pointer p t → pfree t p ≡ s
pfree-pmalloc s t size p h e = elim (pmalloc_lem s size h) [
  | inl (full, nothing) ↦ cc
  | inr (i, lt, free, before, got) ↦
      let at : s.pheap_begin + i * 4096 ≡ p = cc (e, got) in
      let marked : Marked s i ≡ t = cc (e, got) in
      let here : s.pheap_begin + i * 4096 + 0 ≡ p = omega arith in
      let cleared = pfree-page (Marked s i) i 0 h lt (omega arith) in
      let restored =
        with_mem s (set_byte (set_byte s.mem (s.pheap_desc + i) 1) (s.pheap_desc + i) 0)
          (λ b. ground arith) in
      subst₂ (λ (t : Heap) (p : ℕ). pfree t p ≡ s) marked here (cleared ∙ restored)
]

-- `mm_init` leaves one block of 32 bytes, all zero: the descriptors, of which no page is in use.
pub record Initialised (m : Mem) (kernel_end : ℕ) (o : Outcome) : Type 0 where
  pub state : Heap
  pub returns : o ≡ pointer (kernel_end + 0x1008) state
  pub blocks : IsHeap state (block 1 32 ∷ [])
  pub pages : IsPages state
  pub unused : (j : ℕ) → j < 32 → state.mem (state.pheap_desc + j) ≡ 0

-- With a kernel that ends at least 4140 bytes below the pages, `mm_init` succeeds.
pub mm_init-Initialised :
    (m : Mem) (kernel_end : ℕ)
    → kernel_end + 0x1000 + 44 < 0x3e0000
    → Initialised m kernel_end (mm_init m kernel_end)
unfolding mm_init
mm_init-Initialised m kernel_end h =
    let s = initial m kernel_end in
    let begin : (kernel_end + 0x1000) % 2 ^ 32 ≡ kernel_end + 0x1000 = omega arith in
    let empty : IsHeap s [] = record {
      holds = tt;
      last = refl;
      room = omega arith;
      small = omega arith;
    } in
    let served = malloc-grow s 32 1 [] empty (omega arith) (omega arith) no_fit (omega arith) in
    let desc_at : s.last_alloc + 8 ≡ kernel_end + 0x1008 = omega arith in
    record {
      state = record (served.after) { pheap_desc = kernel_end + 0x1008 };
      returns =
          ap with_desc served.returns
          ∙ ap (λ (p : ℕ). pointer p (record (served.after) { pheap_desc = p })) desc_at;
      blocks = record {
        holds = served.blocks.holds;
        last = served.blocks.last;
        room = served.blocks.room;
        small = served.blocks.small;
      };
      pages = (omega (arith, served.pages_kept), omega (arith, served.pages_kept));
      unused = λ j lt. served.zeroed (kernel_end + 0x1008 + j) (omega arith) (omega arith);
    }
  where
    no_fit : first_fit 32 [] ≡ Fit.none_fits
    no_fit = unfold first_fit in refl
