-- ===== src/Net/Buffers/Laws.antt =====
-- src/net/buf.c: a buffer that is released is the next one that is handed out.
use native.Mathlib.Decide.{ℕ_discrete}
use mathlib.Core.Path.{subst}
use aijak.Common.{
  first_branch, true, second_branch, ℕ, ◌+◌, ◌^◌, ◌<◌, ◌≡◌, ◌≢◌, refl, sym, ap, ◌∙◌, arith, false,
  some, List, [], ◌∷◌, ◌==◌, if◌then◌else◌, u32, sub32,
}
use aijak.Link.{Store, set_prev, set_next, link_after, link_remove, link_list_is_empty}
use aijak.Link.Ring.{Ring, NotIn, Chain-set_next, Chain-set_prev}
use aijak.Link.Laws.{link_after-here, link_remove-Ring}
use aijak.Memory.Heap.{Heap, pointer, malloc, free}
use aijak.Net.Packet.{net_buf_size, net_buf_start}
use aijak.Net.Buffers.{Pool, prepared, from_heap, alloc_buf, release_buf, assign}

-- The free buffers in the order in which they are handed out.
abbrev pub FreeList : Pool → List ℕ → Type 0
FreeList p xs = Ring p.links (p.free_bufs ∷ xs)

detached :
    (s : Store) (x : ℕ) (h : ℕ) (xs : List ℕ)
    → Ring s (h ∷ xs)
    → NotIn x (h ∷ xs)
    → Ring (set_next (set_prev s x 0) x 0) (h ∷ xs)
detached s x h xs r out = (
  Chain-set_next (set_prev s x 0) x 0 h xs h (Chain-set_prev s x 0 h xs h r.0 out.1 out.0) out,
  r.1,
)

-- `release_buf` of the last reference.
released : Pool → ℕ → Pool
released p buf = record p {
  ref_count = assign p.ref_count buf 0;
  alloc_count = sub32 p.alloc_count 1;
  links = link_after p.links p.free_bufs buf;
  heap = free p.heap buf;
}

release_buf-last : (p : Pool) (buf : ℕ) → p.ref_count buf ≡ 1 → release_buf p buf ≡ released p buf
unfolding release_buf released
release_buf-last p buf one =
    let after = λ (n : ℕ).
      let p' : Pool = record p { ref_count = assign p.ref_count buf (sub32 n 1) } in
      if sub32 n 1 == 0
      then record p' {
        alloc_count = sub32 p.alloc_count 1;
        links = link_after p.links p.free_bufs buf;
        heap = free p.heap buf;
      }
      else p' in
    ap after one

-- The first buffer of a list that is not empty.
alloc_buf-first :
    (rounds : ℕ) (p : Pool) (xs : List ℕ) (buf : ℕ)
    → FreeList p (buf ∷ xs)
    → alloc_buf rounds p ≡ some (buf, prepared (record p { links = link_remove p.links buf }) buf)
unfolding alloc_buf link_list_is_empty
alloc_buf-first rounds p xs buf ring =
    let some_left : (p.links.next p.free_bufs == p.free_bufs) ≡ false =
      ground (arith, ring.0.0, ring.1.0.0) in
    second_branch _ _ _ some_left
    ∙ ap (λ (b : ℕ). some (b, prepared (record p { links = link_remove p.links b }) b)) ring.0.0

-- It is handed out with one reference and its packet empty, and the others stay as they are.
pub alloc_buf-taken :
    (rounds : ℕ) (p : Pool) (xs : List ℕ) (buf : ℕ)
    → FreeList p (buf ∷ xs)
    → (p' : Pool) × (alloc_buf rounds p ≡ some (buf, p'))
      × FreeList p' xs
      × (p'.free_bufs ≡ p.free_bufs)
      × (p'.ref_count buf ≡ 1)
      × (p'.start buf ≡ buf + net_buf_start)
      × ((b : ℕ) → b ≢ buf → (p'.ref_count b ≡ p.ref_count b) × (p'.start b ≡ p.start b))
unfolding prepared
alloc_buf-taken rounds p xs buf ring =
    let (back, n, m) = link_remove-Ring p.links p.free_bufs [] buf xs ring in
    let apart : p.free_bufs ≢ buf = ring.1.0.0 in
    (
      prepared (record p { links = link_remove p.links buf }) buf,
      alloc_buf-first rounds p xs buf ring,
      detached (link_remove p.links buf) buf p.free_bufs xs back ((λ e. apart (sym e)), ring.1.1.0),
      refl,
      ground arith,
      ground arith,
      (λ b other. (ground arith, ground arith)),
    )

-- From an empty list the buffer comes from `malloc`.
pub alloc_buf-fresh :
    (rounds : ℕ) (p : Pool) (buf : ℕ) (h : Heap)
    → FreeList p []
    → malloc rounds p.heap net_buf_size ≡ pointer buf h
    → buf ≢ p.free_bufs
    → let p' = prepared (record p { heap = h }) buf in
      (alloc_buf rounds p ≡ some (buf, p')) × FreeList p' []
unfolding alloc_buf prepared link_list_is_empty
alloc_buf-fresh rounds p buf h ring memory apart =
    let empty : (p.links.next p.free_bufs == p.free_bufs) ≡ true = ground (arith, ring.0.0) in
    (
      first_branch _ _ _ empty ∙ ap (from_heap p) memory,
      detached p.links buf p.free_bufs [] ring (apart, tt),
    )

reused :
    (rounds : ℕ) (p : Pool) (xs : List ℕ) (buf : ℕ)
    → FreeList p xs
    → NotIn buf (p.free_bufs ∷ xs)
    → p.ref_count buf ≡ 1
    → (p' : Pool) × (alloc_buf rounds (release_buf p buf) ≡ some (buf, p'))
      × FreeList p' xs
      × (p'.start buf ≡ buf + net_buf_start)
      × (p'.end buf ≡ buf + net_buf_start)
      × ((b : ℕ) → p'.ref_count b ≡ p.ref_count b)
      × ((b : ℕ) → b ≢ buf → (p'.start b ≡ p.start b) × (p'.end b ≡ p.end b))
      × (p'.alloc_count ≡ u32 (sub32 p.alloc_count 1 + 1))
      × (p'.heap ≡ free p.heap buf)
      × (p'.free_bufs ≡ p.free_bufs)
unfolding prepared released
reused rounds p xs buf ring out one =
    let p1 = released p buf in
    let longer : FreeList p1 (buf ∷ xs) = link_after-here p.links p.free_bufs buf xs ring out in
    let (back, n, m) = link_remove-Ring p1.links p.free_bufs [] buf xs longer in
    (
      prepared (record p1 { links = link_remove p1.links buf }) buf,
      ap (alloc_buf rounds) (release_buf-last p buf one) ∙ alloc_buf-first rounds p1 xs buf longer,
      detached (link_remove p1.links buf) buf p.free_bufs xs back out,
      ground arith,
      ground arith,
      (λ b. ground (arith, one)),
      (λ b other. (ground arith, ground arith)),
      refl,
      refl,
      refl,
    )

-- A buffer whose only reference is released is the next that is handed out, with its packet empty;
-- the free list, the references and the addresses of all other buffers are as before, and so is the
-- count, if it is above 0 and below 2 ^ 32. But the heap counts the memory as free.
pub alloc_buf-release_buf :
    (rounds : ℕ) (p : Pool) (xs : List ℕ) (buf : ℕ)
    → FreeList p xs
    → NotIn buf (p.free_bufs ∷ xs)
    → p.ref_count buf ≡ 1
    → 0 < p.alloc_count
    → p.alloc_count < 2 ^ 32
    → (p' : Pool) × (alloc_buf rounds (release_buf p buf) ≡ some (buf, p'))
      × FreeList p' xs
      × (p'.start buf ≡ buf + net_buf_start)
      × (p'.end buf ≡ buf + net_buf_start)
      × ((b : ℕ) → p'.ref_count b ≡ p.ref_count b)
      × ((b : ℕ) → b ≢ buf → (p'.start b ≡ p.start b) × (p'.end b ≡ p.end b))
      × (p'.alloc_count ≡ p.alloc_count)
      × (p'.heap ≡ free p.heap buf)
alloc_buf-release_buf rounds p xs buf ring out one some_left fit =
    let (p', gives, ring', start, end, refs, others, count, heap, head) =
      reused rounds p xs buf ring out one in
    (p', gives, ring', start, end, refs, others, count ∙ omega arith, heap)

-- Buffers that are held outside the free list, by one reference each, with `start` where it was put
-- at first.
abbrev pub Owns : Pool → (ℕ → Type 0) → Type 0
Owns p Held =
    (xs : List ℕ) × FreeList p xs
    × ((b : ℕ)
        → Held b
        → NotIn b (p.free_bufs ∷ xs) × (p.ref_count b ≡ 1) × (p.start b ≡ b + net_buf_start))

-- The same, but for the `start` of one of them.
abbrev pub OwnsBut : ℕ → Pool → (ℕ → Type 0) → Type 0
OwnsBut buf p Held =
    (xs : List ℕ) × FreeList p xs
    × ((b : ℕ)
        → Held b
        → NotIn b (p.free_bufs ∷ xs)
          × (p.ref_count b ≡ 1)
          × (b ≢ buf → p.start b ≡ b + net_buf_start))

pub Owns-reused :
    (rounds : ℕ) (p : Pool) (Held : ℕ → Type 0) (buf : ℕ)
    → OwnsBut buf p Held
    → Held buf
    → (p' : Pool) × (alloc_buf rounds (release_buf p buf) ≡ some (buf, p'))
      × (p'.start buf ≡ buf + net_buf_start)
      × Owns p' Held
Owns-reused rounds p Held buf (xs, ring, all) held =
    let (out, one, at) = all buf held in
    let (p', gives, ring', start, end, refs, others, count, heap, head) =
      reused rounds p xs buf ring out one in
    (
      p',
      gives,
      start,
      (
        xs,
        ring',
        λ b h.
            let (out_b, one_b, at_b) = all b h in
            (
              subst (λ f. NotIn b (f ∷ xs)) (sym head) out_b,
              refs b ∙ one_b,
              elim (ℕ_discrete b buf) [
                | yes same ↦ ap p'.start same ∙ start ∙ ap (λ x. x + net_buf_start) (sym same)
                | no other ↦ (others b other).0 ∙ at_b other
              ],
            ),
      ),
    )
