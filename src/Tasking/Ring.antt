-- ===== src/Tasking/Ring.antt =====
-- src/tasking.c: what the operations on the links do to the ring of processes.
use mathlib.Core.List.{append_assoc, append-nil}
use mathlib.Core.Path.{subst}
use aijak.Common.{
  snoc-cases, ℕ, zero, suc, ◌≡◌, refl, sym, ap₂, ◌∙◌, ◌≢◌, inl, inr, List, [], ◌∷◌, ◌++◌, length,
  arith, ◌==◌, if◌then◌else◌,
}
use aijak.Link.{Store, set_prev, set_next, link_after}
use aijak.Link.Ring.{NotIn, Chain, Ring, Chain-set_next, Chain-set_prev, Chain-split, Ring-rotate}
use aijak.Link.Laws.{link_after-here}
use aijak.Tasking.{Kernel, schedule, unlink, add_process_alone}

module _ (s : Store) where
  unlink-eq : (x p n : ℕ) → s.prev x ≡ p → s.next x ≡ n → unlink s x ≡ set_prev (set_next s p n) n p
  unfolding unlink
  unlink-eq x p n e f =
      let same : (if x == p then n else s.next x) ≡ n = ground (arith, f) in
      ap₂ (λ (a b : ℕ). set_prev (set_next s a b) (if x == a then b else s.next x) (s.prev x)) e f
      ∙ rw (same, e) refl

  -- A node behind the one from which the ring is seen.
  unlink-here : (p x : ℕ) (rest : List ℕ) → Ring s (p ∷ x ∷ rest) → Ring (unlink s x) (p ∷ rest)
  unlink-here p x [] r =
      subst (λ t. Ring t (p ∷ [])) (sym (unlink-eq x p p r.0.1 r.0.2.0))
        ((ground arith, ground arith), (tt, tt))
  unlink-here p x (y ∷ ys) r =
      let d = r.1 in
      let c1 = Chain-set_next s p y y ys p r.0.2.2 d.0.1 in
      let c2 = Chain-set_prev (set_next s p y) y p y ys p c1 d.1.1.0 (λ e. d.0.1.0 (sym e)) in
      subst (λ t. Ring t (p ∷ y ∷ ys)) (sym (unlink-eq x p y r.0.1 r.0.2.0))
        ((ground arith, ground arith, c2), (d.0.1, d.1.1))

  -- Any node but the one from which the ring is seen.
  pub unlink-Ring :
      (h : ℕ) (pre : List ℕ) (x : ℕ) (post : List ℕ)
      → Ring s (h ∷ (pre ++ x ∷ post))
      → Ring (unlink s x) (h ∷ (pre ++ post))
  unlink-Ring h pre x post r = elim (snoc-cases pre) [
    | inl e ↦
        subst (λ t. Ring (unlink s x) (h ∷ (t ++ post))) (sym e)
          (unlink-here h x post (subst (λ t. Ring s (h ∷ (t ++ x ∷ post))) e r))
    | inr (mid, p, e) ↦
        let r' : Ring s (h ∷ ((mid ++ p ∷ []) ++ x ∷ post)) =
          subst (λ t. Ring s (h ∷ (t ++ x ∷ post))) e r in
        let seen : Ring s (h ∷ (mid ++ p ∷ x ∷ post)) =
          subst (λ t. Ring s (h ∷ t)) (append_assoc mid (p ∷ []) (x ∷ post)) r' in
        let without = unlink-here p x (post ++ h ∷ mid) (Ring-rotate s h mid p (x ∷ post) seen) in
        let back : Ring (unlink s x) (h ∷ (mid ++ p ∷ post)) =
          Ring-rotate (unlink s x) p post h mid without in
        subst (λ t. Ring (unlink s x) (h ∷ (t ++ post))) (sym e)
          (subst (λ t. Ring (unlink s x) (h ∷ t)) (sym (append_assoc mid (p ∷ []) post)) back)
  ]

  -- The node from which the ring is seen, seen from the next one.
  pub unlink-Ring_head :
      (x n : ℕ) (rest : List ℕ) → Ring s (x ∷ n ∷ rest) → Ring (unlink s x) (n ∷ rest)
  unlink-Ring_head x n rest r =
      subst (λ t. Ring (unlink s x) (n ∷ t)) (append-nil rest)
        (unlink-Ring n rest x [] (Ring-rotate s x [] n rest r))

  -- The node itself still points to where the ring went on.
  pub unlink_next : (x n : ℕ) → s.next x ≡ n → (unlink s x).next x ≡ n
  unfolding unlink
  unlink_next x n e = ground (arith, e)

-- The assignments of `__addProcess` are those of `link_after`.
add_process_alone-link_after :
    (k : Kernel) (p : ℕ) → p ≢ k.c → (add_process_alone k p).links ≡ link_after k.links k.c p
unfolding add_process_alone link_after
add_process_alone-link_after k p ne =
    let same : (if p == p then k.links.next k.c else k.links.next p) ≡ k.links.next k.c =
      ground arith in
    rw same refl

-- `__addProcess` puts a process that is not in the ring behind the current one.
pub add_process_alone-Ring :
    (k : Kernel) (rest : List ℕ) (p : ℕ)
    → Ring k.links (k.c ∷ rest)
    → NotIn p (k.c ∷ rest)
    → Ring (add_process_alone k p).links (k.c ∷ p ∷ rest)
add_process_alone-Ring k rest p r out =
    subst (λ t. Ring t (k.c ∷ p ∷ rest)) (sym (add_process_alone-link_after k p out.0))
      (link_after-here k.links k.c p rest r out)

-- `rounds` switches in a row.
unfoldable pub schedules : ℕ → Kernel → Kernel
schedules zero k = k
schedules (suc rounds) k = schedules rounds (schedule k)

schedules-Chain :
    (k : Kernel) (pre : List ℕ) (p q : ℕ)
    → Chain k.links k.c pre p
    → q ≡ p
    → ((schedules (suc (length pre)) k).c ≡ q) × ((schedules (suc (length pre)) k).links ≡ k.links)
unfolding schedules schedule
schedules-Chain k [] p q ch e = (ch.0 ∙ sym e, refl)
schedules-Chain k (x ∷ xs) p q ch e =
    schedules-Chain (schedule k) xs p q (subst (λ (y : ℕ). Chain k.links y xs p) (sym ch.0) ch.2) e

-- Every process of the ring becomes the current one: the one behind `pre` after one switch more
-- than `pre` has processes, and the current one again after a switch for each of the ring.
pub schedules-reaches :
    (k : Kernel) (pre : List ℕ) (p : ℕ) (post : List ℕ)
    → Ring k.links (k.c ∷ (pre ++ p ∷ post))
    → ((schedules (suc (length pre)) k).c ≡ p)
      × ((schedules (suc (length (pre ++ p ∷ post))) k).c ≡ k.c)
schedules-reaches k pre p post r = (
  (schedules-Chain k pre p p (Chain-split k.links k.c pre p post k.c r.0).0 refl).0,
  (schedules-Chain k (pre ++ p ∷ post) k.c k.c r.0 refl).0,
)
