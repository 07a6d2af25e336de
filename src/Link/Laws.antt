-- ===== src/Link/Laws.antt =====
-- include/link.h: each operation on the pointers is an operation on the list of the ring's nodes.
use mathlib.Core.List.{append_assoc}
use mathlib.Core.Path.{fun_ext, subst}
use aijak.Common.{
  snoc-cases, ℕ, ◌≡◌, sym, ap, ap₂, ◌∙◌, ◌≢◌, ◌↔◌, inl, inr, true, List, [], ◌∷◌, ◌++◌, arith,
}
use aijak.Link.{
  Store, set_prev, set_next, splice, unsplice, link_init, link_after, link_before, link_remove,
  link_move_after, link_move_before, link_list_is_empty,
}
use aijak.Link.Ring.{NotIn, Chain, Ring, Chain-set_next, Chain-set_prev, Ring-rotate, NotIn-rotate}

module _ (s : Store) where
  splice-Chain :
      (a y x : ℕ) (ys : List ℕ)
      → Ring s (a ∷ y ∷ ys)
      → NotIn x (a ∷ y ∷ ys)
      → Chain (splice s a y x) a (x ∷ y ∷ ys) a
  splice-Chain a y x ys r out =
      let d = r.1 in
      let c1 = Chain-set_prev s y x y ys a r.0.2 d.1.0 (λ e. d.0.0 (sym e)) in
      let c2 = Chain-set_next (set_prev s y x) x y y ys a c1 out.1 in
      let s2 = set_next (set_prev s y x) x y in
      let c3 = Chain-set_prev s2 x a y ys a c2 out.1.1 out.0 in
      let c4 = Chain-set_next (set_prev s2 x a) a x y ys a c3 d.0 in
      (ground arith, ground arith, (ground arith, ground arith, c4))

  link_after-splice : (a x n : ℕ) → s.next a ≡ n → link_after s a x ≡ splice s a n x
  unfolding link_after
  link_after-splice a x n e = ap (λ (m : ℕ). splice s a m x) e

  link_before-splice : (a x p : ℕ) → s.prev a ≡ p → link_before s a x ≡ splice s p a x
  unfolding link_before
  link_before-splice a x p e = ap (λ (m : ℕ). splice s m a x) e

  abbrev detach : ℕ → ℕ → ℕ → Store
  detach p n x = set_prev (set_next (unsplice s p n) x 0) x 0

  link_remove-detach : (x p n : ℕ) → s.prev x ≡ p → s.next x ≡ n → link_remove s x ≡ detach p n x
  unfolding link_remove
  link_remove-detach x p n e f = ap₂ (λ (p n : ℕ). detach p n x) e f

  -- Behind the node from which the ring is seen.
  pub link_after-here :
      (a x : ℕ) (rest : List ℕ)
      → Ring s (a ∷ rest)
      → NotIn x (a ∷ rest)
      → Ring (link_after s a x) (a ∷ x ∷ rest)
  unfolding link_after
  link_after-here a x [] r out = (
    (ground arith, ground arith, (ground arith, ground arith)),
    ((λ e. out.0 (sym e), tt), (tt, tt)),
  )
  link_after-here a x (y ∷ ys) r out = (
    subst (λ t. Chain t a (x ∷ y ∷ ys) a) (sym (link_after-splice a x y r.0.0))
        (splice-Chain a y x ys r out),
    ((λ e. out.0 (sym e), r.1.0), (out.1, r.1.1)),
  )

  -- `link_after` puts a node that is not in the ring behind `a`, wherever `a` stands behind the
  -- node from which the ring is seen.
  pub link_after-Ring :
      (h : ℕ) (pre : List ℕ) (a : ℕ) (post : List ℕ) (x : ℕ)
      → Ring s (h ∷ (pre ++ a ∷ post))
      → NotIn x (h ∷ (pre ++ a ∷ post))
      → Ring (link_after s a x) (h ∷ (pre ++ a ∷ x ∷ post))
  link_after-Ring h pre a post x r out = Ring-rotate (link_after s a x) a (x ∷ post) h pre (
      link_after-here a x (post ++ h ∷ pre) (Ring-rotate s h pre a post r)
        (NotIn-rotate x h pre a post out))

  -- `link_before` the head puts a new node at the end.
  pub link_before-Ring :
      (h : ℕ) (rest : List ℕ) (x : ℕ)
      → Ring s (h ∷ rest)
      → NotIn x (h ∷ rest)
      → Ring (link_before s h x) (h ∷ (rest ++ x ∷ []))
  link_before-Ring h rest x r out = elim (snoc-cases rest) [
    | inl e ↦
        let single : Ring s (h ∷ []) = subst (λ t. Ring s (h ∷ t)) e r in
        let same : link_after s h x ≡ link_before s h x =
          link_after-splice h x h single.0.0 ∙ sym (link_before-splice h x h single.0.1) in
        subst (λ t. Ring (link_before s h x) (h ∷ (t ++ x ∷ []))) (sym e)
          (subst (λ t. Ring t (h ∷ x ∷ [])) same (link_after-here h x [] single (out.0, tt)))
    | inr (mid, p, e) ↦
        let r' : Ring s (h ∷ (mid ++ p ∷ [])) = subst (λ t. Ring s (h ∷ t)) e r in
        let out' : NotIn x (h ∷ (mid ++ p ∷ [])) = subst (λ t. NotIn x (h ∷ t)) e out in
        let turned = Ring-rotate s h mid p [] r' in
        let same : link_after s p x ≡ link_before s h x =
          link_after-splice p x h turned.0.0 ∙ sym (link_before-splice h x p turned.0.1) in
        let regroup : mid ++ p ∷ x ∷ [] ≡ (mid ++ p ∷ []) ++ x ∷ [] =
          sym (append_assoc mid (p ∷ []) (x ∷ [])) in
        subst (λ t. Ring (link_before s h x) (h ∷ (t ++ x ∷ []))) (sym e)
          (subst (λ t. Ring (link_before s h x) (h ∷ t)) regroup
            (subst (λ t. Ring t (h ∷ (mid ++ p ∷ x ∷ []))) same
              (link_after-Ring h mid p [] x r' out')))
  ]

  detach-Chain :
      (p y x : ℕ) (ys : List ℕ) → Ring s (p ∷ x ∷ y ∷ ys) → Chain (detach p y x) p (y ∷ ys) p
  detach-Chain p y x ys r =
      let d = r.1 in
      let c1 = Chain-set_prev s y p y ys p r.0.2.2 d.1.1.0 (λ e. d.0.1.0 (sym e)) in
      let s1 = set_prev s y p in
      let c2 = Chain-set_next s1 p y y ys p c1 d.0.1 in
      let s2 = set_next s1 p y in
      let c3 = Chain-set_next s2 x 0 y ys p c2 d.1.0 in
      let s3 = set_next s2 x 0 in
      let c4 = Chain-set_prev s3 x 0 y ys p c3 d.1.0.1 (λ e. d.0.0 (sym e)) in
      (ground arith, ground arith, c4)

  link_remove-here :
      (p x : ℕ) (rest : List ℕ) → Ring s (p ∷ x ∷ rest) → Ring (link_remove s x) (p ∷ rest)
  link_remove-here p x [] r = (
    subst (λ t. Chain t p [] p) (sym (link_remove-detach x p p r.0.1 r.0.2.0)) (ground arith),
    (tt, tt),
  )
  link_remove-here p x (y ∷ ys) r = (
    subst (λ t. Chain t p (y ∷ ys) p) (sym (link_remove-detach x p y r.0.1 r.0.2.0))
        (detach-Chain p y x ys r),
    (r.1.0.1, r.1.1.1),
  )

  -- `link_remove` takes any node but the one from which the ring is seen out of it, and leaves
  -- both of its pointers null.
  pub link_remove-Ring :
      (h : ℕ) (pre : List ℕ) (x : ℕ) (post : List ℕ)
      → Ring s (h ∷ (pre ++ x ∷ post))
      → Ring (link_remove s x) (h ∷ (pre ++ post))
        × ((link_remove s x).next x ≡ 0)
        × ((link_remove s x).prev x ≡ 0)
  unfolding link_remove
  link_remove-Ring h pre x post r = elim (snoc-cases pre) [
    | inl e ↦ (
      subst (λ t. Ring (link_remove s x) (h ∷ (t ++ post))) (sym e)
          (link_remove-here h x post (subst (λ t. Ring s (h ∷ (t ++ x ∷ post))) e r)),
      ground arith,
      ground arith,
    )
    | inr (mid, p, e) ↦
        let r' : Ring s (h ∷ ((mid ++ p ∷ []) ++ x ∷ post)) =
          subst (λ t. Ring s (h ∷ (t ++ x ∷ post))) e r in
        let seen : Ring s (h ∷ (mid ++ p ∷ x ∷ post)) =
          subst (λ t. Ring s (h ∷ t)) (append_assoc mid (p ∷ []) (x ∷ post)) r' in
        let turned = Ring-rotate s h mid p (x ∷ post) seen in
        let without = link_remove-here p x (post ++ h ∷ mid) turned in
        let back : Ring (link_remove s x) (h ∷ (mid ++ p ∷ post)) =
          Ring-rotate (link_remove s x) p post h mid without in
        (
          subst (λ t. Ring (link_remove s x) (h ∷ (t ++ post))) (sym e)
              (subst (λ t. Ring (link_remove s x) (h ∷ t)) (sym (append_assoc mid (p ∷ []) post))
                back),
          ground arith,
          ground arith,
        )
  ]

  moved : (t u : Store) → ((y : ℕ) → t.prev y ≡ u.prev y) → ((y : ℕ) → t.next y ≡ u.next y) → t ≡ u
  moved t u p n = λ i. record { prev = fun_ext p i; next = fun_ext n i }

  -- Either move of a node is its removal followed by its insertion behind, or before, another
  -- node.
  pub link_move-remove_insert :
      (a x : ℕ)
      → a ≢ x
      → (link_move_after s a x ≡ link_after (link_remove s x) a x)
        × (link_move_before s a x ≡ link_before (link_remove s x) a x)
  unfolding link_move_after link_move_before link_after link_before link_remove
  link_move-remove_insert a x ne = (
    moved (link_move_after s a x) (link_after (link_remove s x) a x) (λ y. ground arith)
        (λ y. ground arith),
    moved (link_move_before s a x) (link_before (link_remove s x) a x) (λ y. ground arith)
        (λ y. ground arith),
  )

  -- The list of a head is empty exactly when no node but the head is in its ring.
  pub link_list_is_empty_iff :
      (h : ℕ) (rest : List ℕ) → Ring s (h ∷ rest) → (link_list_is_empty s h ≡ true) ↔ (rest ≡ [])
  unfolding link_list_is_empty
  link_list_is_empty_iff h [] r = ground arith
  link_list_is_empty_iff h (y ∷ ys) r = ground arith

-- A node initialised alone is the head of an empty list.
pub link_init-Ring : (s : Store) (h : ℕ) → Ring (link_init s h) (h ∷ [])
unfolding link_init
link_init-Ring s h = ground arith
