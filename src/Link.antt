-- ===== src/Link.antt =====
-- include/link.h: intrusive doubly linked rings. A store gives the two pointers of each node;
-- a node is named by its address, and address 0 is the null pointer.
pub mod Ring
pub mod Laws
use aijak.Common.{ℕ, Bool, ◌==◌, if◌then◌else◌}

pub record Store : Type 0 where
  pub prev : ℕ → ℕ
  pub next : ℕ → ℕ

-- `x->prev = v` and `x->next = v`
abbrev pub set_prev : Store → ℕ → ℕ → Store
set_prev s x v = record s { prev = λ y. if y == x then v else s.prev y }

abbrev pub set_next : Store → ℕ → ℕ → Store
set_next s x v = record s { next = λ y. if y == x then v else s.next y }

unfoldable pub link_init : Store → ℕ → Store
link_init s x = set_next (set_prev s x x) x x

-- `n->prev = x; x->next = n; x->prev = p; p->next = x`
abbrev pub splice : Store → ℕ → ℕ → ℕ → Store
splice s p n x = set_next (set_prev (set_next (set_prev s n x) x n) x p) p x

-- `n->prev = p; p->next = n`
abbrev pub unsplice : Store → ℕ → ℕ → Store
unsplice s p n = set_next (set_prev s n p) p n

unfoldable pub link_after : Store → ℕ → ℕ → Store
link_after s a x = let p = a in let n = s.next a in splice s p n x

unfoldable pub link_before : Store → ℕ → ℕ → Store
link_before s a x = let p = s.prev a in let n = a in splice s p n x

unfoldable pub link_remove : Store → ℕ → Store
link_remove s x =
    let p = s.prev x in let n = s.next x in set_prev (set_next (unsplice s p n) x 0) x 0

unfoldable pub link_move_after : Store → ℕ → ℕ → Store
link_move_after s a x =
    let s' = unsplice s (s.prev x) (s.next x) in let p = a in let n = s'.next a in splice s' p n x

unfoldable pub link_move_before : Store → ℕ → ℕ → Store
link_move_before s a x =
    let s' = unsplice s (s.prev x) (s.next x) in let p = s'.prev a in let n = a in splice s' p n x

unfoldable pub link_list_is_empty : Store → ℕ → Bool
link_list_is_empty s x = s.next x == x
