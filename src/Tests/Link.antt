-- ===== src/Tests/Link.antt =====
-- A ring of two nodes, for the theorems on include/link.h.
use aijak.Common.{◌≡◌, [], ◌∷◌, arith, ◌==◌, if◌then◌else◌}
use aijak.Link.{Store, link_after, link_remove}
use aijak.Link.Ring.{NotIn, Ring}
use aijak.Link.Laws.{link_after-Ring, link_remove-Ring}

-- Nodes 1 and 2.
abbrev two_nodes : Store
two_nodes = record {
  next = λ p. if p == 1 then 2 else (if p == 2 then 1 else 0);
  prev = λ p. if p == 1 then 2 else (if p == 2 then 1 else 0);
}

two_nodes-Ring : Ring two_nodes (1 ∷ 2 ∷ [])
two_nodes-Ring = ground arith

three_is_new : NotIn 3 (1 ∷ 2 ∷ [])
three_is_new = ground arith

link_after-Ring_example : Ring (link_after two_nodes 2 3) (1 ∷ 2 ∷ 3 ∷ [])
link_after-Ring_example = link_after-Ring two_nodes 1 [] 2 [] 3 two_nodes-Ring three_is_new

link_remove-Ring_example :
    Ring (link_remove two_nodes 2) (1 ∷ [])
    × ((link_remove two_nodes 2).next 2 ≡ 0)
    × ((link_remove two_nodes 2).prev 2 ≡ 0)
link_remove-Ring_example = link_remove-Ring two_nodes 1 [] 2 [] two_nodes-Ring
