-- ===== src/Net/Route/Order.antt =====
-- src/net/route.c: the order in which `net_route_add` keeps the table.
use aijak.Common.{ℕ, ◌+◌, ◌≤◌, ◌≡◌, ◌↔◌, arith}
use aijak.Common.{none, List, [], ◌∷◌, ltb, if◌then◌else◌}
use native.Mathlib.Decide.{dec_lt}
use aijak.Net.Route.{NetRoute}
use aijak.Net.Route.Walk.{behind_greater, placed}

-- No mask is greater than one before it: the longest prefix is met first.
abbrev pub IsSorted : (ℕ → NetRoute) → List ℕ → Type 0
IsSorted route [] = Unit
IsSorted route (x ∷ []) = Unit
IsSorted route (x ∷ y ∷ xs) = ((route y).mask ≤ (route x).mask) × IsSorted route (y ∷ xs)

-- How many routes of the table have a mask greater than `mask`.
abbrev pub count_greater : (ℕ → NetRoute) → ℕ → List ℕ → ℕ
count_greater route mask [] = 0
count_greater route mask (x ∷ xs) =
    (if ltb mask (route x).mask then 1 else 0) + count_greater route mask xs

module _ (route : ℕ → NetRoute) (mask node : ℕ) where
  none_greater :
      (x : ℕ) (xs : List ℕ)
      → IsSorted route (x ∷ xs)
      → (route x).mask ≤ mask
      → (count_greater route mask (x ∷ xs) ≡ 0) × (behind_greater route mask node (x ∷ xs) ≡ none)
  none_greater x [] s h = ground arith
  none_greater x (y ∷ ys) s h = ground (arith, none_greater y ys s.1 (omega arith))

  -- Adding a route to a sorted table leaves it sorted exactly when at most one mask in the table
  -- is greater than the new one.
  pub placed-IsSorted_iff :
      (xs : List ℕ)
      → IsSorted route xs
      → (route node).mask ≡ mask
      → IsSorted route (placed route mask node xs) ↔ (count_greater route mask xs ≤ 1)
  unfolding placed
  placed-IsSorted_iff [] s e = ((λ _. omega arith), (λ _. tt))
  placed-IsSorted_iff (x ∷ []) s e = ground arith
  placed-IsSorted_iff (x ∷ y ∷ ys) s e = elim (dec_lt mask (route x).mask) [
    | no high ↦ ground (arith, none_greater x (y ∷ ys) s (omega arith))
    | yes low ↦ elim (dec_lt mask (route y).mask) [
      | no high ↦ ground (arith, none_greater y ys s.1 (omega arith))
      | yes lower ↦ ground arith
    ]
  ]
