-- ===== src/Net/Addr.antt =====
-- src/net/addr.c: equality of addresses.
pub mod Text
use aijak.Common.{ℕ, ◌≡◌, refl, ◌↔◌, arith, Bool, true, false}
use aijak.Common.{List, [], ◌∷◌, ◌==◌, if◌then◌else◌}

-- The loop of `addr_eth_eq` over the bytes that are left.
pub eth_eq_loop : List ℕ → List ℕ → Bool
eth_eq_loop [] [] = true
eth_eq_loop [] (y ∷ ys) = false
eth_eq_loop (x ∷ xs) [] = false
eth_eq_loop (x ∷ xs) (y ∷ ys) = let rest = eth_eq_loop xs ys in if x == y then rest else false

unfoldable pub addr_eth_eq : List ℕ → List ℕ → Bool
unfolding eth_eq_loop
addr_eth_eq x y = eth_eq_loop x y

unfoldable pub addr_ipv4_eq : ℕ → ℕ → Bool
addr_ipv4_eq x y = x == y

-- Two Ethernet addresses are equal exactly when the loop finds no difference.
pub addr_eth_eq_iff : (x y : List ℕ) → (addr_eth_eq x y ≡ true) ↔ (x ≡ y)
unfolding addr_eth_eq
addr_eth_eq_iff [] [] = ((λ _. refl), (λ _. refl))
addr_eth_eq_iff [] (y ∷ ys) = ((λ e. cc), (λ e. cc))
addr_eth_eq_iff (x ∷ xs) [] = ((λ e. cc), (λ e. cc))
addr_eth_eq_iff (x ∷ xs) (y ∷ ys) = ground (arith, addr_eth_eq_iff xs ys)
