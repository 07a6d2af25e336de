-- ===== src/Net/Route/Walk.antt =====
-- src/net/route.c: the loops over the ring, against the list of its nodes.
use mathlib.Core.Path.{subst, subst₂}
use aijak.Common.{ℕ, zero, suc, ◌+◌, ◌<◌, ◌≡◌, refl, sym, ◌≢◌, ◌⊎◌, inl, inr, ap, arith}
use aijak.Common.{Option, none, some, List, [], ◌∷◌, ◌++◌, length, Bool-cases}
use aijak.Common.{ltb, if◌then◌else◌}
use aijak.Link.{Store, set_prev, link_init, link_after}
use aijak.Link.Ring.{NotIn, Chain, Ring, Chain-set_next, Chain-set_prev}
use aijak.Link.Laws.{link_after-Ring, link_after-here}
use aijak.Net.Route.{
  NetRoute, RouteTable, Found, at_node, null, matches, find_loop, place_loop, net_route_find,
  net_route_add, with_route, gateway_bits,
}

-- The first node, in the order of the table, whose route matches.
unfoldable pub first_match : (ℕ → NetRoute) → ℕ → List ℕ → Found
first_match route dst [] = null
first_match route dst (x ∷ xs) =
    if matches dst (route x) then at_node x else first_match route dst xs

-- Where the code puts a new node: behind the first whose mask is greater, else in front.
abbrev pub behind_greater : (ℕ → NetRoute) → ℕ → ℕ → List ℕ → Option (List ℕ)
behind_greater route mask node [] = none
behind_greater route mask node (x ∷ xs) =
    if ltb mask (route x).mask
    then some (x ∷ node ∷ xs)
    else elim (behind_greater route mask node xs) [ none ↦ none | some ys ↦ some (x ∷ ys) ]

abbrev pub or_front : ℕ → List ℕ → Option (List ℕ) → List ℕ
or_front node xs none = node ∷ xs
or_front node xs (some ys) = ys

unfoldable pub placed : (ℕ → NetRoute) → ℕ → ℕ → List ℕ → List ℕ
placed route mask node xs = or_front node xs (behind_greater route mask node xs)

find_loop-first_match :
    (t : RouteTable) (head rounds dst p x : ℕ) (xs : List ℕ)
    → t.links.next p ≡ x
    → Chain t.links x xs head
    → NotIn head (x ∷ xs)
    → length xs + 1 < rounds
    → find_loop t head rounds dst x ≡ first_match t.route dst (x ∷ xs)
unfolding find_loop first_match
find_loop-first_match t head zero dst p x xs e c out h = absurd (omega arith)
find_loop-first_match t head (suc zero) dst p x xs e c out h = absurd (omega arith)
find_loop-first_match t head (suc (suc rounds)) dst p x [] e c out h = ground arith
find_loop-first_match t head (suc rounds) dst p x (y ∷ ys) e c out h =
    ground (arith, find_loop-first_match t head rounds dst x y ys c.0 c.2 out.1 (omega arith))

-- For a table that is a ring of fewer nodes than the rounds, `net_route_find` returns the first
-- matching node of the table, or null when none matches.
pub net_route_find-first_match :
    (t : RouteTable) (head dst rounds : ℕ) (nodes : List ℕ)
    → Ring t.links (head ∷ nodes)
    → length nodes < rounds
    → net_route_find rounds t head dst ≡ first_match t.route dst nodes
unfolding net_route_find find_loop first_match
net_route_find-first_match t head dst zero nodes r h = absurd (omega arith)
net_route_find-first_match t head dst (suc rounds) [] r h = ground arith
net_route_find-first_match t head dst (suc rounds) (x ∷ xs) r h =
    let e : t.links.next head ≡ x = r.0.0 in
    rw e (find_loop-first_match t head (suc rounds) dst head x xs e r.0.2 r.1.0 (omega arith))

place_of : (ℕ → NetRoute) → ℕ → ℕ → List ℕ → ℕ
place_of route head mask [] = head
place_of route head mask (x ∷ xs) =
    if ltb mask (route x).mask then x else place_of route head mask xs

place_loop-place_of :
    (t : RouteTable) (head rounds mask p x : ℕ) (xs : List ℕ)
    → t.links.next p ≡ x
    → Chain t.links x xs head
    → NotIn head (x ∷ xs)
    → length xs + 1 < rounds
    → place_loop t head rounds mask x ≡ at_node (place_of t.route head mask (x ∷ xs))
unfolding place_loop place_of
place_loop-place_of t head zero mask p x xs e c out h = absurd (omega arith)
place_loop-place_of t head (suc zero) mask p x xs e c out h = absurd (omega arith)
place_loop-place_of t head (suc (suc rounds)) mask p x [] e c out h = ground arith
place_loop-place_of t head (suc rounds) mask p x (y ∷ ys) e c out h =
    ground (arith, place_loop-place_of t head rounds mask x y ys c.0 c.2 out.1 (omega arith))

place_loop-Ring :
    (t : RouteTable) (head mask rounds : ℕ) (nodes : List ℕ)
    → Ring t.links (head ∷ nodes)
    → length nodes < rounds
    → place_loop t head rounds mask (t.links.next head) ≡ at_node (place_of t.route head mask nodes)
unfolding place_loop place_of
place_loop-Ring t head mask zero nodes r h = absurd (omega arith)
place_loop-Ring t head mask (suc rounds) [] r h = ground arith
place_loop-Ring t head mask (suc rounds) (x ∷ xs) r h =
    let e : t.links.next head ≡ x = r.0.0 in
    rw e (place_loop-place_of t head (suc rounds) mask head x xs e r.0.2 r.1.0 (omega arith))

-- Either no mask is greater, or the place is a node of the table.
abbrev Behind : (ℕ → NetRoute) → ℕ → ℕ → ℕ → List ℕ → Type 0
Behind route head mask node xs =
    (pre : List ℕ) × (a : ℕ) × (post : List ℕ) × (xs ≡ pre ++ a ∷ post)
    × (place_of route head mask xs ≡ a)
    × (behind_greater route mask node xs ≡ some (pre ++ a ∷ node ∷ post))

place-cases :
    (route : ℕ → NetRoute) (head mask node : ℕ) (xs : List ℕ)
    → ((place_of route head mask xs ≡ head) × (behind_greater route mask node xs ≡ none))
      ⊎ Behind route head mask node xs
unfolding place_of
place-cases route head mask node [] = inl (refl, refl)
place-cases route head mask node (x ∷ xs) = elim (Bool-cases (ltb mask (route x).mask)) [
  | inl here ↦ inr ([], x, xs, refl, rw here refl, rw here refl)
  | inr further ↦ elim (place-cases route head mask node xs) [
    | inl (at, nowhere) ↦ inl (rw further at, rw (further, nowhere))
    | inr (pre, a, post, e, at, there) ↦
        inr (x ∷ pre, a, post, ap (λ t. x ∷ t) e, rw further at, rw (further, there))
  ]
]

Ring-link_init :
    (s : Store) (node x : ℕ) (xs : List ℕ)
    → Ring s (x ∷ xs)
    → NotIn node (x ∷ xs)
    → Ring (link_init s node) (x ∷ xs)
unfolding link_init
Ring-link_init s node x xs r out = (
  Chain-set_next (set_prev s node node) node node x xs x
      (Chain-set_prev s node node x xs x r.0 out.1 out.0) out,
  r.1,
)

behind_greater-fresh :
    (t : RouteTable) (node : ℕ) (r : NetRoute) (mask : ℕ) (xs : List ℕ)
    → NotIn node xs
    → behind_greater (with_route t node r).route mask node xs ≡ behind_greater t.route mask node xs
behind_greater-fresh t node r mask [] out = refl
behind_greater-fresh t node r mask (x ∷ xs) out =
    ground (arith, behind_greater-fresh t node r mask xs out.1)

placed-none :
    (route : ℕ → NetRoute) (mask node : ℕ) (xs : List ℕ)
    → behind_greater route mask node xs ≡ none
    → placed route mask node xs ≡ node ∷ xs
unfolding placed
placed-none route mask node xs e = ap (or_front node xs) e

placed-some :
    (route : ℕ → NetRoute) (mask node : ℕ) (xs ys : List ℕ)
    → behind_greater route mask node xs ≡ some ys
    → placed route mask node xs ≡ ys
unfolding placed
placed-some route mask node xs ys e = ap (or_front node xs) e

link_behind-Ring :
    (t : RouteTable) (head mask node : ℕ) (nodes : List ℕ)
    → Ring t.links (head ∷ nodes)
    → NotIn node (head ∷ nodes)
    → Ring
        (link_after t.links (place_of t.route head mask nodes) node)
        (head ∷ placed t.route mask node nodes)
link_behind-Ring t head mask node nodes r out =
    let Goal = λ (a : ℕ) (ys : List ℕ). Ring (link_after t.links a node) (head ∷ ys) in
    elim (place-cases t.route head mask node nodes) [
      | inl (at, nowhere) ↦
          subst₂ Goal (sym at) (sym (placed-none t.route mask node nodes nowhere))
            (link_after-here t.links head node nodes r out)
      | inr (pre, a, post, e, at, there) ↦
          subst₂ Goal (sym at)
            (sym (placed-some t.route mask node nodes (pre ++ a ∷ node ∷ post) there))
            (link_after-Ring t.links head pre a post node
              (subst (λ t'. Ring t.links (head ∷ t')) e r)
              (subst (λ t'. NotIn node (head ∷ t')) e out))
    ]

-- What `net_route_add` leaves: the new route in its node, and the node in its place in the ring.
pub record Added (t : RouteTable) (head node : ℕ) (r : NetRoute) (nodes : List ℕ)
    (result : Option RouteTable) : Type 0 where
  pub table : RouteTable
  pub returns : result ≡ some table
  pub ring : Ring table.links (head ∷ placed t.route r.mask node nodes)
  pub stored : table.route node ≡ r
  pub others : (p : ℕ) → p ≢ node → table.route p ≡ t.route p

module _ (t : RouteTable) (head node dst mask intf rounds : ℕ) (gateway : Option ℕ)
    (nodes : List ℕ) where
  abbrev pub new_route : NetRoute
  new_route = record { dst = dst; mask = mask; gateway = gateway_bits gateway; intf = intf }

  abbrev opened : RouteTable
  opened = with_route t node new_route

  -- For a table that is a ring of fewer nodes than the rounds, `net_route_add` with a node that is
  -- not in it ends, stores the route there and puts the node behind the
  -- first node whose mask is greater, or in front when there is none; no other route changes.
  pub net_route_add-Added :
      Ring t.links (head ∷ nodes)
      → NotIn node (head ∷ nodes)
      → length nodes < rounds
      → Added t head node new_route nodes (net_route_add rounds t head node dst mask gateway intf)
  unfolding net_route_add
  net_route_add-Added r out h =
      let ring = Ring-link_init t.links node head nodes r out in
      let same = behind_greater-fresh t node new_route mask nodes out.1 in
      let place = place_loop-Ring opened head mask rounds nodes ring h in
      let a = place_of opened.route head mask nodes in
      record {
        table = record opened { links = link_after opened.links a node };
        returns = rw place refl;
        ring =
            subst (λ ys. Ring (link_after opened.links a node) (head ∷ ys)) (placed-same same)
              (link_behind-Ring opened head mask node nodes ring out);
        stored = ground arith;
        others = λ p ne. ground arith;
      }
    where
      placed-same :
          behind_greater opened.route mask node nodes ≡ behind_greater t.route mask node nodes
          → placed opened.route mask node nodes ≡ placed t.route mask node nodes
      placed-same e = unfold placed in ap (or_front node nodes) e
