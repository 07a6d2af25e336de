-- ===== src/Net/Route.antt =====
-- include/net/route.h and src/net/route.c: the routing table, a ring of routes behind the head
-- `s_routeTable`. A loop over the ring takes the number of rounds as fuel.
pub mod Walk
pub mod Order
use aijak.Common.{ℕ, zero, suc, Bool, Option, none, some, bit_and, ◌==◌, ltb, if◌then◌else◌}
use aijak.Link.{Store, link_init, link_after}

-- An address is its 32 bits; 0 is the null address.
pub record NetRoute : Type 0 where
  pub dst : ℕ
  pub mask : ℕ
  pub gateway : ℕ
  pub intf : ℕ

-- The links of all nodes, and the route that each node holds.
pub record RouteTable : Type 0 where
  pub links : Store
  pub route : ℕ → NetRoute

pub data Found : Type 0 where
  at_node : ℕ → Found
  null : Found
  out_of_fuel : Found

-- `(dst->u.bits & route->mask.u.bits) == route->dst.u.bits`
abbrev pub matches : ℕ → NetRoute → Bool
matches dst r = bit_and dst r.mask == r.dst

-- The two loops stand at `p`, and end at the head.
module _ (t : RouteTable) (head : ℕ) where
  pub find_loop : ℕ → ℕ → ℕ → Found
  find_loop zero dst p = out_of_fuel
  find_loop (suc rounds) dst p =
      let rest = find_loop rounds dst (t.links.next p) in
      if p == head then null else (if matches dst (t.route p) then at_node p else rest)

  pub place_loop : ℕ → ℕ → ℕ → Found
  place_loop zero mask p = out_of_fuel
  place_loop (suc rounds) mask p =
      let rest = place_loop rounds mask (t.links.next p) in
      if p == head then at_node p else (if ltb mask (t.route p).mask then at_node p else rest)

unfoldable pub net_route_find : ℕ → RouteTable → ℕ → ℕ → Found
unfolding find_loop
net_route_find rounds t head dst = find_loop t head rounds dst (t.links.next head)

abbrev pub gateway_bits : Option ℕ → ℕ
gateway_bits none = 0
gateway_bits (some g) = g

-- `node` is what `malloc` returned; `gateway` is `none` for a null pointer.
abbrev pub with_route : RouteTable → ℕ → NetRoute → RouteTable
with_route t node r = record {
  links = link_init t.links node;
  route = λ p. if p == node then r else t.route p;
}

abbrev pub link_behind : RouteTable → ℕ → Found → Option RouteTable
link_behind t node (at_node prev) = some (record t { links = link_after t.links prev node })
link_behind t node null = none
link_behind t node out_of_fuel = none

unfoldable pub net_route_add : ℕ → RouteTable → ℕ → ℕ → ℕ → ℕ → Option ℕ → ℕ → Option RouteTable
unfolding place_loop
net_route_add rounds t head node dst mask gateway intf =
    let r : NetRoute = record {
      dst = dst;
      mask = mask;
      gateway = gateway_bits gateway;
      intf = intf;
    } in
    let t' = with_route t node r in
    link_behind t' node (place_loop t' head rounds mask (t'.links.next head))

unfoldable pub net_route_next_addr : NetRoute → ℕ → ℕ
net_route_next_addr r dst = if r.gateway == 0 then dst else r.gateway
