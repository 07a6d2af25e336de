-- ===== src/Net/Interfaces.antt =====
-- src/net/intf.c: the list of interfaces, over the heap.
use aijak.Common.{ℕ, Option, none, some, ◌==◌, if◌then◌else◌}
use aijak.Link.{Store, link_init, link_before}
use aijak.Memory.Heap.{Heap, Outcome, null, pointer, fatal, diverged, malloc}
use aijak.Net.Packet.{NetIntf, null_eth_addr}

-- The interfaces by their addresses. As the link is the first field of an interface, a node of the
-- list has its address.
pub record Interfaces : Type 0 where
  pub links : Store
  pub intf_list : ℕ
  pub intf : ℕ → NetIntf

-- The size of `NetIntf` on the i386.
abbrev pub sizeof_intf : ℕ
sizeof_intf = 40

abbrev pub set_intf : Interfaces → ℕ → NetIntf → Interfaces
set_intf s p i = record s { intf = λ q. if q == p then i else s.intf q }

abbrev pub created : Interfaces → Outcome → Option (ℕ × Heap × Interfaces)
created s (pointer p h) = some (
  p,
  h,
  set_intf (record s { links = link_init s.links p }) p
      (record { eth_addr = null_eth_addr; ip_addr = 0; broadcast_addr = 0 }),
)
created s (null h) = none
created s fatal = none
created s diverged = none

-- `rounds` bounds the loop of `malloc`; `none` is no memory.
unfoldable pub net_intf_create : ℕ → Heap → Interfaces → Option (ℕ × Heap × Interfaces)
unfolding malloc link_init
net_intf_create rounds h s = created s (malloc rounds h sizeof_intf)

unfoldable pub net_intf_add : Interfaces → ℕ → Interfaces
unfolding link_before
net_intf_add s p = record s { links = link_before s.links s.intf_list p }
