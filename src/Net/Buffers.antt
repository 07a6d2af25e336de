-- ===== src/Net/Buffers.antt =====
-- src/net/buf.c: the list of free packet buffers, over the heap. The link is the first field of a
-- buffer, so that a node of the list has the address of its buffer.
pub mod Laws
use aijak.Common.{ℕ, ◌+◌, Option, none, some, ◌==◌, if◌then◌else◌, u32, sub32}
use aijak.Link.{Store, set_prev, set_next, link_after, link_remove, link_list_is_empty}
use aijak.Memory.Heap.{Heap, Outcome, null, pointer, fatal, diverged, malloc, free}
use aijak.Net.Packet.{net_buf_size, net_buf_start}

-- The buffers by their addresses. The links stand beside the heap, so that what another owner of
-- the same memory writes over them is not seen.
pub record Pool : Type 0 where
  pub links : Store
  pub free_bufs : ℕ
  pub heap : Heap
  pub start : ℕ → ℕ
  pub end : ℕ → ℕ
  pub ref_count : ℕ → ℕ
  pub alloc_count : ℕ

-- `f[x] = v`
abbrev pub assign : (ℕ → ℕ) → ℕ → ℕ → ℕ → ℕ
assign f x v y = if y == x then v else f y

-- The fields that a buffer gets when it is handed out.
unfoldable pub prepared : Pool → ℕ → Pool
prepared p buf = record p {
  links = set_next (set_prev p.links buf 0) buf 0;
  start = assign p.start buf (buf + net_buf_start);
  end = assign p.end buf (buf + net_buf_start);
  ref_count = assign p.ref_count buf 1;
  alloc_count = u32 (p.alloc_count + 1);
}

abbrev pub from_heap : Pool → Outcome → Option (ℕ × Pool)
from_heap p (pointer buf h) = some (buf, prepared (record p { heap = h }) buf)
from_heap p (null h) = none
from_heap p fatal = none
from_heap p diverged = none

-- `net_alloc_buf`; `none` where `malloc` gives no memory. `rounds` bounds the loop of `malloc`.
unfoldable pub alloc_buf : ℕ → Pool → Option (ℕ × Pool)
unfolding prepared link_list_is_empty link_remove
alloc_buf rounds p =
    if link_list_is_empty p.links p.free_bufs
    then from_heap p (malloc rounds p.heap net_buf_size)
    else (let buf = p.links.next p.free_bufs in
        some (buf, prepared (record p { links = link_remove p.links buf }) buf))

-- `net_release_buf`
unfoldable pub release_buf : Pool → ℕ → Pool
unfolding link_after free
release_buf p buf =
    let left = sub32 (p.ref_count buf) 1 in
    let p' : Pool = record p { ref_count = assign p.ref_count buf left } in
    if left == 0
    then record p' {
      alloc_count = sub32 p.alloc_count 1;
      links = link_after p.links p.free_bufs buf;
      heap = free p.heap buf;
    }
    else p'
