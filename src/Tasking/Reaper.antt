-- ===== src/Tasking/Reaper.antt =====
-- src/tasking.c: `jack_the_ripper`, the process that frees zombies.
use aijak.Common.{ℕ, ◌==◌, if◌then◌else◌, Bool, true, false}
use aijak.Memory.Heap.{free}
use aijak.Timer.{set_task}
use aijak.Tasking.{Kernel, ProcessState, alive, zombie, dead, with_pit, unlink, schedule_noirq}

abbrev pub is_zombie : ProcessState → Bool
is_zombie zombie = true
is_zombie alive = false
is_zombie dead = false

unfoldable pub reap : Kernel → ℕ → Kernel
unfolding unlink free set_task
reap k p =
    let k1 = with_pit k 0 in
    let k2 = record k1 { links = unlink k1.links p } in
    with_pit (record k2 { heap = free (free k2.heap (k2.proc p).stacktop) p }) 1

-- One round of the loop at `p`, with the place where the next one begins. Where that is the
-- process itself, it goes on without a switch.
unfoldable pub jack_round : Kernel → ℕ → ℕ × Kernel
unfolding reap schedule_noirq
jack_round k p =
    let q = k.links.next p in
    if q == k.c
    then (q, k)
    else (q, schedule_noirq (if is_zombie (k.proc q).state then reap k q else k))
