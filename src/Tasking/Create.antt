-- ===== src/Tasking/Create.antt =====
-- src/tasking.c: the creation of processes, and the start of the scheduler.
use aijak.Common.{ℕ, ◌+◌, true, Option, List, [], ◌∷◌, u32}
use aijak.Link.{set_prev, set_next}
use aijak.Memory.Heap.{Outcome, null, pointer, fatal, diverged, malloc}
use aijak.Timer.{enable_task}
use aijak.Tasking.{
  Kernel, alive, Run, returned, panicked, endless, current, set_proc, add_process_alone,
}
use aijak.Tasking.Switch.{Registers, pushes, restore}

abbrev pub sizeof_process : ℕ
sizeof_process = 40

abbrev pub stack_size : ℕ
stack_size = 4096

-- The words on the stack of a new process, the first one pushed first.
abbrev pub first_frame : ℕ → ℕ → List ℕ
first_frame addr top =
    0x202 ∷ 0x8 ∷ addr ∷ 0 ∷ 0 ∷ 0 ∷ 0 ∷ 0 ∷ 0 ∷ top ∷ 0x10 ∷ 0x10 ∷ 0x10 ∷ 0x10 ∷ []

-- The structure at `p` and the stack at `stack`, once both are allocated.
unfoldable pub set_up : Kernel → ℕ → ℕ → ℕ → ℕ → ℕ → Kernel
unfolding pushes
set_up k p stack name addr cr3 =
    let (mem', esp) =
      pushes k.heap.mem (stack + stack_size) (first_frame addr (stack + stack_size)) in
    let lpid' = u32 (k.lpid + 1) in
    record (set_proc k p (record {
      name = name;
      pid = lpid';
      esp = esp;
      stacktop = stack;
      eip = addr;
      cr3 = cr3;
      state = alive;
    })) {
      heap = record (k.heap) { mem = mem' };
      links = set_next (set_prev k.links p 0) p 0;
      lpid = lpid';
    }

abbrev pub with_stack : Kernel → ℕ → ℕ → ℕ → ℕ → Outcome → Run (ℕ × Kernel)
with_stack k p name addr cr3 (pointer stack heap') =
    returned (p, set_up (record k { heap = heap' }) p stack name addr cr3)
with_stack k p name addr cr3 (null heap') = panicked
with_stack k p name addr cr3 fatal = panicked
with_stack k p name addr cr3 diverged = endless

abbrev pub with_process : ℕ → Kernel → ℕ → ℕ → ℕ → Outcome → Run (ℕ × Kernel)
with_process rounds k name addr cr3 (pointer p heap') =
    with_stack (record k { heap = heap' }) p name addr cr3 (malloc rounds heap' stack_size)
with_process rounds k name addr cr3 (null heap') = panicked
with_process rounds k name addr cr3 fatal = panicked
with_process rounds k name addr cr3 diverged = endless

-- The rounds are those of the loop in `malloc`; `cr3` is the register. `malloc` gives no null
-- pointer for these sizes.
unfoldable pub create_process : ℕ → Kernel → ℕ → ℕ → ℕ → Run (ℕ × Kernel)
unfolding malloc set_up
create_process rounds k name addr cr3 =
    with_process rounds k name addr cr3 (malloc rounds k.heap sizeof_process)

-- `c = createProcess(…); c->next = c; c->prev = c; __addProcess(createProcess(…))`
abbrev pub first_process : ℕ × Kernel → Kernel
first_process (p, k) = record k { c = p; links = set_prev (set_next k.links p p) p p }

abbrev pub second_process : Run (ℕ × Kernel) → Run Kernel
second_process (returned (p, k)) = returned (add_process_alone k p)
second_process panicked = panicked
second_process endless = endless

abbrev pub and_second : ℕ → ℕ → ℕ → ℕ → Run (ℕ × Kernel) → Run Kernel
and_second rounds name addr cr3 (returned first) =
    second_process (create_process rounds (first_process first) name addr cr3)
and_second rounds name addr cr3 panicked = panicked
and_second rounds name addr cr3 endless = endless

-- `tasking_init` up to `__exec`. The names and the entries of the two processes are arguments.
unfoldable pub tasking_init : ℕ → Kernel → ℕ → ℕ → ℕ → ℕ → ℕ → Run Kernel
unfolding create_process add_process_alone
tasking_init rounds k idle_name idle_thread task1_name task1 cr3 =
    and_second rounds task1_name task1 cr3 (create_process rounds k idle_name idle_thread cr3)

-- `__exec`: the registers with which the first process begins.
unfoldable pub exec : Kernel → Option Registers
unfolding restore
exec k = restore k.heap.mem (current k).esp

-- `idle_thread` before `__late_init`.
unfoldable pub idle_thread_begin : Kernel → Kernel
unfolding enable_task
idle_thread_begin k = record k { pit = enable_task k.pit; enabled = true }
