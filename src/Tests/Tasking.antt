-- ===== src/Tests/Tasking.antt =====
-- Three processes, for the theorems on src/tasking.c.
use aijak.Common.{ℕ, ◌≡◌, ◌≢◌, refl, true, some, [], ◌∷◌, arith}
use aijak.Common.{◌==◌, if◌then◌else◌}
use aijak.Link.{Store}
use aijak.Link.Ring.{Ring}
use aijak.Memory.Heap.{Heap}
use aijak.Tasking.{
  Kernel, Process, ProcessState, alive, zombie, returned, panicked, current, kill_current,
}
use aijak.Tasking.Switch.{restore, save}
use aijak.Tasking.Reaper.{jack_round}
use aijak.Tasking.Ring.{schedules, schedules-reaches}
use aijak.Tasking.Kill.{kill_current-Ring, jack_round-Ring}
use aijak.Tasking.Frame.{first_registers, shifted, restore-save, set_up-first_registers}
use aijak.Tasking.Create.{set_up}

-- Processes 10, 20 and 30 in a ring; the first one runs, the last one is a zombie.
abbrev three : Store
three = record {
  next = λ p. if p == 10 then 20 else (if p == 20 then 30 else (if p == 30 then 10 else 0));
  prev = λ p. if p == 10 then 30 else (if p == 20 then 10 else (if p == 30 then 20 else 0));
}

abbrev process : ℕ → ProcessState → Process
process pid state = record {
  name = 0;
  pid = pid;
  esp = 0;
  stacktop = 0;
  eip = 0;
  cr3 = 0;
  state = state;
}

abbrev heap : Heap
heap = record {
  mem = λ a. 0;
  last_alloc = 4096;
  heap_end = 65536;
  heap_begin = 4096;
  pheap_begin = 65536;
  pheap_end = 196608;
  pheap_desc = 0;
  memory_used = 0;
}

abbrev kernel : Kernel
kernel = record {
  links = three;
  proc = λ p.
      if p == 10 then process 2 alive else (if p == 30 then process 4 zombie else process 3 alive);
  heap = heap;
  pit = record { task = 1; task_was_on = true; time = 0 };
  c = 10;
  lpid = 4;
  enabled = true;
}

three-Ring : Ring three (10 ∷ 20 ∷ 30 ∷ [])
three-Ring = ground arith

schedules-reaches_example : ((schedules 2 kernel).c ≡ 30) × ((schedules 3 kernel).c ≡ 10)
schedules-reaches_example = schedules-reaches kernel (20 ∷ []) 30 [] three-Ring

kill_current-Ring_example :
    ((current kernel).pid ≡ 1 → kill_current (λ k. k) kernel ≡ panicked)
    × ((current kernel).pid ≢ 1
        → (k' : Kernel) × (kill_current (λ k. k) kernel ≡ returned k')
          × (k'.c ≡ 20)
          × Ring k'.links (20 ∷ 30 ∷ []))
kill_current-Ring_example = kill_current-Ring (λ k. k) kernel 20 (30 ∷ []) refl three-Ring refl

jack_round-Ring_example : Ring ((jack_round kernel 20).1.links) (10 ∷ 20 ∷ [])
jack_round-Ring_example = jack_round-Ring kernel 20 30 (20 ∷ []) [] three-Ring refl (omega arith)

restore-save_example :
    restore
      (save (λ a. 0) 12288 (first_registers 0x1000 0)).0
      (save (λ a. 0) 12288 (first_registers 0x1000 0)).1
    ≡ some (shifted 12272 (first_registers 0x1000 0))
restore-save_example =
    restore-save (λ a. 0) 12288 (first_registers 0x1000 0) (ground arith) (omega arith)
      (omega arith)

set_up-first_registers_example :
    let k' = set_up kernel 5000 8192 0 0x1000 0 in
    ((k'.proc 5000).pid ≡ 5)
    × ((k'.proc 5000).state ≡ alive)
    × (restore k'.heap.mem (k'.proc 5000).esp ≡ some (first_registers 0x1000 12288))
set_up-first_registers_example =
    set_up-first_registers kernel 5000 8192 0 0x1000 0 (omega arith) (omega arith)
