-- ===== src/Tasking.antt =====
-- src/tasking.c: processes in a ring, of which one is current. A process is named by the address
-- of its structure, and `Run` says how a call ends.
pub mod Switch
pub mod Create
pub mod Reaper
pub mod Ring
pub mod Loops
pub mod Kill
pub mod Frame
use mathlib.Core.Option
use aijak.Common.{
  ℕ, zero, suc, ◌+◌, ◌-◌, ◌^◌, Bool, true, false, ◌||◌, Option, none, some, List, [], ◌∷◌,
}
use aijak.Common.{◌==◌, if◌then◌else◌, u32}
use aijak.Link.{Store, set_prev, set_next}
use aijak.Memory.Bytes.{Mem, write32}
use aijak.Memory.Heap.{Heap, Outcome, null, pointer, fatal, diverged, malloc, free}
use aijak.Memory.Pages.{pfree}
use aijak.Timer.{Pit, set_task, enable_task}

pub data ProcessState : Type 0 where
  alive : ProcessState
  zombie : ProcessState
  dead : ProcessState

pub record Process : Type 0 where
  pub name : ℕ
  pub pid : ℕ
  pub esp : ℕ
  pub stacktop : ℕ
  pub eip : ℕ
  pub cr3 : ℕ
  pub state : ProcessState

-- The globals of the file, the links and the other fields of the processes, and the parts of the
-- kernel that the file changes.
pub record Kernel : Type 0 where
  pub links : Store
  pub proc : ℕ → Process
  pub heap : Heap
  pub pit : Pit
  pub c : ℕ
  pub lpid : ℕ
  pub enabled : Bool

-- A panic does not return, nor does a loop that runs on.
pub data Run (A : Type 0) : Type 0 where
  returned : A → Run A
  panicked : Run A
  endless : Run A

abbrev pub current : Kernel → Process
current k = k.proc k.c

abbrev pub with_pit : Kernel → ℕ → Kernel
with_pit k i = record k { pit = set_task k.pit i }

abbrev pub set_proc : Kernel → ℕ → Process → Kernel
set_proc k p v = record k { proc = λ q. if q == p then v else k.proc q }

unfoldable pub is_tasking : Kernel → Bool
is_tasking k = k.enabled

unfoldable pub p_proc : Kernel → ℕ
p_proc k = k.c

unfoldable pub p_name : Kernel → ℕ
p_name k = (current k).name

unfoldable pub p_pid : Kernel → ℕ
p_pid k = (current k).pid

-- The switch of `schedule`, apart from the registers.
unfoldable pub schedule : Kernel → Kernel
schedule k = record k { c = k.links.next k.c }

-- `int $0x79`, at which `schedule` stands.
unfoldable pub schedule_noirq : Kernel → Kernel
unfolding schedule
schedule_noirq k = if k.enabled then schedule k else k

-- `p->prev->next = p->next; p->next->prev = p->prev`
unfoldable pub unlink : Store → ℕ → Store
unlink s p = let t = set_next s (s.prev p) (s.next p) in set_prev t (t.next p) (t.prev p)

-- `_kill` behind its `mprint`: the structure is read after it was freed, which leaves its bytes.
unfoldable pub remove_current : Kernel → Kernel
unfolding free pfree unlink set_task schedule_noirq
remove_current k =
    let p = current k in
    let k1 = with_pit k 0 in
    let heap' = pfree (free (free k1.heap p.stacktop) k1.c) p.cr3 in
    let k2 = record k1 { heap = heap'; links = unlink k1.links k1.c } in
    schedule_noirq (with_pit k2 1)

-- `_kill`. The mutex of `mprint` lets other processes run before the process goes on: `printed` is
-- what the kernel is then.
unfoldable pub kill_current : (Kernel → Kernel) → Kernel → Run Kernel
unfolding remove_current
kill_current printed k =
    if (current k).pid == 1 then panicked else returned (remove_current (printed k))

-- The first of the loops over the ring that begin at `p`: the first process with a pid. The rounds
-- bound a loop that has no bound in the source; `none` is a loop that they do not finish.
unfoldable pub pid_loop : ℕ → Kernel → ℕ → ℕ → ℕ → Option (Option ℕ)
pid_loop zero k pid orig p = none
pid_loop (suc rounds) k pid orig p =
    let next = k.links.next p in
    let rest = pid_loop rounds k pid orig next in
    if (k.proc p).pid == pid then some (some p) else (if next == orig then some none else rest)

abbrev pub mark : Kernel → Option (Option ℕ) → Run Kernel
mark k none = endless
mark k (some none) = returned k
mark k (some (some p)) = returned (set_proc k p (record (k.proc p) { state = zombie }))

-- Where `_kill` switches to another process it does not come back.
unfoldable pub kill : (Kernel → Kernel) → ℕ → Kernel → ℕ → Run Kernel
unfolding kill_current pid_loop
kill printed rounds k pid =
    let loop = λ (k' : Kernel). mark k' (pid_loop rounds k' pid k'.c k'.c) in
    if pid == 1
    then panicked
    else if pid == (current k).pid
    then (elim (kill_current printed k) [
      | returned k' ↦ if k'.c == k.c then loop k' else returned k'
      | panicked ↦ panicked
      | endless ↦ endless
    ])
    else loop k

abbrev pub sigill : ℕ
sigill = 1

abbrev pub sigterm : ℕ
sigterm = 2

abbrev pub sigsegv : ℕ
sigsegv = 3

unfoldable pub notified : (Kernel → Kernel) → Kernel → ℕ → Run Kernel
unfolding kill_current
notified printed k sig =
    if (sig == sigill) || ((sig == sigterm) || (sig == sigsegv))
    then kill_current printed k
    else returned k

-- Every process has `__notified` as its `notify`.
unfoldable pub send_sig : (Kernel → Kernel) → Kernel → ℕ → Run Kernel
unfolding notified
send_sig printed k sig = notified printed k sig

abbrev pub found : Kernel → Option (Option ℕ) → Run (Bool × Kernel)
found k none = endless
found k (some none) = returned (false, with_pit k 1)
found k (some (some p)) = returned (true, with_pit k 1)

unfoldable pub is_pid_running : ℕ → Kernel → ℕ → Run (Bool × Kernel)
unfolding pid_loop set_task
is_pid_running rounds k pid = let k' = with_pit k 0 in found k' (pid_loop rounds k' pid k'.c k'.c)

-- `p->next = c->next; p->next->prev = p; p->prev = c; c->next = p`
unfoldable pub add_process_alone : Kernel → ℕ → Kernel
add_process_alone k p =
    let s1 = set_next k.links p (k.links.next k.c) in
    let s2 = set_prev s1 (s1.next p) p in
    let s3 = set_prev s2 p k.c in record k { links = set_next s3 k.c p }

unfoldable pub add_process : Kernel → ℕ → ℕ × Kernel
unfolding add_process_alone set_task
add_process k p = let k' = with_pit (add_process_alone (with_pit k 0) p) 1 in ((k'.proc p).pid, k')
