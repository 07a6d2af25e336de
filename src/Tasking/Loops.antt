-- ===== src/Tasking/Loops.antt =====
-- src/tasking.c: the loops that look for a pid in the ring.
use aijak.Common.{ℕ, zero, suc, ◌≡◌, ◌<◌, refl, ap, ◌∙◌, ◌≢◌, ◌↔◌, ◌⊎◌, arith, Bool, true, false}
use aijak.Common.{Option, some, none, List, [], ◌∷◌, length, ◌==◌, if◌then◌else◌, if-map}
use aijak.Link.Ring.{NotIn, Chain, Ring}
use aijak.Tasking.{Kernel, returned, pid_loop, with_pit, found, mark, is_pid_running, current, kill}

-- The first of some processes with a pid.
unfoldable pub first_with : Kernel → ℕ → List ℕ → Option ℕ
first_with k pid [] = none
first_with k pid (p ∷ ps) =
    let rest = first_with k pid ps in if (k.proc p).pid == pid then some p else rest

pid_loop-Chain :
    (k : Kernel) (pid orig : ℕ) (rounds p : ℕ) (ps : List ℕ)
    → Chain k.links p ps orig
    → NotIn orig ps
    → length ps < rounds
    → pid_loop rounds k pid orig p ≡ some (first_with k pid (p ∷ ps))
unfolding pid_loop first_with
pid_loop-Chain k pid orig zero p ps ch out h = absurd (omega arith)
pid_loop-Chain k pid orig (suc rounds) p [] ch out h =
    let last : (k.links.next p == orig) ≡ true = ground (arith, ch.0) in
    rw last (if-map some ((k.proc p).pid == pid) refl refl)
pid_loop-Chain k pid orig (suc rounds) p (q ∷ ps) ch out h =
    let go : (k.links.next p == orig) ≡ false = ground (arith, ch.0, out.0) in
    let ih = pid_loop-Chain k pid orig rounds q ps ch.2 out.1 (omega arith) in
    rw go (if-map some ((k.proc p).pid == pid) refl (ap (pid_loop rounds k pid orig) ch.0 ∙ ih))

-- Some process has the pid.
abbrev pub HasPid : Kernel → ℕ → List ℕ → Type 0
HasPid k pid [] = ⊥
HasPid k pid (p ∷ ps) = ((k.proc p).pid ≡ pid) ⊎ HasPid k pid ps

abbrev pub is_found : Option ℕ → Bool
is_found none = false
is_found (some p) = true

first_with-HasPid :
    (k : Kernel) (pid : ℕ) (ps : List ℕ) → (is_found (first_with k pid ps) ≡ true) ↔ HasPid k pid ps
unfolding first_with
first_with-HasPid k pid [] = ((λ e. cc), (λ h. elim h [ ]))
first_with-HasPid k pid (p ∷ ps) = ground (arith, first_with-HasPid k pid ps)

found-eq : (k : Kernel) (o : Option ℕ) → found k (some o) ≡ returned (is_found o, with_pit k 1)
found-eq k none = refl
found-eq k (some p) = refl

-- On a ring, with a round for each process of it, `is_pid_running` returns whether a process of
-- the ring has the pid. It changes nothing but the flag of the timer.
pub is_pid_running-HasPid :
    (k : Kernel) (pid rounds : ℕ) (rest : List ℕ)
    → Ring k.links (k.c ∷ rest)
    → length rest < rounds
    → (b : Bool) × (is_pid_running rounds k pid ≡ returned (b, with_pit (with_pit k 0) 1))
      × ((b ≡ true) ↔ HasPid k pid (k.c ∷ rest))
unfolding is_pid_running
is_pid_running-HasPid k pid rounds rest r h =
    let k' = with_pit k 0 in
    let o = first_with k' pid (k.c ∷ rest) in
    (
      is_found o,
      ap (found k') (pid_loop-Chain k' pid k.c rounds k.c rest r.0 r.1.0 h) ∙ found-eq k' o,
      first_with-HasPid k' pid (k.c ∷ rest),
    )

-- `kill` of a process other than the first and the current one marks the first of the ring with
-- the pid, if there is one, as a zombie, and changes nothing else.
pub kill-mark :
    (printed : Kernel → Kernel) (k : Kernel) (pid rounds : ℕ) (rest : List ℕ)
    → Ring k.links (k.c ∷ rest)
    → length rest < rounds
    → pid ≢ 1
    → pid ≢ (current k).pid
    → kill printed rounds k pid ≡ mark k (some (first_with k pid rest))
unfolding kill first_with
kill-mark printed k pid rounds rest r h a b =
    let one : (pid == 1) ≡ false = ground (arith, a) in
    let me : (pid == (current k).pid) ≡ false = ground (arith, b) in
    let other : ((k.proc k.c).pid == pid) ≡ false = ground (arith, b) in
    rw (one, me)
      (ap (mark k) (pid_loop-Chain k pid k.c rounds k.c rest r.0 r.1.0 h) ∙ rw other refl)
