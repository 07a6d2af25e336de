-- ===== src/Tasking/Kill.antt =====
-- src/tasking.c: a process that ends itself, and one that the reaper finds.
use mathlib.Core.Path.{subst}
use aijak.Common.{ℕ, ◌≡◌, ◌≢◌, refl, sym, inl, inr, arith, true, false, List, ◌∷◌, ◌++◌}
use aijak.Common.{◌==◌, if◌then◌else◌, Bool-cases}
use aijak.Link.Ring.{Ring}
use aijak.Memory.Heap.{free}
use aijak.Memory.Pages.{pfree}
use aijak.Tasking.{
  remove_current, Kernel, returned, panicked, current, with_pit, unlink, schedule, schedule_noirq,
  kill_current,
}
use aijak.Tasking.Reaper.{is_zombie, reap, jack_round}
use aijak.Tasking.Ring.{unlink-Ring, unlink-Ring_head, unlink_next}

-- While tasking is enabled: the process of pid 1 is not killed. Any other current process, with `n`
-- behind it in the ring when its message was printed and it runs again, is taken out of the ring, and
-- `n` becomes the current one.
pub kill_current-Ring :
    (printed : Kernel → Kernel) (k : Kernel) (n : ℕ) (rest : List ℕ)
    → (printed k).c ≡ k.c
    → Ring (printed k).links (k.c ∷ n ∷ rest)
    → (printed k).enabled ≡ true
    → ((current k).pid ≡ 1 → kill_current printed k ≡ panicked)
      × ((current k).pid ≢ 1
          → (k' : Kernel) × (kill_current printed k ≡ returned k')
            × (k'.c ≡ n)
            × Ring k'.links (n ∷ rest))
unfolding kill_current remove_current schedule_noirq schedule
kill_current-Ring printed k n rest same r on = (
  (λ e. let test : ((current k).pid == 1) ≡ true = ground arith in rw test refl),
  (λ ne.
      let test : ((current k).pid == 1) ≡ false = ground arith in
      let k0 = printed k in
      let ring : Ring k0.links (k0.c ∷ n ∷ rest) =
        subst (λ (c : ℕ). Ring k0.links (c ∷ n ∷ rest)) (sym same) r in
      let k1 = with_pit k0 0 in
      let p = current k0 in
      let k2 =
        with_pit
          (record k1 {
            heap = pfree (free (free k1.heap p.stacktop) k1.c) p.cr3;
            links = unlink k1.links k1.c;
          })
          1 in
      (
        schedule k2,
        rw (test, on) refl,
        unlink_next k0.links k0.c n ring.0.0,
        unlink-Ring_head k0.links k0.c n rest ring,
      )),
)

schedule_noirq_links : (k : Kernel) → (schedule_noirq k).links ≡ k.links
unfolding schedule_noirq schedule
schedule_noirq_links k = elim (Bool-cases k.enabled) [ inl e ↦ rw e refl | inr e ↦ rw e refl ]

schedule_noirq-Ring :
    (k : Kernel) (xs : List ℕ) → Ring k.links xs → Ring (schedule_noirq k).links xs
schedule_noirq-Ring k xs r = subst (λ s. Ring s xs) (sym (schedule_noirq_links k)) r

-- A round of the reaper takes the next process out of the ring if it is a zombie, and leaves the
-- ring as it is if not.
pub jack_round-Ring :
    (k : Kernel) (p q : ℕ) (pre post : List ℕ)
    → Ring k.links (k.c ∷ (pre ++ q ∷ post))
    → k.links.next p ≡ q
    → q ≢ k.c
    → Ring
        ((jack_round k p).1.links)
        (k.c ∷ (if is_zombie (k.proc q).state then pre ++ post else pre ++ q ∷ post))
unfolding jack_round reap
jack_round-Ring k p q pre post r e ne =
    let other : (q == k.c) ≡ false = ground (arith, ne) in
    elim (Bool-cases (is_zombie (k.proc q).state)) [
      | inl z ↦
          rw (e, other, z)
            (schedule_noirq-Ring (reap k q) (k.c ∷ (pre ++ post))
              (unlink-Ring k.links k.c pre q post r))
      | inr z ↦ rw (e, other, z) (schedule_noirq-Ring k (k.c ∷ (pre ++ q ∷ post)) r)
    ]
