-- ===== src/Mutex.antt =====
-- src/mutex.c: the lock, as steps of the processes that use it.
use aijak.Common.{
  ℕ, false, ◌↔◌, ◌*◌, ◌/◌, ◌%◌, ◌≡◌, ◌≢◌, sym, ap, ◌∙◌, ◌⊎◌, inl, inr, arith, Bool, true,
}
use aijak.Common.{◌==◌, if◌then◌else◌}
use native.Mathlib.Decide.{ℕ_discrete}

-- A process outside the lock, in the loop of `mutex_lock`, or between its return and
-- `mutex_unlock`.
pub data Phase : Type 0 where
  outside : Phase
  retrying : Phase
  holding : Phase

-- The 32 bits at the mutex, of which `locked` is the lowest byte, and the phase of each process.
pub record System : Type 0 where
  pub word : ℕ
  pub phase : ℕ → Phase

-- `lock; cmpxchg %ebx, (mutex)` with 1 in `ebx`: the new word, and the new `eax`.
abbrev pub cmpxchg : ℕ → ℕ → ℕ × ℕ
cmpxchg eax word = if word == eax then (1, eax) else (word, word)

abbrev pub set_phase : System → ℕ → Phase → ℕ → Phase
set_phase s p phase q = if q == p then phase else s.phase q

-- A round of the loop of `mutex_lock`; `retry` is `al`.
abbrev pub exchanged : System → ℕ → ℕ × ℕ → System
exchanged s p (word, eax) = record {
  word = word;
  phase = set_phase s p (if eax % 256 == 0 then holding else retrying);
}

-- `eax` is what the register holds at the exchange. The code clears it in another `asm` statement,
-- between which and the exchange the compiler may use it: without optimisation, as in the Makefile, it
-- loads the address of the mutex there.
unfoldable pub lock_round : ℕ → System → ℕ → System
lock_round eax s p = exchanged s p (cmpxchg eax s.word)

-- `m->locked = 0`
unfoldable pub mutex_unlock : System → ℕ → System
mutex_unlock s p = record { word = s.word / 256 * 256; phase = set_phase s p outside }

set_phase-own : (s : System) (p : ℕ) (x : Phase) → set_phase s p x p ≡ x
set_phase-own s p x = ground arith

set_phase-other : (s : System) (p q : ℕ) (x : Phase) → q ≢ p → set_phase s p x q ≡ s.phase q
set_phase-other s p q x ne = ground arith

with_phase : System → ℕ → ℕ → Phase → System
with_phase s word p phase = record { word = word; phase = set_phase s p phase }

kept_out : retrying ≢ holding
kept_out e = cc

-- An exchange of a word that is as `eax` stores 1, and one of another word stores nothing.
lock_round-cases :
    (eax : ℕ) (s : System) (p : ℕ)
    → ((s.word ≡ eax)
        × (lock_round eax s p ≡ with_phase s 1 p (if eax % 256 == 0 then holding else retrying)))
      ⊎ ((s.word ≢ eax)
          × (lock_round eax s p
              ≡ with_phase s s.word p (if s.word % 256 == 0 then holding else retrying)))
unfolding lock_round with_phase
lock_round-cases eax s p = elim (ℕ_discrete s.word eax) [
  | yes e ↦
      let same : (s.word == eax) ≡ true = ground (arith, e) in
      inl (e, ap (λ (b : Bool). exchanged s p (if b then (1, eax) else (s.word, s.word))) same)
  | no ne ↦
      let other : (s.word == eax) ≡ false = ground (arith, ne) in
      inr (ne, ap (λ (b : Bool). exchanged s p (if b then (1, eax) else (s.word, s.word))) other)
]

lock_round-free :
    (eax : ℕ) (s : System) (p : ℕ)
    → s.word % 256 ≡ 0
    → ((s.word ≡ eax) × (lock_round eax s p ≡ with_phase s 1 p holding))
      ⊎ ((s.word ≢ eax) × (lock_round eax s p ≡ with_phase s s.word p holding))
lock_round-free eax s p clear =
    let low : (s.word % 256 == 0) ≡ true = ground (arith, clear) in
    let gets = λ (w : ℕ) (b : Bool). with_phase s w p (if b then holding else retrying) in
    elim (lock_round-cases eax s p) [
      | inl (e, same) ↦
          let low_eax : (eax % 256 == 0) ≡ true = ap (λ (w : ℕ). w % 256 == 0) (sym e) ∙ low in
          inl (e, same ∙ ap (gets 1) low_eax)
      | inr (ne, same) ↦ inr (ne, same ∙ ap (gets s.word) low)
    ]

-- The low byte of the four bytes at the mutex is 0, so that the lock is free, and two processes make
-- a round of `mutex_lock` one after the other. The first one gets the lock. The second one is kept out
-- exactly if all four bytes were equal to what `eax` held at the exchange; otherwise nothing was
-- stored, and both of them hold the lock.
pub lock_round-excludes_iff :
    (eax : ℕ) (s : System) (p q : ℕ)
    → s.word % 256 ≡ 0
    → p ≢ q
    → let t = lock_round eax (lock_round eax s p) q in
      (t.phase p ≡ holding) × ((t.phase q ≢ holding) ↔ (s.word ≡ eax))
unfolding with_phase
lock_round-excludes_iff eax s p q clear ne = elim (lock_round-free eax s p clear) [
  | inl (e, first) ↦
      let one = with_phase s 1 p holding in
      let second : lock_round eax (lock_round eax s p) q ≡ with_phase one 1 q retrying =
        ap (λ (u : System). lock_round eax u q) first ∙ elim (lock_round-cases eax one q) [
          | inl (f, _) ↦ absurd (omega (arith, clear, e, f))
          | inr (_, same) ↦ same
        ] in
      rw second (
        set_phase-other one q p retrying ne ∙ set_phase-own s p holding,
        ((λ _. e), (λ _ h. kept_out (sym (set_phase-own one q retrying) ∙ h))),
      )
  | inr (other, first) ↦
      let one = with_phase s s.word p holding in
      let second : lock_round eax (lock_round eax s p) q ≡ with_phase one s.word q holding =
        ap (λ (u : System). lock_round eax u q) first ∙ elim (lock_round-free eax one q clear) [
          | inl (e, _) ↦ absurd (other e)
          | inr (_, same) ↦ same
        ] in
      rw second (
        set_phase-other one q p holding ne ∙ set_phase-own s p holding,
        ((λ out. absurd (out (set_phase-own one q holding))), (λ e. absurd (other e))),
      )
]
