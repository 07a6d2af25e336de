-- ===== src/Interrupt/Laws.antt =====
-- src/interrupt/: where an interrupt goes.
use aijak.Common.{
  ℕ, zero, suc, ◌+◌, ◌-◌, ◌*◌, ◌/◌, ◌^◌, ◌≤◌, ◌<◌, ◌≡◌, ◌≢◌, refl, sym, ap, ◌∙◌, ◌⊎◌, inl, inr,
  arith,
}
use aijak.Common.{
  Bool, true, false, Option, none, some, List, [], ◌∷◌, length, get_elem?, set, ◌==◌, ltb,
  if◌then◌else◌,
}
use aijak.Common.{u8, get_elem?-set_self}
use aijak.Common.Bits.{bit_and-mod}
use native.Mathlib.Decide.{ℕ_discrete}
use aijak.Ports.{Hardware}
use aijak.Interrupt.{
  Gate, gate_of, set_gates, idt_init, irq_gates, irq_setroutine, acknowledged, calls, reads_outside,
  send_eoi, irq_handler, with_routine,
}

-- The address in a gate is the handler's.
gate_of-address :
    (handler : ℕ)
    → handler < 2 ^ 32
    → (gate_of handler).high_offset * 2 ^ 16 + (gate_of handler).low_offset ≡ handler
gate_of-address handler h =
    rw (bit_and-mod 16 handler, bit_and-mod 16 (handler / 2 ^ 16)) (omega arith)

set_gates-inside :
    (idt : ℕ → Gate) (entry : ℕ → ℕ) (from count i : ℕ)
    → i < count
    → set_gates idt entry from count (from + i) ≡ gate_of (entry i)
unfolding set_gates
set_gates-inside idt entry from zero i h = absurd (omega arith)
set_gates-inside idt entry from (suc count) i h = elim (ℕ_discrete i count) [
  | yes e ↦
      let here : (from + i == from + count) ≡ true = ground (arith, e) in
      rw here (ap (λ (j : ℕ). gate_of (entry j)) (sym e))
  | no ne ↦
      let other : (from + i == from + count) ≡ false = ground (arith, ne) in
      rw other (set_gates-inside idt entry from count i (omega (arith, ne)))
]

set_gates-outside :
    (idt : ℕ → Gate) (entry : ℕ → ℕ) (from count i : ℕ)
    → (i < from) ⊎ (from + count ≤ i)
    → set_gates idt entry from count i ≡ idt i
unfolding set_gates
set_gates-outside idt entry from zero i h = refl
set_gates-outside idt entry from (suc count) i h =
    let other : (i == from + count) ≡ false = ground (arith, h) in
    rw other (set_gates-outside idt entry from count i (ground (arith, h)))

-- After `idt_init` and `irq_gates`, the gates of the exceptions and those of the devices lead to
-- their entry points, and no other gate was changed.
pub irq_gates-idt_init :
    (idt : ℕ → Gate) (isr irq : ℕ → ℕ) (i : ℕ)
    → let idt' = irq_gates (idt_init idt isr) irq in
      (i < 32 → idt' i ≡ gate_of (isr i))
      × (i < 16 → idt' (32 + i) ≡ gate_of (irq i))
      × (48 ≤ i → idt' i ≡ idt i)
unfolding irq_gates idt_init
irq_gates-idt_init idt isr irq i =
    let first = set_gates idt isr 0 32 in
    (
      (λ h.
          set_gates-outside first irq 32 16 i (inl h)
          ∙ ap (set_gates idt isr 0 32) {x = i} {y = 0 + i} (omega arith)
          ∙ set_gates-inside idt isr 0 32 i h),
      (λ h. set_gates-inside first irq 32 16 i h),
      (λ h.
          set_gates-outside first irq 32 16 i (inr h)
          ∙ set_gates-outside idt isr 0 32 i (inr (omega arith))),
    )

get_elem?-behind : (xs : List ℕ) (i : ℕ) → length xs ≤ i → get_elem? xs i ≡ none
get_elem?-behind [] i h = refl
get_elem?-behind (x ∷ xs) zero h = absurd (omega arith)
get_elem?-behind (x ∷ xs) (suc i) h = get_elem?-behind xs i (omega arith)

module _ (hw : Hardware) where
  with_routine-cases :
      (d : hw.Device) (irq routine : ℕ)
      → irq < 16
      → (routine ≢ 0 → with_routine hw d irq (some routine) ≡ calls routine)
        × (routine ≡ 0 → with_routine hw d irq (some routine) ≡ acknowledged (send_eoi hw d irq))
  with_routine-cases d irq zero h =
      ((λ ne. absurd (ne refl)), (λ e. let byte : u8 irq ≡ irq = omega arith in rw byte refl))
  with_routine-cases d irq (suc r) h = ((λ ne. refl), (λ e. absurd (omega arith)))

  abbrev at : ℕ → Option (List ℕ) → Option ℕ
  at i none = none
  at i (some xs) = get_elem? xs i

  irq_handler-inside :
      (routines : List ℕ) (d : hw.Device) (irq routine : ℕ)
      → irq < 16
      → get_elem? routines irq ≡ some routine
      → irq_handler hw routines d (32 + irq) ≡ with_routine hw d irq (some routine)
  unfolding irq_handler
  irq_handler-inside routines d irq routine h e =
      let low : ltb (32 + irq) 32 ≡ false = ground arith in
      let inum : 32 + irq - 32 ≡ irq = omega arith in
      let high : ltb 16 irq ≡ false = ground arith in rw (low, inum, high, e) refl

  -- With an array of 16 routines, the interrupt of a device calls the routine that was set for it
  -- last, and one without a routine is acknowledged. Interrupt 48, which is none of a device,
  -- passes the test and reads behind the array.
  pub irq_handler-routines :
      (routines routines' : List ℕ) (d : hw.Device) (irq routine : ℕ)
      → length routines ≡ 16
      → irq < 16
      → irq_setroutine routines irq routine ≡ some routines'
      → (routine ≢ 0 → irq_handler hw routines' d (32 + irq) ≡ calls routine)
        × (routine ≡ 0 → irq_handler hw routines' d (32 + irq) ≡ acknowledged (send_eoi hw d irq))
        × (irq_handler hw routines d 48 ≡ reads_outside)
  unfolding irq_handler irq_setroutine
  irq_handler-routines routines routines' d irq routine long h e =
      let test : ltb irq (length routines) ≡ true = ground (arith, long) in
      let stored : some (set routines irq routine) ≡ some routines' =
        ap (λ (b : Bool). if b then some (set routines irq routine) else none) (sym test) ∙ e in
      let read : get_elem? routines' irq ≡ some routine =
        ap (at irq) (sym stored) ∙ get_elem?-set_self routines irq routine (omega (arith, long)) in
      let run = irq_handler-inside routines' d irq routine h read in
      let cases = with_routine-cases d irq routine h in
      (
        (λ ne. run ∙ cases.0 ne),
        (λ z. run ∙ cases.1 z),
        rw (get_elem?-behind routines 16 (omega (arith, long))) refl,
      )
