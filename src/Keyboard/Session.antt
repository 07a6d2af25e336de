-- ===== src/Keyboard/Session.antt =====
-- src/drivers/keyboard.c: what is typed is what is read.
use mathlib.Core.Path.{subst}
use mathlib.Core.List.{append_assoc, append-nil}
use aijak.Common.{
  ℕ, zero, suc, ◌+◌, ◌≤◌, ◌≡◌, refl, sym, ap, ap₂, ◌∙◌, arith, true, Option, none, some, List, [],
  ◌∷◌, ◌++◌, map, length, length-append, ltb, first_branch, set, get_elem?, ◌==◌,
}
use aijak.Common.{get_elem?-set_self}
use aijak.Str.{◌>>=◌}
use aijak.Memory.Heap.{Heap, malloc, pointer}
use aijak.Memory.Bytes.{memset}
use aijak.Ports.{Hardware, inportb}
use aijak.Net.Packet.{read_bytes}
use aijak.Interrupt.{irq_setroutine, send_eoi}
use aijak.Keyboard.{Keyboard, keyboard_to_ascii, push, keyboard_irq, keyboard_get_key}
use aijak.Keyboard.Laws.{
  IsQueue, keyboard_to_ascii-lt, keyboard_irq-IsQueue, keyboard_get_key-IsQueue,
}
use aijak.Keyboard.Board.{
  Board, keyboard_of, with_keyboard, after_malloc, keyboard_init, keyboard_enabled, next_key,
  key_interrupt,
}

-- So many calls of `keyboard_get_key`.
unfoldable pub read_keys : {D : Type 0} → ℕ → Board D → List ℕ × Board D
unfolding next_key
read_keys zero b = ([], b)
read_keys (suc n) b =
    let (c, b') = next_key b in let (cs, after) = read_keys n b' in (c ∷ cs, after)

read_keys-IsQueue :
    {D : Type 0} (cs : List ℕ) (b : Board D)
    → IsQueue (keyboard_of b) cs
    → length cs ≤ 256
    → ((read_keys (length cs) b).0 ≡ cs) × IsQueue (keyboard_of (read_keys (length cs) b).1) []
unfolding read_keys next_key
read_keys-IsQueue [] b q few = (refl, q)
read_keys-IsQueue (c ∷ cs) b q few =
    let got = keyboard_get_key-IsQueue (keyboard_of b) c cs q (omega arith) in
    let b' = with_keyboard b (keyboard_get_key (keyboard_of b)).1 in
    let rest = read_keys-IsQueue cs b' got.1 (omega arith) in
    (ap₂ (λ (x : ℕ) (xs : List ℕ). x ∷ xs) got.0 rest.0, rest.1)

next_key-empty : {D : Type 0} (b : Board D) → IsQueue (keyboard_of b) [] → (next_key b).0 ≡ 0
unfolding next_key keyboard_get_key
next_key-empty b q =
    let none_waits : (b.key_loc == 0) ≡ true = ground (arith, q.0) in
    ap (λ (r : ℕ × Keyboard). r.0) (first_branch (b.key_loc == 0) _ _ none_waits)

-- As many calls as keys wait.
read_back :
    {D : Type 0} (n : ℕ) (cs : List ℕ) (b : Board D)
    → IsQueue (keyboard_of b) cs
    → length cs ≡ n
    → n ≤ 256
    → ((read_keys n b).0 ≡ cs) × ((next_key (read_keys n b).1).0 ≡ 0)
read_back n cs b q e few =
    let (same, rest) = read_keys-IsQueue cs b q (omega arith) in
    subst (λ (l : ℕ). ((read_keys l b).0 ≡ cs) × ((next_key (read_keys l b).1).0 ≡ 0)) e
      (same, next_key-empty (read_keys (length cs) b).1 rest)

keyboard_irq-push :
    (k : Keyboard) (code c : ℕ)
    → keyboard_to_ascii code ≡ some c
    → keyboard_irq k code ≡ some (push k c)
unfolding keyboard_irq
keyboard_irq-push k code c is = ap (λ o. o >>= λ x. some (push k x)) is

module _ (hw : Hardware) where
  -- The scan codes that so many interrupts read, the first one first.
  unfoldable pub scanned : ℕ → hw.Device → List ℕ
  unfolding send_eoi
  scanned zero d = []
  scanned (suc n) d = let (d', code) = inportb hw d 0x60 in code ∷ scanned n (send_eoi hw d' 1)

  unfoldable pub interrupts : ℕ → Board hw.Device → Option (Board hw.Device)
  unfolding key_interrupt
  interrupts zero b = some b
  interrupts (suc n) b = do b' ← key_interrupt hw b; interrupts n b'

  -- The board behind `n` interrupts, and the characters of their keys.
  record Pressed (n : ℕ) (b : Board hw.Device) (keys : List ℕ) : Type 0 where
    after : Board hw.Device
    cs : List ℕ
    returns : interrupts n b ≡ some after
    queue : IsQueue (keyboard_of after) (keys ++ cs)
    ascii : map some cs ≡ map keyboard_to_ascii (scanned n b.device)
    count : length cs ≡ n

  -- The board behind an interrupt with the character `c`.
  abbrev behind : Board hw.Device → ℕ → Board hw.Device
  behind b c = record (with_keyboard b (push (keyboard_of b) c)) {
    device = send_eoi hw (inportb hw b.device 0x60).0 1;
  }

  key_interrupt-push :
      (b : Board hw.Device) (c : ℕ)
      → keyboard_irq (keyboard_of b) (inportb hw b.device 0x60).1 ≡ some (push (keyboard_of b) c)
      → key_interrupt hw b ≡ some (behind b c)
  unfolding key_interrupt
  key_interrupt-push b c pushes =
      let d = (inportb hw b.device 0x60).0 in
      ap (λ o. o >>= λ k. some (record (with_keyboard b k) { device = send_eoi hw d 1 })) pushes

  pressed :
      (n : ℕ) (b : Board hw.Device) (keys : List ℕ)
      → IsQueue (keyboard_of b) keys
      → length keys + n ≤ 256
      → Pressed n b keys
  unfolding interrupts scanned
  pressed zero b keys q room = record {
    after = b;
    cs = [];
    returns = refl;
    queue = subst (λ l. IsQueue (keyboard_of b) l) (sym (append-nil keys)) q;
    ascii = refl;
    count = refl;
  }
  pressed (suc n) b keys q room =
      let (d, code) = inportb hw b.device 0x60 in
      let (c, is, small) = keyboard_to_ascii-lt code in
      let k = push (keyboard_of b) c in
      let b' = behind b c in
      let pushes = keyboard_irq-push (keyboard_of b) code c is in
      let next = (keyboard_irq-IsQueue (keyboard_of b) k keys code c q (omega arith) is pushes).0 in
      let one : length (keys ++ c ∷ []) ≡ length keys + 1 = length-append keys (c ∷ []) in
      let rest = pressed n b' (keys ++ c ∷ []) next (omega (arith, one)) in
      record {
        after = rest.after;
        cs = c ∷ rest.cs;
        returns = ap (λ o. o >>= interrupts n) (key_interrupt-push b c pushes) ∙ rest.returns;
        queue =
            subst (λ l. IsQueue (keyboard_of rest.after) l) (append_assoc keys (c ∷ []) rest.cs)
              rest.queue;
        ascii = ap₂ (λ (x : Option ℕ) (xs : List (Option ℕ)). x ∷ xs) (sym is) rest.ascii;
        count = ap suc rest.count;
      }

  -- With no key waiting, 16 routines and memory from `malloc`, `keyboard_init` sets the routine and
  -- enables the driver; after so many interrupts, at most 256, as many calls of `keyboard_get_key`
  -- return the characters of their scan codes in order, and the next call returns 0.
  pub read_keys-interrupts :
      (rounds irq n p : ℕ) (b : Board hw.Device) (h : Heap)
      → malloc rounds b.heap 256 ≡ pointer p h
      → length b.routines ≡ 16
      → b.key_loc ≡ 0
      → n ≤ 256
      → (b0 : Board hw.Device) × (b1 : Board hw.Device) × (keyboard_init rounds irq b ≡ some b0)
        × (get_elem? b0.routines 1 ≡ some irq)
        × (keyboard_enabled b0 ≡ 1)
        × (interrupts n b0 ≡ some b1)
        × (map some (read_keys n b1).0 ≡ map keyboard_to_ascii (scanned n b.device))
        × ((next_key (read_keys n b1).1).0 ≡ 0)
  unfolding keyboard_init keyboard_enabled irq_setroutine read_bytes
  read_keys-interrupts rounds irq n p b h memory sixteen none_yet few =
      let b0 : Board hw.Device = record b {
        heap = record h { mem = memset h.mem p 0 256 };
        routines = set b.routines 1 irq;
        keycache = p;
        kbd_enabled = 1;
      } in
      let inside : ltb 1 (length b.routines) ≡ true = ground (arith, sixteen) in
      let starts : keyboard_init rounds irq b ≡ some b0 =
        ap (after_malloc b irq) memory
        ∙ ap (λ o. o >>= λ routines. some (record b0 { routines = routines }))
            (first_branch (ltb 1 (length b.routines)) (some (set b.routines 1 irq)) none inside) in
      let typed = pressed n b0 [] (none_yet, refl) (omega arith) in
      let read = read_back n typed.cs typed.after typed.queue typed.count few in
      (
        b0,
        typed.after,
        starts,
        get_elem?-set_self b.routines 1 irq (omega (arith, sixteen)),
        refl,
        typed.returns,
        ap (map some) read.0 ∙ typed.ascii,
        read.1,
      )
