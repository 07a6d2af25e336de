-- ===== src/Tests/Keyboard.antt =====
-- Two keys, for the theorems on src/drivers/keyboard.c.
use aijak.Common.{ℕ, ◌≡◌, refl, arith, some, List, [], ◌∷◌, map, get_elem?, replicate}
use aijak.Memory.Heap.{Heap, Outcome, null, pointer, fatal, diverged, malloc}
use aijak.Ports.{Hardware}
use aijak.Keyboard.{keyboard_to_ascii}
use aijak.Keyboard.Board.{Board, keyboard_init, keyboard_enabled, next_key}
use aijak.Keyboard.Session.{read_keys, scanned, interrupts, read_keys-interrupts}

-- The scan codes that wait in the hardware; a read of any port takes the first one.
abbrev typing : Hardware
typing = record {
  Device = List ℕ;
  output = λ d w port v. d;
  input = λ d w port. elim d [ [] ↦ ([], 0) | code ∷ rest ↦ (rest, code) ];
}

abbrev heap : Heap
heap = record {
  mem = λ a. 0;
  last_alloc = 4096;
  heap_end = 8192;
  heap_begin = 4096;
  pheap_begin = 8192;
  pheap_end = 139264;
  pheap_desc = 4104;
  memory_used = 0;
}

abbrev heap_of : Outcome → Heap
heap_of (null h) = h
heap_of (pointer p h) = h
heap_of fatal = heap
heap_of diverged = heap

-- The keys Q, W and Enter are going to be pressed.
abbrev board : Board (List ℕ)
board = record {
  device = 0x10 ∷ 0x11 ∷ 0x1c ∷ [];
  heap = heap;
  routines = replicate 16 0;
  keycache = 0;
  key_loc = 0;
  lastkey = 0;
  kbd_enabled = 0;
}

read_keys-interrupts_example :
    (b0 : Board (List ℕ)) × (b1 : Board (List ℕ)) × (keyboard_init 1 0x1000 board ≡ some b0)
    × (get_elem? b0.routines 1 ≡ some 0x1000)
    × (keyboard_enabled b0 ≡ 1)
    × (interrupts typing 3 b0 ≡ some b1)
    × (map some (read_keys 3 b1).0
        ≡ map keyboard_to_ascii (scanned typing 3 (0x10 ∷ 0x11 ∷ 0x1c ∷ [])))
    × ((next_key (read_keys 3 b1).1).0 ≡ 0)
unfolding malloc
read_keys-interrupts_example =
    read_keys-interrupts typing 1 0x1000 3 4104 board (heap_of (malloc 1 heap 256)) refl refl refl
      (omega arith)

-- They are the characters q, w and the end of the line.
codes_test :
    map keyboard_to_ascii (scanned typing 3 (0x10 ∷ 0x11 ∷ 0x1c ∷ []))
    ≡ some 113 ∷ some 119 ∷ some 10 ∷ []
unfolding scanned keyboard_to_ascii
codes_test = refl
