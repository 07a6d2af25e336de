-- ===== src/Keyboard/Board.antt =====
-- src/drivers/keyboard.c: the driver with its port, its interrupt and its initialisation.
use aijak.Common.{ℕ, ◌==◌, if◌then◌else◌, bit_and, Option, none, some, List}
use aijak.Str.{◌>>=◌}
use aijak.Memory.Bytes.{memset}
use aijak.Memory.Heap.{Heap, Outcome, null, pointer, fatal, diverged, malloc}
use aijak.Ports.{Hardware, inportb}
use aijak.Interrupt.{irq_setroutine, send_eoi}
use aijak.Keyboard.{Keyboard, keyboard_irq, keyboard_get_key}

-- The globals of the driver, the heap, the routines of the interrupts, and the hardware.
pub record Board (D : Type 0) : Type 0 where
  pub device : D
  pub heap : Heap
  pub routines : List ℕ
  pub keycache : ℕ
  pub key_loc : ℕ
  pub lastkey : ℕ
  pub kbd_enabled : ℕ

abbrev pub keyboard_of : {D : Type 0} → Board D → Keyboard
keyboard_of b = record { mem = b.heap.mem; keycache = b.keycache; key_loc = b.key_loc }

abbrev pub with_keyboard : {D : Type 0} → Board D → Keyboard → Board D
with_keyboard b k = record b {
  heap = record b.heap { mem = k.mem };
  keycache = k.keycache;
  key_loc = k.key_loc;
}

-- From `malloc` on.
abbrev pub with_cache : {D : Type 0} → Board D → ℕ → ℕ → Heap → Option (Board D)
with_cache b irq p h = do
  routines ← irq_setroutine b.routines 1 irq
  some (record b {
    heap = record h { mem = memset h.mem p 0 256 };
    routines = routines;
    keycache = p;
    kbd_enabled = 1;
  })

abbrev pub after_malloc : {D : Type 0} → Board D → ℕ → Outcome → Option (Board D)
after_malloc b irq (null h) = with_cache b irq 0 h
after_malloc b irq (pointer p h) = with_cache b irq p h
after_malloc b irq fatal = none
after_malloc b irq diverged = none

-- `keyboard_init` before its `_kill`, with the address of `keyboard_irq`; `none` where `malloc` does
-- not return or the routine is stored behind its array.
unfoldable pub keyboard_init : {D : Type 0} → ℕ → ℕ → Board D → Option (Board D)
unfolding malloc memset irq_setroutine
keyboard_init rounds irq b = after_malloc b irq (malloc rounds b.heap 256)

unfoldable pub keyboard_enabled : {D : Type 0} → Board D → ℕ
keyboard_enabled b = b.kbd_enabled

-- `keyboard_get_key` on the globals.
unfoldable pub next_key : {D : Type 0} → Board D → ℕ × Board D
unfolding keyboard_get_key
next_key b = let (c, k) = keyboard_get_key (keyboard_of b) in (c, with_keyboard b k)

module _ (hw : Hardware) where
  unfoldable pub keyboard_read_key : Board hw.Device → Board hw.Device
  keyboard_read_key b =
      let (d, status) = inportb hw b.device 0x64 in
      let (d', key) = inportb hw d 0x60 in
      if bit_and status 1 == 0
      then record b { device = d; lastkey = 0 }
      else record b { device = d'; lastkey = key }

  -- The interrupt, from its read of the port to the end of the interrupt.
  unfoldable pub key_interrupt : Board hw.Device → Option (Board hw.Device)
  unfolding keyboard_irq send_eoi
  key_interrupt b =
      let (d, scancode) = inportb hw b.device 0x60 in
      do
        k ← keyboard_irq (keyboard_of b) scancode
        some (record (with_keyboard b k) { device = send_eoi hw d 1 })
