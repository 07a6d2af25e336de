-- ===== src/Keyboard.antt =====
-- src/drivers/keyboard.c: the keys that wait in `keycache`. The mutex of `keyboard_get_key` is
-- left out; a scan code is an argument, and Keyboard.Board reads it from its port.
pub mod Laws
pub mod Board
pub mod Session
use aijak.Common.{ℕ, zero, suc, ◌+◌, ◌-◌, ◌*◌, ◌^◌, ◌%◌, Bool, ◌&&◌, Option, none, some, List}
use aijak.Common.{get_elem?, ◌==◌, leb, if◌then◌else◌, u16}
use aijak.Memory.Bytes.{Mem, set_byte}
use aijak.Str.{◌>>=◌}
use aijak.Str.Number.{codes}

-- The memory, the address of the 256 bytes that `keyboard_init` allocates, and `key_loc`.
pub record Keyboard : Type 0 where
  pub mem : Mem
  pub keycache : ℕ
  pub key_loc : ℕ

-- `row[scancode - first]`, where a read behind the row is `none`.
abbrev pub key_of : List ℕ → ℕ → ℕ → Option ℕ
key_of row scancode first = get_elem? row (scancode - first)

abbrev pub between : ℕ → ℕ → ℕ → Bool
between lo hi scancode = leb lo scancode && leb scancode hi

-- The rows of keys.
abbrev pub row_key : ℕ → Option ℕ
row_key scancode =
    if between 0x2 0xb scancode
    then key_of (codes "1234567890") scancode 0x2
    else if between 0x10 0x19 scancode
    then key_of (codes "qwertzuiop") scancode 0x10
    else if between 0x1e 0x26 scancode
    then key_of (codes "asdfghjkl") scancode 0x1e
    else if between 0x2c 0x32 scancode
    then key_of (codes "yxcvbnm") scancode 0x2c
    else some 0

-- Enter, space, backspace, tab, point, slash and zero come first.
unfoldable pub keyboard_to_ascii : ℕ → Option ℕ
keyboard_to_ascii scancode =
    if scancode == 0x1c
    then some 10
    else if scancode == 0x39
    then some b' '
    else if scancode == 0xe
    then some 13
    else if scancode == 0xf
    then some 9
    else if scancode == 0x34
    then some b'.'
    else if scancode == 0xb5
    then some b'/'
    else if scancode == 0xb
    then some b'0'
    else row_key scancode

abbrev pub push : Keyboard → ℕ → Keyboard
push s c = record s {
  mem = set_byte s.mem (s.keycache + s.key_loc) c;
  key_loc = u16 (s.key_loc + 1);
}

-- `keycache[key_loc++] = keyboard_to_ascii(...)`
unfoldable pub keyboard_irq : Keyboard → ℕ → Option Keyboard
unfolding keyboard_to_ascii
keyboard_irq s scancode = do c ← keyboard_to_ascii scancode; some (push s c)

-- `keycache[i] = keycache[i + 1]`, at the address of `keycache[i]`.
pub shift_loop : ℕ → ℕ → Mem → Mem
shift_loop zero a m = m
shift_loop (suc left) a m = shift_loop left (a + 1) (set_byte m a (m (a + 1)))

unfoldable pub keyboard_get_key : Keyboard → ℕ × Keyboard
unfolding shift_loop
keyboard_get_key s = if s.key_loc == 0 then (0, s) else (
  s.mem s.keycache,
  record s { mem = shift_loop 256 s.keycache s.mem; key_loc = s.key_loc - 1 },
)
