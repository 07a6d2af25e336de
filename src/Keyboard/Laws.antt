-- ===== src/Keyboard/Laws.antt =====
-- src/drivers/keyboard.c: the waiting keys as a queue.
use aijak.Common.{
  ℕ, zero, suc, ◌+◌, ◌-◌, ◌≤◌, ◌<◌, ◌≡◌, refl, sym, ap, ap₂, ◌∙◌, inl, arith, some, List, [], ◌∷◌,
  ◌++◌,
}
use mathlib.Core.Path.{subst}
use aijak.Str.{◌>>=◌}
use aijak.Str.Number.{codes}
use aijak.Common.{
  Bool, true, false, get_elem?, get_or, drop, length, length-append, ◌==◌, if◌then◌else◌, Option,
}
use aijak.Memory.Bytes.{Mem, set_byte, SameOutside}
use aijak.Memory.Copy.{copy_bytes, copy_bytes-apart}
use aijak.Net.Packet.{read_bytes}
use aijak.Net.Packet.Laws.{read_bytes-eq, read_bytes-add}
use aijak.Keyboard.{
  Keyboard, keyboard_to_ascii, row_key, key_of, between, push, keyboard_irq, shift_loop,
  keyboard_get_key,
}

-- The keys that wait, the oldest first.
abbrev pub IsQueue : Keyboard → List ℕ → Type 0
IsQueue s keys = (s.key_loc ≡ length keys) × (read_bytes s.mem s.keycache (length keys) ≡ keys)

abbrev IsAscii : List ℕ → Type 0
IsAscii [] = Unit
IsAscii (c ∷ row) = (c < 128) × IsAscii row

abbrev Reads : Option ℕ → Type 0
Reads o = (c : ℕ) × (o ≡ some c) × (c < 128)

get_elem?-Reads : (row : List ℕ) (i : ℕ) → IsAscii row → i < length row → Reads (get_elem? row i)
get_elem?-Reads [] i a h = absurd (omega arith)
get_elem?-Reads (c ∷ row) zero a h = (c, refl, a.0)
get_elem?-Reads (c ∷ row) (suc i) a h = get_elem?-Reads row i a.1 (omega arith)

when_read :
    (b : Bool) (x y : Option ℕ) → (b ≡ true → Reads x) → Reads y → Reads (if b then x else y)
when_read true x y hx hy = hx refl
when_read false x y hx hy = hy

row_Reads :
    (row : List ℕ) (lo hi scancode : ℕ) (rest : Option ℕ)
    → IsAscii row
    → hi < lo + length row
    → Reads rest
    → Reads (if between lo hi scancode then key_of row scancode lo else rest)
row_Reads row lo hi scancode rest a fits r =
    when_read (between lo hi scancode) (key_of row scancode lo) rest
      (λ e. get_elem?-Reads row (scancode - lo) a (ground (arith, e))) r

-- For every scan code `keyboard_to_ascii` reads inside its rows of keys and returns a character
-- of less than 128.
pub keyboard_to_ascii-lt :
    (scancode : ℕ) → (c : ℕ) × (keyboard_to_ascii scancode ≡ some c) × (c < 128)
unfolding keyboard_to_ascii
keyboard_to_ascii-lt scancode =
    let rows : Reads (row_key scancode) =
      row_Reads (codes "1234567890") 0x2 0xb scancode _ (ground arith) (omega arith) (
        row_Reads (codes "qwertzuiop") 0x10 0x19 scancode _ (ground arith) (omega arith) (
          row_Reads (codes "asdfghjkl") 0x1e 0x26 scancode _ (ground arith) (omega arith) (
            row_Reads (codes "yxcvbnm") 0x2c 0x32 scancode _ (ground arith) (omega arith)
              (0, refl, omega arith)))) in
    let fixed = λ (code c : ℕ) (h : c < 128) (rest : Option ℕ) (r : Reads rest).
      when_read (scancode == code) (some c) rest (λ _. (c, refl, h)) r in
    fixed 0x1c 10 (omega arith) _ (
      fixed 0x39 b' ' (omega arith) _ (
        fixed 0xe 13 (omega arith) _ (
          fixed 0xf 9 (omega arith) _ (
            fixed 0x34 b'.' (omega arith) _
              (fixed 0xb5 b'/' (omega arith) _ (fixed 0xb b'0' (omega arith) _ rows))))))

shift_loop-copy_bytes : (n a : ℕ) (m : Mem) → shift_loop n a m ≡ copy_bytes m a (a + 1) n
unfolding shift_loop
shift_loop-copy_bytes zero a m = refl
shift_loop-copy_bytes (suc n) a m = shift_loop-copy_bytes n (a + 1) (set_byte m a (m (a + 1)))

read_bytes-moved :
    (n : ℕ) (m' m : Mem) (a b : ℕ)
    → ((i : ℕ) → i < n → m' (a + i) ≡ m (b + i))
    → read_bytes m' a n ≡ read_bytes m b n
unfolding read_bytes
read_bytes-moved zero m' m a b each = refl
read_bytes-moved (suc n) m' m a b each =
    ap₂ ◌∷◌
      (ap m' {x = a} {y = a + 0} (omega arith)
        ∙ each 0 (omega arith)
        ∙ ap m {x = b + 0} {y = b} (omega arith))
      (read_bytes-moved n m' m (a + 1) (b + 1) (λ i h.
        ap m' {x = a + 1 + i} {y = a + suc i} (omega arith)
        ∙ each (suc i) (omega arith)
        ∙ ap m {x = b + suc i} {y = b + 1 + i} (omega arith)))

read_bytes-shift :
    (n a : ℕ) (m : Mem) → n ≤ 256 → read_bytes (shift_loop 256 a m) a n ≡ read_bytes m (a + 1) n
read_bytes-shift n a m h =
    let each : (i : ℕ) → i < n → copy_bytes m a (a + 1) 256 (a + i) ≡ m (a + 1 + i) =
      λ i hi. copy_bytes-apart 256 m a (a + 1) i (inl (omega arith)) (omega arith) in
    rw (shift_loop-copy_bytes 256 a m)
      (read_bytes-moved n (copy_bytes m a (a + 1) 256) m a (a + 1) each)

-- While fewer than 256 keys wait, the interrupt puts the character of the key behind them, and
-- changes no byte outside the 256 bytes of the cache.
pub keyboard_irq-IsQueue :
    (s t : Keyboard) (keys : List ℕ) (scancode c : ℕ)
    → IsQueue s keys
    → length keys < 256
    → keyboard_to_ascii scancode ≡ some c
    → keyboard_irq s scancode ≡ some t
    → IsQueue t (keys ++ c ∷ []) × SameOutside s.keycache (s.keycache + 256) s.mem t.mem
unfolding keyboard_irq read_bytes
keyboard_irq-IsQueue s t keys scancode c q room ascii pressed =
    let answer : some (push s c) ≡ some t =
      sym (ap (λ (o : Option ℕ). o >>= (λ x. some (push s x))) ascii) ∙ pressed in
    let e : push s c ≡ t = cc answer in
    let m = (push s c).mem in
    let n = length keys in
    let one : length (keys ++ c ∷ []) ≡ n + 1 = omega (arith, length-append keys (c ∷ [])) in
    let frame : SameOutside (s.keycache + n) (s.keycache + n + 1) s.mem m =
      λ b out. ground (arith, q.0, out) in
    let old : read_bytes m s.keycache n ≡ keys =
      read_bytes-eq s.mem m s.keycache n (λ b lo hi. frame b (inl hi)) ∙ q.1 in
    let new : m (s.keycache + n) ≡ c = ground (arith, q.0) in
    subst
      (λ (u : Keyboard).
        IsQueue u (keys ++ c ∷ []) × SameOutside s.keycache (s.keycache + 256) s.mem u.mem)
      e
      (
        (
          omega (arith, one, q.0),
          ap (read_bytes m s.keycache) one
              ∙ read_bytes-add m s.keycache n 1
              ∙ ap₂ (λ (xs : List ℕ) (x : ℕ). xs ++ x ∷ []) old new,
        ),
        (λ b out. frame b (ground (arith, q.0, out))),
      )

-- Where a key waits and at most 256 do, `keyboard_get_key` returns the oldest, and the others
-- wait in the same order.
pub keyboard_get_key-IsQueue :
    (s : Keyboard) (key : ℕ) (keys : List ℕ)
    → IsQueue s (key ∷ keys)
    → length keys < 256
    → ((keyboard_get_key s).0 ≡ key) × IsQueue (keyboard_get_key s).1 keys
unfolding keyboard_get_key read_bytes
keyboard_get_key-IsQueue s key keys q room =
    let n = length keys in
    let m = s.mem in
    let a = s.keycache in
    let full : (s.key_loc == 0) ≡ false = ground (arith, q.0) in
    let after : Keyboard = record s { mem = shift_loop 256 a m; key_loc = s.key_loc - 1 } in
    let got : keyboard_get_key s ≡ (m a, after) =
      ap (λ (b : Bool). if b then (0, s) else (m a, after)) full in
    let front : m a ≡ key = ap (λ (xs : List ℕ). get_or xs 0 0) q.1 in
    let behind : read_bytes m (a + 1) n ≡ keys = ap (λ (xs : List ℕ). drop 1 xs) q.1 in
    let moved : read_bytes (shift_loop 256 a m) a n ≡ read_bytes m (a + 1) n =
      read_bytes-shift n a m (omega arith) in
    rw got (front, (omega (arith, q.0), moved ∙ behind))
