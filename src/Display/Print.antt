-- ===== src/Display/Print.antt =====
-- src/display/display.c: `kprintf` onto the text display.
pub mod Laws
use aijak.Common.{
  ℕ, zero, suc, ◌+◌, Bool, true, false, Option, none, some, List, [], ◌∷◌, replicate,
}
use aijak.Common.{◌==◌, ltb, if◌then◌else◌, u8, u32}
use aijak.Str.{strlen}
use aijak.Str.Number.{itoa, uitoa}
use aijak.Display.{Console, textmode_putc, textmode_puts}

-- An argument of `va_arg`: the bits of an `int`, or the bytes that a pointer leads to.
pub data Argument : Type 0 where
  int : ℕ → Argument
  text : List ℕ → Argument

-- The display, `len`, the arguments that are left, and whether `++i` has passed over the next
-- character already.
pub record Printing : Type 0 where
  pub console : Console
  pub len : ℕ
  pub args : List Argument
  pub skip : Bool

-- What one round of the loop makes of it; `none` is an access out of bounds or an argument that is
-- not there.
abbrev pub Round : Type 0
Round = Option Printing

-- `cd->puts(s); len += strlen(s); continue`, with the length of `s`.
unfoldable pub put_measured : Printing → List Argument → List ℕ → Option ℕ → Round
unfolding textmode_puts
put_measured p args s none = none
put_measured p args s (some n) = some (record {
  console = textmode_puts p.console s;
  len = u32 (p.len + n);
  args = args;
  skip = true;
})

unfoldable pub put_text : Printing → List Argument → Option (List ℕ) → Round
unfolding put_measured strlen
put_text p args none = none
put_text p args (some s) = put_measured p args s (strlen s)

-- `cd->putc(c); len++`
unfoldable pub put_char : Printing → List Argument → ℕ → Bool → Round
unfolding textmode_putc
put_char p args c skip = some (record {
  console = textmode_putc p.console c;
  len = u32 (p.len + 1);
  args = args;
  skip = skip;
})

-- A directive that takes an `int`.
unfoldable pub put_int : Printing → ℕ → ℕ → List Argument → Round
unfolding put_text put_char itoa uitoa
put_int p c n args =
    if c == b'd'
    then put_text p args (itoa n (replicate 16 0) 10)
    else (if c == b'x'
        then put_text p args (uitoa n (replicate 32 0) 16)
        else (if c == b'b'
            then put_text p args (itoa n (replicate 32 0) 2)
            else put_char p args (u8 n) true))

abbrev pub takes_int : ℕ → Bool
takes_int c =
    if c == b'd'
    then true
    else (if c == b'x' then true else (if c == b'b' then true else c == b'c'))

-- The switch, at the letter behind `%`. An unknown letter is not passed over.
unfoldable pub directive : Printing → ℕ → List Argument → Round
unfolding put_text put_int
directive p c [] =
    if (if c == b's' then true else takes_int c) then none else some (record p { skip = false })
directive p c (int n ∷ args) =
    if c == b's'
    then none
    else (if takes_int c then put_int p c n args else some (record p { skip = false }))
directive p c (text s ∷ args) =
    if c == b's'
    then put_text p args (some s)
    else (if takes_int c then none else some (record p { skip = false }))

-- One round at the character `c`, with what follows it.
unfoldable pub print_round : Printing → ℕ → List ℕ → Round
unfolding put_char directive
print_round p c [] = if p.skip then some (record p { skip = false }) else none
print_round p c (next ∷ fmt) =
    if p.skip
    then some (record p { skip = false })
    else (if c == b'%' then directive p next p.args else put_char p p.args c false)

-- The display where the loop ends, and the value that is returned, if it comes to that.
unfoldable pub print_loop : ℕ → List ℕ → Printing → Console × Option ℕ
unfolding print_round
print_loop zero fmt p = (p.console, some p.len)
print_loop (suc left) [] p = (p.console, none)
print_loop (suc left) (c ∷ fmt) p = elim (print_round p c fmt) [
  | none ↦ (p.console, none)
  | some p' ↦ print_loop left fmt p'
]

-- The index has 16 bits, so that formats of 2 ^ 16 characters and more are not part of the model.
unfoldable pub print_measured : Console → List ℕ → List Argument → Option ℕ → Console × Option ℕ
unfolding print_loop
print_measured d fmt args none = (d, none)
print_measured d fmt args (some n) =
    if ltb n 65536
    then print_loop n fmt (record { console = d; len = 0; args = args; skip = false })
    else (d, none)

-- `kprintf`, where `none` is the null pointer.
unfoldable pub kprintf : Console → Option (List ℕ) → List Argument → Console × Option ℕ
unfolding print_measured strlen
kprintf d none args = (d, some 0)
kprintf d (some fmt) args = print_measured d fmt args (strlen fmt)

-- `__mprintf`, with the name of the module before the text.
unfoldable pub mprintf : Console → List ℕ → List ℕ → List Argument → Console × Option ℕ
unfolding kprintf
mprintf d m fmt args =
    kprintf (kprintf d (some (b'[' ∷ b'%' ∷ b's' ∷ b']' ∷ b':' ∷ b' ' ∷ 0 ∷ [])) (text m ∷ [])).0
      (some fmt) args
