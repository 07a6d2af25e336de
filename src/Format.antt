-- ===== src/Format.antt =====
-- src/stdlib/format.c: formatted output. The C strings of the arguments and of the format lie
-- apart from the buffer, each the list of the bytes from its address to the end of the object.
-- The fields `flags` and `width` of `formatter_t`, set anew for each directive, are arguments.
pub mod Scan
pub mod Emit
pub mod Render
pub mod Digits
pub mod Outs
pub mod Refine
pub mod Buffer
use mathlib.Core.Option
use aijak.Common.{
  ℕ, zero, suc, ◌+◌, ◌-◌, ◌*◌, ◌/◌, ◌%◌, ◌^◌, Bool, true, false, ◌&&◌, ◌||◌, Option, none, some,
}
use aijak.Common.{
  List, [], ◌∷◌, ◌++◌, length, ◌==◌, ltb, leb, if◌then◌else◌, u8, u32, sub32, bit_and, ◌>>>◌,
}
use aijak.Memory.Bytes.{Mem, set_byte}
use aijak.Str.{strlen, ◌>>=◌}

-- An `int` of C as a number. What overflows it is undefined there, and `none` here.
pub data ℤ : Type 0 where
  pos negsuc : ℕ → ℤ

abbrev pub sub_int : ℤ → ℕ → ℤ
sub_int (pos w) n = if leb n w then pos (w - n) else negsuc (n - w - 1)
sub_int (negsuc w) n = negsuc (w + n)

abbrev pub is_positive : ℤ → Bool
is_positive (pos w) = ltb 0 w
is_positive (negsuc w) = false

abbrev pub pad_zero : ℕ
pad_zero = 1

abbrev pub pad_left : ℕ
pad_left = 2

pub record Formatter : Type 0 where
  pub mem : Mem
  pub p : ℕ
  pub end : ℕ

abbrev pub is_space : ℕ → Bool
is_space c = (c == b' ') || ((c == 9) || ((c == 13) || ((c == 10) || ((c == 12) || (c == 11)))))

abbrev pub is_digit : ℕ → Bool
is_digit c = leb b'0' c && leb c b'9'

unfoldable pub outc : Formatter → ℕ → Formatter
outc f c = if ltb f.p f.end then record f { mem = set_byte f.mem f.p c; p = f.p + 1 } else f

unfoldable pub pad : Formatter → ℕ → ℕ → Formatter
pad f c zero = f
pad f c (suc rounds) = pad (outc f c) c rounds

-- `while (--width >= 0) _outc(f, c)`, with the width that it leaves.
abbrev pub pad_loop : Formatter → ℕ → ℤ → Formatter × ℤ
pad_loop f c (pos w) = (pad f c w, negsuc 0)
pad_loop f c (negsuc w) = (f, negsuc (suc w))

-- `while (*s) _outc(f, *s++)`
unfoldable pub put_string : Formatter → List ℕ → Option Formatter
put_string f [] = none
put_string f (c ∷ s) = let rest = put_string (outc f c) s in if c == 0 then some f else rest

abbrev pub padchar : ℕ → ℕ
padchar flags = if flags % 2 == 0 then b' ' else b'0'

-- `!(flags & PAD_LEFT)`
abbrev pub pads_first : ℕ → Bool
pads_first flags = flags / 2 % 2 == 0

unfoldable pub outs : Formatter → ℕ → ℤ → List ℕ → Option Formatter
outs f flags width s =
    let c = padchar flags in
    let before = if pads_first flags then pad_loop f c width else (f, width) in
    do g ← put_string before.0 s; some ((pad_loop g c before.1).0)

-- The loops of `_outdec` and `_outhex` write from the end of `buf` down; the rounds are the bytes
-- left there, and a write below the buffer is `none`.
unfoldable pub dec_loop : ℕ → ℕ → List ℕ → Option (List ℕ)
dec_loop zero n s = none
dec_loop (suc room) n s =
    let s' = (b'0' + n % 10) ∷ s in
    let rest = dec_loop room (n / 10) s' in if ltb 0 (n / 10) then rest else some s'

abbrev pub hex_char : ℕ → ℕ → ℕ
hex_char type digit =
    if ltb digit 10
    then b'0' + digit
    else (if type == b'x' then b'a' + digit - 10 else b'A' + digit - 10)

unfoldable pub hex_loop : ℕ → ℕ → ℕ → List ℕ → Option (List ℕ)
hex_loop type zero n s = none
hex_loop type (suc room) n s =
    let s' = hex_char type (bit_and n 0xf) ∷ s in
    let rest = hex_loop type room (n >>> 4) s' in if ltb 0 (n >>> 4) then rest else some s'

-- `end - s` is the length of the text before its final zero.
unfoldable pub outdec : Formatter → ℕ → ℤ → ℕ → Option Formatter
unfolding dec_loop outs
outdec f flags width n = do
  s ← dec_loop 31 n (0 ∷ [])
  outs f flags (sub_int width (length s - 1)) s

unfoldable pub outhex : Formatter → ℕ → ℤ → ℕ → ℕ → Option Formatter
unfolding hex_loop outs
outhex f flags width type n = do
  s ← hex_loop type 31 n (0 ∷ [])
  outs f flags (sub_int width (length s - 1)) s

unfoldable pub outpointer : Formatter → ℕ → ℤ → ℕ → Option Formatter
unfolding outhex
outpointer f flags width p = outhex f flags width b'x' p

-- What stands behind a `%`: flags, width and type, and the format that is left.
pub record Directive : Type 0 where
  pub flags : ℕ
  pub width : ℤ
  pub type : ℕ
  pub rest : List ℕ

-- The loop over the digits of a width, from its next character on.
unfoldable pub width_loop : ℕ → List ℕ → Option (ℕ × List ℕ)
width_loop width [] = none
width_loop width (c ∷ fmt) =
    let width' = width * 10 + c - b'0' in
    let more = width_loop width' fmt in
    if is_digit c then (if ltb width' (2 ^ 31) then more else none) else some (width, c ∷ fmt)

unfoldable pub read_type : ℕ → ℤ → List ℕ → Option Directive
read_type flags width [] = none
read_type flags width (c ∷ fmt) =
    some (record { flags = flags; width = width; type = c; rest = fmt })

unfoldable pub read_width : ℕ → List ℕ → Option Directive
unfolding width_loop read_type
read_width flags [] = none
read_width flags (c ∷ fmt) =
    if is_digit c
    then (do (width, fmt') ← width_loop 0 (c ∷ fmt); read_type flags (pos width) fmt')
    else read_type flags (negsuc 0) (c ∷ fmt)

unfoldable pub read_directive : List ℕ → Option Directive
unfolding read_width
read_directive [] = none
read_directive (c ∷ fmt) =
    if c == b'-'
    then read_width pad_left fmt
    else (if c == b'0' then read_width pad_zero fmt else read_width 0 (c ∷ fmt))

-- The next 32-bit word of a `va_list`; `none` is an argument that was not passed.
abbrev pub va_arg : List ℕ → Option (ℕ × List ℕ)
va_arg [] = none
va_arg (a ∷ args) = some (u32 a, args)

-- "(null)"
abbrev pub null_text : List ℕ
null_text = b'(' ∷ b'n' ∷ b'u' ∷ b'l' ∷ b'l' ∷ b')' ∷ 0 ∷ []

-- `if (f.width > 0) f.width -= strlen(s); _outs(&f, s)`
unfoldable pub out_string : Formatter → Directive → List ℕ → Option Formatter
unfolding outs strlen
out_string f d s =
    if is_positive d.width
    then (do len ← strlen s; outs f d.flags (sub_int d.width len) s)
    else outs f d.flags d.width s

-- `n = -n` overflows at -2 ^ 31.
unfoldable pub out_int : Formatter → Directive → ℕ → Option Formatter
unfolding outc outdec
out_int f d n =
    if ltb n (2 ^ 31)
    then outdec f d.flags d.width n
    else (if n == 2 ^ 31 then none else outdec (outc f b'-') d.flags d.width (2 ^ 32 - n))

-- `if (f.p < f.end + 1) *f.p = 0`
abbrev pub terminated : Formatter → Mem
terminated f = if ltb f.p (u32 (f.end + 1)) then set_byte f.mem f.p 0 else f.mem

module _ (string : ℕ → List ℕ) where
  abbrev pub string_at : ℕ → List ℕ
  string_at s = if s == 0 then null_text else string s

  -- `switch (type)`: a type that it does not name prints nothing and takes no argument.
  unfoldable pub convert : Formatter → Directive → List ℕ → Option (Formatter × List ℕ)
  unfolding outc out_string out_int outdec outhex outpointer
  convert f d args =
      if d.type == b'%'
      then some (outc f b'%', args)
      else if d.type == b'c'
      then (do (n, more) ← va_arg args; some (outc f (u8 n), more))
      else if d.type == b's'
      then (do (s, more) ← va_arg args; g ← out_string f d (string_at s); some (g, more))
      else if d.type == b'd'
      then (do (n, more) ← va_arg args; g ← out_int f d n; some (g, more))
      else if d.type == b'u'
      then (do (n, more) ← va_arg args; g ← outdec f d.flags d.width n; some (g, more))
      else if (d.type == b'x') || (d.type == b'X')
      then (do (n, more) ← va_arg args; g ← outhex f d.flags d.width d.type n; some (g, more))
      else if d.type == b'p'
      then (do
        (n, more) ← va_arg args
        g ← outpointer (outc (outc f b'0') b'x') d.flags d.width n
        some (g, more))
      else some (f, args)

  -- Each round reads at least one character; the fuel is the length of the format.
  unfoldable pub format_loop : ℕ → Formatter → List ℕ → List ℕ → Option Formatter
  unfolding outc read_directive convert
  format_loop zero f fmt args = none
  format_loop (suc fuel) f [] args = none
  format_loop (suc fuel) f (c ∷ fmt) args =
      let plain = format_loop fuel (outc f c) fmt args in
      let next = λ (g : Formatter) (fmt' : List ℕ) (more : List ℕ). format_loop fuel g fmt' more in
      if c == 0
      then some f
      else if c == b'%'
      then (do d ← read_directive fmt; (g, more) ← convert f d args; next g d.rest more)
      else plain

  -- The memory afterwards, and the result. Pointers are 32 bits wide.
  unfoldable pub vsnprintf : Mem → ℕ → ℕ → List ℕ → List ℕ → Option (Mem × ℕ)
  unfolding format_loop
  vsnprintf m str size fmt args = do
    f ← format_loop (length fmt) (record { mem = m; p = str; end = sub32 (str + size) 1 }) fmt args
    some (terminated f, f.p - str)
