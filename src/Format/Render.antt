-- ===== src/Format/Render.antt =====
-- src/stdlib/format.c: the text that a format and its arguments stand for, without a buffer.
use aijak.Common.{ℕ, zero, suc, ◌+◌, ◌-◌, ◌/◌, ◌%◌, ◌^◌, ◌||◌, Option, none, some}
use aijak.Common.{List, [], ◌∷◌, ◌++◌, length, replicate, ◌==◌, ltb, if◌then◌else◌, u8}
use aijak.Str.{◌>>=◌}
use aijak.Format.{
  ℤ, pos, negsuc, padchar, pads_first, hex_char, Directive, read_directive, va_arg, string_at,
}

-- The characters of a C string before its final zero.
unfoldable pub text : List ℕ → Option (List ℕ)
text [] = none
text (c ∷ s) = let rest = text s in if c == 0 then some [] else (do t ← rest; some (c ∷ t))

-- The digits of `n` at a base, the highest first and at most `places` of them.
unfoldable pub numeral : (ℕ → ℕ) → ℕ → ℕ → ℕ → List ℕ
numeral char base zero n = []
numeral char base (suc places) n =
    let high = numeral char base places (n / base) in
    (if ltb 0 (n / base) then high else []) ++ (char (n % base) ∷ [])

abbrev pub dec_char : ℕ → ℕ
dec_char r = b'0' + r

abbrev pub decimal : ℕ → List ℕ
decimal n = numeral dec_char 10 31 n

abbrev pub hexadecimal : ℕ → ℕ → List ℕ
hexadecimal type n = numeral (hex_char type) 16 31 n

-- The fill characters for a width that is left.
abbrev pub blanks : ℕ → ℤ → List ℕ
blanks flags (pos w) = replicate w (padchar flags)
blanks flags (negsuc w) = []

abbrev pub filled : ℕ → ℤ → List ℕ → List ℕ
filled flags width s = if pads_first flags then blanks flags width ++ s else s ++ blanks flags width

-- A text filled up to its width, on the left or, with `-`, on the right.
abbrev pub justify : ℕ → ℤ → List ℕ → List ℕ
justify flags (pos w) s = filled flags (pos (w - length s)) s
justify flags (negsuc w) s = s

-- A negative number has its sign in front of the filled digits.
abbrev pub signed : ℕ → ℤ → ℕ → Option (List ℕ)
signed flags width n =
    if ltb n (2 ^ 31)
    then some (justify flags width (decimal n))
    else (if n == 2 ^ 31 then none else some (b'-' ∷ justify flags width (decimal (2 ^ 32 - n))))

module _ (string : ℕ → List ℕ) where
  -- What a directive prints, and the arguments that are left.
  unfoldable pub converted : Directive → List ℕ → Option (List ℕ × List ℕ)
  unfolding text
  converted d args =
      if d.type == b'%'
      then some (b'%' ∷ [], args)
      else if d.type == b'c'
      then (do (n, more) ← va_arg args; some (u8 n ∷ [], more))
      else if d.type == b's'
      then (do
        (s, more) ← va_arg args
        t ← text (string_at string s)
        some (justify d.flags d.width t, more))
      else if d.type == b'd'
      then (do (n, more) ← va_arg args; t ← signed d.flags d.width n; some (t, more))
      else if d.type == b'u'
      then (do (n, more) ← va_arg args; some (justify d.flags d.width (decimal n), more))
      else if (d.type == b'x') || (d.type == b'X')
      then (do (n, more) ← va_arg args; some (justify d.flags d.width (hexadecimal d.type n), more))
      else if d.type == b'p'
      then (do
        (n, more) ← va_arg args
        some (b'0' ∷ b'x' ∷ justify d.flags d.width (hexadecimal b'x' n), more))
      else some ([], args)

  unfoldable pub render_loop : ℕ → List ℕ → List ℕ → Option (List ℕ)
  unfolding read_directive converted
  render_loop zero fmt args = none
  render_loop (suc fuel) [] args = none
  render_loop (suc fuel) (c ∷ fmt) args =
      let plain = render_loop fuel fmt args in
      let next = λ (fmt' : List ℕ) (more : List ℕ). render_loop fuel fmt' more in
      if c == 0
      then some []
      else if c == b'%'
      then (do
        d ← read_directive fmt
        (t, more) ← converted d args
        rest ← next d.rest more
        some (t ++ rest))
      else (do rest ← plain; some (c ∷ rest))

  unfoldable pub render : List ℕ → List ℕ → Option (List ℕ)
  unfolding render_loop
  render fmt args = render_loop (length fmt) fmt args
