-- ===== src/Display/Print/Laws.antt =====
-- src/display/display.c: where `kprintf` leaves the cursor, and what it writes.
use aijak.Common.{
  first_branch, second_branch, sym, lt→ltb, u32, length, ap, ◌≡◌, ◌≢◌, ◌<◌, ◌^◌, arith, ℕ, zero,
  suc, ◌+◌, ◌*◌, Bool, true, false, Option, none, some, List, [], ◌∷◌, ◌==◌, ltb, if◌then◌else◌, u8,
  replicate, refl, ◌∙◌,
}
use aijak.Memory.Bytes.{SameOutside}
use aijak.Str.{strlen}
use aijak.Str.Compare.{NonZero, cstr, strlen-cstr}
use aijak.Str.Number.{itoa, uitoa}
use aijak.Display.{Console, textmode_putc, textmode_puts, vga_memory}
use aijak.Display.Laws.{InScreen, textmode_putc-InScreen, textmode_puts-InScreen}
use aijak.Display.Print.{
  Argument, int, text, Printing, Round, put_text, put_char, put_int, takes_int, directive,
  print_round, print_loop, kprintf, put_measured, print_measured,
}

-- A cursor on the screen, and no byte written outside 28 rows from its beginning.
abbrev pub OnScreen : Console → Console → Type 0
OnScreen d d' = InScreen d' × SameOutside vga_memory (vga_memory + 28 * 160) d.mem d'.mem

OnScreen-trans : (a b c : Console) → OnScreen a b → OnScreen b c → OnScreen a c
OnScreen-trans a b c h k = (k.0, (λ x out. k.1 x out ∙ h.1 x out))

-- The same of a round that is possible.
RoundOnScreen : Console → Round → Type 0
RoundOnScreen d none = Unit
RoundOnScreen d (some p) = OnScreen d p.console

either :
    (d : Console) (b : Bool) (x y : Round)
    → RoundOnScreen d x
    → RoundOnScreen d y
    → RoundOnScreen d (if b then x else y)
either d true x y h k = h
either d false x y h k = k

module _ (p : Printing) (h : InScreen p.console) where
  unmoved : OnScreen p.console p.console
  unmoved = (h, (λ x out. refl))

  put_measured-OnScreen :
      (args : List Argument) (s : List ℕ) (n : Option ℕ)
      → RoundOnScreen p.console (put_measured p args s n)
  unfolding put_measured RoundOnScreen
  put_measured-OnScreen args s none = tt
  put_measured-OnScreen args s (some n) = textmode_puts-InScreen p.console s h

  put_text-OnScreen :
      (args : List Argument) (s : Option (List ℕ)) → RoundOnScreen p.console (put_text p args s)
  unfolding put_text RoundOnScreen
  put_text-OnScreen args none = tt
  put_text-OnScreen args (some s) = put_measured-OnScreen args s (strlen s)

  put_char-OnScreen :
      (args : List Argument) (c : ℕ) (skip : Bool)
      → RoundOnScreen p.console (put_char p args c skip)
  unfolding put_char RoundOnScreen
  put_char-OnScreen args c skip = textmode_putc-InScreen p.console c h

  put_int-OnScreen : (c n : ℕ) (args : List Argument) → RoundOnScreen p.console (put_int p c n args)
  unfolding put_int
  put_int-OnScreen c n args =
      either p.console (c == b'd') (put_text p args (itoa n (replicate 16 0) 10)) _
        (put_text-OnScreen args (itoa n (replicate 16 0) 10))
        (either p.console (c == b'x') (put_text p args (uitoa n (replicate 32 0) 16)) _
          (put_text-OnScreen args (uitoa n (replicate 32 0) 16))
          (either p.console (c == b'b') (put_text p args (itoa n (replicate 32 0) 2)) _
            (put_text-OnScreen args (itoa n (replicate 32 0) 2))
            (put_char-OnScreen args (u8 n) true)))

  directive-OnScreen : (c : ℕ) (args : List Argument) → RoundOnScreen p.console (directive p c args)
  unfolding directive RoundOnScreen
  directive-OnScreen c [] =
      either p.console (if c == b's' then true else takes_int c) none _ tt unmoved
  directive-OnScreen c (int n ∷ args) =
      either p.console (c == b's') none _ tt
        (either p.console (takes_int c) (put_int p c n args) _ (put_int-OnScreen c n args) unmoved)
  directive-OnScreen c (text s ∷ args) =
      either p.console (c == b's') (put_text p args (some s)) _ (put_text-OnScreen args (some s))
        (either p.console (takes_int c) none _ tt unmoved)

  print_round-OnScreen : (c : ℕ) (fmt : List ℕ) → RoundOnScreen p.console (print_round p c fmt)
  unfolding print_round RoundOnScreen
  print_round-OnScreen c [] = either p.console p.skip _ none unmoved tt
  print_round-OnScreen c (next ∷ fmt) = either p.console p.skip _ _ unmoved (
      either p.console (c == b'%') (directive p next p.args) (put_char p p.args c false)
        (directive-OnScreen next p.args) (put_char-OnScreen p.args c false))

print_loop-OnScreen :
    (left : ℕ) (fmt : List ℕ) (p : Printing)
    → InScreen p.console
    → OnScreen p.console (print_loop left fmt p).0
unfolding print_loop RoundOnScreen
print_loop-OnScreen zero fmt p h = unmoved p h
print_loop-OnScreen (suc left) [] p h = unmoved p h
print_loop-OnScreen (suc left) (c ∷ fmt) p h =
    go (print_round p c fmt) (print_round-OnScreen p h c fmt) (print_loop-OnScreen left fmt)
  where
    go :
        (r : Round)
        → RoundOnScreen p.console r
        → ((p' : Printing) → InScreen p'.console → OnScreen p'.console (print_loop left fmt p').0)
        → OnScreen p.console
            (elim r as (λ r. Console × Option ℕ) [
              | none ↦ (p.console, none)
              | some p' ↦ print_loop left fmt p'
            ]).0
    go none k next = unmoved p h
    go (some p') k next =
        OnScreen-trans p.console p'.console (print_loop left fmt p').0 k (next p' k.0)

print_measured-OnScreen :
    (d : Console) (fmt : List ℕ) (args : List Argument) (n : Option ℕ)
    → InScreen d
    → OnScreen d (print_measured d fmt args n).0
unfolding print_measured
print_measured-OnScreen d fmt args none h = (h, (λ x out. refl))
print_measured-OnScreen d fmt args (some n) h = within (ltb n 65536)
  where
    within :
        (b : Bool)
        → OnScreen d
            (if b
              then print_loop n fmt (record { console = d; len = 0; args = args; skip = false })
              else (d, none)).0
    within true =
        print_loop-OnScreen n fmt (record { console = d; len = 0; args = args; skip = false }) h
    within false = (h, (λ x out. refl))

-- Text for the display alone: no final zero and no `%`.
abbrev pub Plain : List ℕ → Type 0
Plain [] = Unit
Plain (c ∷ cs) = (c ≢ 0) × (c ≢ b'%') × Plain cs

print_round-put_char :
    (p : Printing) (c : ℕ) (cs rest : List ℕ)
    → p.skip ≡ false
    → c ≢ b'%'
    → print_round p c (cstr cs rest) ≡ put_char p p.args c false
unfolding print_round
print_round-put_char p c [] rest e h =
    second_branch p.skip _ _ e ∙ second_branch (c == b'%') _ _ (ground (arith, h))
print_round-put_char p c (x ∷ cs) rest e h =
    second_branch p.skip _ _ e ∙ second_branch (c == b'%') _ _ (ground (arith, h))

print_loop-textmode_puts :
    (cs rest : List ℕ) (p : Printing)
    → p.skip ≡ false
    → Plain cs
    → p.len + length cs < 2 ^ 32
    → print_loop (length cs) (cstr cs rest) p
      ≡ (textmode_puts p.console (cstr cs rest), some (p.len + length cs))
unfolding print_loop textmode_puts put_char
print_loop-textmode_puts [] rest p e h fit =
    ap (λ (n : ℕ). (p.console, some n)) {x = p.len} {y = p.len + 0} (omega arith)
print_loop-textmode_puts (c ∷ cs) rest p e h fit =
    let next : u32 (p.len + 1) ≡ p.len + 1 = omega arith in
    let p' : Printing = record p {
      console = textmode_putc p.console c;
      len = p.len + 1;
      skip = false;
    } in
    let ih = print_loop-textmode_puts cs rest p' refl h.2 (omega arith) in
    let shown : (c == 0) ≡ false = ground (arith, h.0) in
    ap
      (λ (r : Round). elim r as (λ r. Console × Option ℕ) [
        | none ↦ (p.console, none)
        | some p' ↦ print_loop (length cs) (cstr cs rest) p'
      ])
      (print_round-put_char p c cs rest e h.1)
    ∙ ap (λ (n : ℕ). print_loop (length cs) (cstr cs rest) (record p' { len = n })) next
    ∙ ih
    ∙ ap (λ (n : ℕ). (textmode_puts p'.console (cstr cs rest), some n)) {x = p.len + 1 + length cs}
        {y = p.len + length (c ∷ cs)} (omega arith)
    ∙ ap (λ (d : Console). (d, some (p.len + length (c ∷ cs))))
        (sym (second_branch (c == 0) p.console (textmode_puts p'.console (cstr cs rest)) shown))

-- From a cursor in the first 25 rows and at most behind the last column, `kprintf` of any format
-- and arguments leaves such a cursor and writes no byte outside 28 rows from the screen's
-- beginning. That holds as well of what it has written where it stops, as an argument is missing or
-- a number is too long for its buffer.
pub kprintf-OnScreen :
    (d : Console) (fmt : Option (List ℕ)) (args : List Argument)
    → InScreen d
    → OnScreen d (kprintf d fmt args).0
unfolding kprintf
kprintf-OnScreen d none args h = (h, (λ x out. refl))
kprintf-OnScreen d (some fmt) args h = print_measured-OnScreen d fmt args (strlen fmt) h

Plain-NonZero : (cs : List ℕ) → Plain cs → NonZero cs
Plain-NonZero [] h = tt
Plain-NonZero (c ∷ cs) h = (h.0, Plain-NonZero cs h.2)

-- A format of fewer than 2 ^ 16 characters without a directive is put on the display as it stands,
-- and its length is returned.
pub kprintf-textmode_puts :
    (d : Console) (cs rest : List ℕ) (args : List Argument)
    → Plain cs
    → length cs < 65536
    → kprintf d (some (cstr cs rest)) args ≡ (textmode_puts d (cstr cs rest), some (length cs))
unfolding kprintf print_measured
kprintf-textmode_puts d cs rest args h few =
    let start : Printing = record { console = d; len = 0; args = args; skip = false } in
    ap (print_measured d (cstr cs rest) args) (strlen-cstr cs rest (Plain-NonZero cs h))
    ∙ first_branch (ltb (length cs) 65536) _ _ (lt→ltb (length cs) 65536 few)
    ∙ print_loop-textmode_puts cs rest start refl h (omega (arith, few))
    ∙ ap (λ (n : ℕ). (textmode_puts d (cstr cs rest), some n)) {x = 0 + length cs} {y = length cs}
        (omega arith)
