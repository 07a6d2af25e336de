-- ===== src/Str/Number/Laws.antt =====
-- src/util.c: the digits that `itoa` and `uitoa` write stand for the number.
use mathlib.Core.Path.{subst}
use mathlib.Core.List.{append_assoc, reverse-append, reverse-reverse}
use native.Mathlib.Nat.{pow-suc}
use native.Mathlib.Decide.{dec_lt}
use aijak.Common.{
  ℕ, zero, suc, ◌+◌, ◌-◌, ◌*◌, ◌/◌, ◌%◌, ◌^◌, ◌≤◌, ◌<◌, ◌≡◌, refl, arith, sym, ap, ap₂, ◌∙◌,
}
use aijak.Common.{
  Bool, true, false, ◌&&◌, Option, some, none, List, [], ◌∷◌, ◌++◌, length, length-append,
}
use aijak.Common.{get_elem?, reverse, ◌==◌, ltb, if◌then◌else◌}
use aijak.Str.{store?}
use aijak.Str.Compare.{NonZero, NonZero-append, cstr}
use aijak.Str.Reverse.{str_reverse-reverse, store?-at}
use aijak.Str.Number.{digit_table, digit_loop, uitoa, itoa}

-- What a digit stands for, and what the digits from the lowest on stand for.
abbrev pub digit_value : ℕ → ℕ
digit_value c = if ltb c 58 then c - 48 else c - 87

abbrev pub value : ℕ → List ℕ → ℕ
value base [] = 0
value base (d ∷ ds) = digit_value d + base * value base ds

abbrev digit_char : ℕ → ℕ
digit_char r = if ltb r 10 then 48 + r else 87 + r

abbrev holds : Option ℕ → ℕ → Bool
holds none c = false
holds (some d) c = d == c

table_upto : ℕ → Bool
table_upto zero = true
table_upto (suc r) = holds (get_elem? digit_table (35 + r)) (digit_char r) && table_upto r

table_36 : table_upto 36 ≡ true
unfolding table_upto digit_table
table_36 = refl

holds-eq : (o : Option ℕ) (c : ℕ) → holds o c ≡ true → o ≡ some c
holds-eq none c e = cc
holds-eq (some d) c e = ground arith

table_upto-at :
    (n r : ℕ) → table_upto n ≡ true → r < n → get_elem? digit_table (35 + r) ≡ some (digit_char r)
unfolding table_upto
table_upto-at zero r e h = absurd (omega arith)
table_upto-at (suc n) r e h = elim (dec_lt r n) [
  | yes p ↦ table_upto-at n r (ground arith) p
  | no p ↦
      let same : n ≡ r = omega arith in
      subst (λ (k : ℕ). get_elem? digit_table (35 + k) ≡ some (digit_char k)) same
        (holds-eq (get_elem? digit_table (35 + n)) (digit_char n) (ground arith))
]

abbrev leaves : List ℕ → ℕ → Option (List ℕ × ℕ)
leaves s i = some (s, i)

-- What the loop leaves: the digits behind `front`, and nothing else changed behind them.
record Written (rounds n base : ℕ) (front tail : List ℕ) (o : Option (List ℕ × ℕ)) : Type 0 where
  ds : List ℕ
  rest : List ℕ
  returns : o ≡ some (front ++ (ds ++ rest), length front + length ds)
  stands : value base ds ≡ n
  ends : NonZero ds
  few : length ds ≤ rounds
  some_digit : 0 < length ds
  whole : length ds + length rest ≡ length tail

div-lt : (n base rounds : ℕ) → n < 2 ^ suc rounds → 2 ≤ base → n / base < 2 ^ rounds
div-lt n base rounds h two = grind (arith, pow-suc 2 rounds)

positive : (rounds d : ℕ) → d < 2 ^ rounds → 0 < d → 0 < rounds
positive zero d h p = absurd (omega arith)
positive (suc rounds) d h p = omega arith

digit_loop-Written :
    (rounds n base : ℕ) (front tail : List ℕ)
    → 2 ≤ base
    → base ≤ 36
    → n < 2 ^ rounds
    → 0 < rounds
    → rounds ≤ length tail
    → Written rounds n base front tail (digit_loop rounds n base (front ++ tail) (length front))
unfolding digit_loop
digit_loop-Written zero n base front tail two top fit pos room = absurd (omega arith)
digit_loop-Written (suc rounds) n base front [] two top fit pos room = absurd (omega arith)
digit_loop-Written (suc rounds) n base front (t ∷ tail) two top fit pos room =
    let r : ℕ = n % base in
    let c : ℕ = digit_char r in
    let at = table_upto-at 36 r table_36 (omega arith) in
    let small = div-lt n base rounds fit two in
    let front' = front ++ c ∷ [] in
    let joined : front ++ c ∷ tail ≡ front' ++ tail = sym (append_assoc front (c ∷ []) tail) in
    let long : length front' ≡ length front + 1 = length-append front (c ∷ []) in
    let back : digit_value c ≡ r = ground arith in
    let split : r + base * (n / base) ≡ n = grind arith in
    elim (dec_lt 0 (n / base)) [
      | yes more ↦
          let test : ltb 0 (n / base) ≡ true = ground arith in
          let ih =
            digit_loop-Written rounds (n / base) base front' tail two top small
              (positive rounds (n / base) small more) (omega arith) in
          let run : digit_loop rounds (n / base) base (front ++ c ∷ tail) (length front + 1)
              ≡ digit_loop rounds (n / base) base (front' ++ tail) (length front') =
            ap₂ (λ (s : List ℕ) (i : ℕ). digit_loop rounds (n / base) base s i) joined (sym long) in
          let regroup : front' ++ (ih.ds ++ ih.rest) ≡ front ++ ((c ∷ ih.ds) ++ ih.rest) =
            append_assoc front (c ∷ []) (ih.ds ++ ih.rest) in
          let index : length front' + length ih.ds ≡ length front + length (c ∷ ih.ds) =
            omega arith in
          record {
            ds = c ∷ ih.ds;
            rest = ih.rest;
            returns =
                rw (at, store?-at front t c tail, test)
                  (run ∙ ih.returns ∙ ap₂ (λ (s : List ℕ) (i : ℕ). leaves s i) regroup index);
            stands = rw (back, ih.stands) split;
            ends = (ground arith, ih.ends);
            few = omega (arith, ih.few);
            some_digit = omega arith;
            whole = omega (arith, ih.whole);
          }
      | no last ↦
          let test : ltb 0 (n / base) ≡ false = ground arith in
          record {
            ds = c ∷ [];
            rest = tail;
            returns = rw (at, store?-at front t c tail, test) refl;
            stands = grind arith;
            ends = (ground arith, tt);
            few = omega arith;
            some_digit = omega arith;
            whole = omega arith;
          }
    ]

-- `result` is a string of digits that stands for `n`.
pub record Printed (sign : List ℕ) (n base : ℕ) (result : Option (List ℕ)) : Type 0 where
  pub digits : List ℕ
  pub rest : List ℕ
  pub returns : result ≡ some (cstr (sign ++ digits) rest)
  pub stands : value base (reverse digits) ≡ n
  pub some_digit : 0 < length digits

at_least : (xs : List ℕ) → 0 < length xs → (x : ℕ) × (ys : List ℕ) × (xs ≡ x ∷ ys)
at_least [] h = absurd (omega arith)
at_least (x ∷ ys) h = (x, ys, refl)

length-reverse : (xs : List ℕ) → length (reverse xs) ≡ length xs
length-reverse [] = refl
length-reverse (x ∷ xs) =
    ap length (reverse-append (x ∷ []) xs)
    ∙ length-append (reverse xs) (x ∷ [])
    ∙ omega (arith, length-reverse xs)

module _ (n base : ℕ) (str : List ℕ) (two : 2 ≤ base) (top : base ≤ 36)
    (room : 36 ≤ length str) where
  -- `uitoa` of any 32-bit number, at a base from 2 to 36 and with 36 bytes of room, ends and
  -- leaves a string of digits that stands for the number.
  pub uitoa-Printed : n < 2 ^ 32 → Printed [] n base (uitoa n str base)
  unfolding uitoa
  uitoa-Printed fit =
      let w =
        digit_loop-Written 33 n base [] str two top (omega arith) (omega arith) (omega arith) in
      let (x, rest, e) = at_least w.rest (omega (arith, w.whole, w.few)) in
      let stored : store? (w.ds ++ w.rest) (length w.ds) 0 ≡ some (w.ds ++ 0 ∷ rest) =
        subst (λ t. store? (w.ds ++ t) (length w.ds) 0 ≡ some (w.ds ++ 0 ∷ rest)) (sym e)
          (store?-at w.ds x 0 rest) in
      let start : 0 + length w.ds ≡ length w.ds = omega arith in
      record {
        digits = reverse w.ds;
        rest = rest;
        returns = rw (w.returns, start, stored) (str_reverse-reverse w.ds rest w.ends);
        stands = rw reverse-reverse w.stands;
        some_digit = omega (arith, length-reverse w.ds, w.some_digit);
      }

  -- `itoa` of a negative `int` other than -2 ^ 31, at a base from 2 to 36 and with 36 bytes of
  -- room, ends and writes a minus sign and the digits of its
  -- absolute value.
  pub itoa-Printed :
      2 ^ 31 < n → n < 2 ^ 32 → Printed (b'-' ∷ []) (2 ^ 32 - n) base (itoa n str base)
  unfolding itoa
  itoa-Printed negative fit =
      let m : ℕ = 2 ^ 32 - n in
      let w =
        digit_loop-Written 33 m base [] str two top (omega arith) (omega arith) (omega arith) in
      let (x, rest, e) = at_least w.rest (omega (arith, w.whole, w.few)) in
      let (y, rest', f) = at_least rest (omega (arith, w.whole, w.few, ap length e)) in
      let sign : ltb n (2 ^ 31) ≡ false = ground arith in
      let least : (n == 2 ^ 31) ≡ false = ground arith in
      let both : w.rest ≡ x ∷ y ∷ rest' = e ∙ ap (λ t. x ∷ t) f in
      let start : 0 + length w.ds ≡ length w.ds = omega arith in
      let stored : store? (w.ds ++ w.rest) (length w.ds) b'-' ≡ some (w.ds ++ b'-' ∷ y ∷ rest') =
        subst (λ t. store? (w.ds ++ t) (length w.ds) b'-' ≡ some (w.ds ++ b'-' ∷ y ∷ rest'))
          (sym both) (store?-at w.ds x b'-' (y ∷ rest')) in
      let signed = w.ds ++ b'-' ∷ [] in
      let flat = append_assoc w.ds (b'-' ∷ []) in
      let long : length signed ≡ length w.ds + 1 = length-append w.ds (b'-' ∷ []) in
      let ended : store? (w.ds ++ b'-' ∷ y ∷ rest') (length w.ds + 1) 0 ≡ some (cstr signed rest') =
        subst (λ (t : List ℕ). store? t (length w.ds + 1) 0 ≡ some (cstr signed rest'))
          (flat (y ∷ rest'))
          (subst (λ (k : ℕ). store? (signed ++ y ∷ rest') k 0 ≡ some (cstr signed rest')) long
            (store?-at signed y 0 rest')) in
      record {
        digits = reverse w.ds;
        rest = rest';
        returns =
            rw (sign, least, w.returns, start, stored, ended)
              (str_reverse-reverse signed rest'
                  (NonZero-append w.ds (b'-' ∷ []) w.ends (omega arith, tt))
                ∙ ap (λ t. some (cstr t rest')) (reverse-append w.ds (b'-' ∷ [])));
        stands = rw reverse-reverse w.stands;
        some_digit = omega (arith, length-reverse w.ds, w.some_digit);
      }
