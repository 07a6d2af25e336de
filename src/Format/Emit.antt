-- ===== src/Format/Emit.antt =====
-- src/stdlib/format.c: the characters that the formatter is given one by one, and what they leave
-- in the buffer.
use aijak.Common.{ℕ, zero, suc, ◌+◌, ◌≤◌, ◌≡◌, refl, ◌∙◌, ap, arith}
use aijak.Common.{List, [], ◌∷◌, ◌++◌, ltb, true, false, length, take, replicate}
use aijak.Memory.Bytes.{set_byte}
use aijak.Net.Packet.{write_bytes}
use aijak.Format.{Formatter, outc, pad}

-- One character after the other.
unfoldable pub emit : Formatter → List ℕ → Formatter
emit f [] = f
emit f (c ∷ cs) = emit (outc f c) cs

pub emit-append : (f : Formatter) (xs ys : List ℕ) → emit f (xs ++ ys) ≡ emit (emit f xs) ys
unfolding emit
emit-append f [] ys = refl
emit-append f (x ∷ xs) ys = emit-append (outc f x) xs ys

pub pad-emit : (f : Formatter) (c n : ℕ) → pad f c n ≡ emit f (replicate n c)
unfolding pad emit
pad-emit f c zero = refl
pad-emit f c (suc n) = pad-emit (outc f c) c n

-- The formatter after the characters `cs` went into the buffer.
abbrev pub stored : Formatter → List ℕ → Formatter
stored f cs = record f { mem = write_bytes f.mem f.p cs; p = f.p + length cs }

-- A full buffer takes no more.
pub emit-full : (f : Formatter) (cs : List ℕ) → f.end ≤ f.p → emit f cs ≡ f
unfolding emit outc
emit-full f [] h = refl
emit-full f (c ∷ cs) h =
    let test : ltb f.p f.end ≡ false = ground arith in rw (test, emit-full f cs h)

-- What fits is stored in order, and the rest is dropped.
pub emit-stored :
    (room : ℕ) (f : Formatter) (cs : List ℕ)
    → f.p + room ≡ f.end
    → emit f cs ≡ stored f (take room cs)
unfolding emit write_bytes outc
emit-stored zero f cs h =
    let here : f.p ≡ f.p + 0 = omega arith in
    emit-full f cs (omega arith) ∙ ap (λ (q : ℕ). record f { p = q }) here
emit-stored (suc room) f [] h =
    let here : f.p ≡ f.p + 0 = omega arith in ap (λ (q : ℕ). record f { p = q }) here
emit-stored (suc room) f (c ∷ cs) h =
    let test : ltb f.p f.end ≡ true = ground arith in
    let next = record f { mem = set_byte f.mem f.p c; p = f.p + 1 } in
    let shift : (f.p + 1) + length (take room cs) ≡ f.p + length (take (suc room) (c ∷ cs)) =
      omega arith in
    rw test (
      emit-stored room next cs (omega arith)
      ∙ ap (λ (q : ℕ). record (stored f (take (suc room) (c ∷ cs))) { p = q }) shift)
