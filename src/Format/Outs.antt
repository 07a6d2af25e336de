-- ===== src/Format/Outs.antt =====
-- src/stdlib/format.c: what each conversion emits.
use mathlib.Core.List.{append-nil}
use mathlib.Core.Option
use native.Mathlib.Decide.{dec_lt}
use aijak.Common.{ℕ, zero, suc, ◌-◌, ◌^◌, ◌<◌, ◌≡◌, refl, arith, sym, ap, ◌∙◌, inl, inr}
use aijak.Common.{true, false, some, none, List, [], ◌∷◌, ◌++◌, length}
use aijak.Common.{length-append, Bool-cases, Option-cases, if-map, ◌==◌, ltb, leb}
use aijak.Str.{strlen}
use aijak.Str.Compare.{NonZero}
use aijak.Format.{
  ℤ, pos, negsuc, sub_int, is_positive, Formatter, outc, put_string, pads_first, pad_loop, outs,
  outdec, outhex, out_string, out_int, Directive, padchar,
}
use aijak.Format.Emit.{emit, emit-append, pad-emit}
use aijak.Format.Render.{text, decimal, hexadecimal, blanks, filled, justify, signed}
use aijak.Format.Digits.{
  dec_loop-decimal, hex_loop-hexadecimal, decimal-NonZero, hexadecimal-NonZero,
}

put_string-text : (f : Formatter) (s : List ℕ) → put_string f s ≡ Option.map (emit f) (text s)
unfolding put_string text emit
put_string-text f [] = refl
put_string-text f (c ∷ s) = elim (Bool-cases (c == 0)) [
  | inl e ↦ rw e refl
  | inr e ↦ elim (Option-cases (text s)) [
    | inl n ↦ rw (e, put_string-text (outc f c) s, n) refl
    | inr (t, g) ↦ rw (e, put_string-text (outc f c) s, g) refl
  ]
]

pad_loop-emit :
    (f : Formatter) (flags : ℕ) (width : ℤ)
    → (pad_loop f (padchar flags) width).0 ≡ emit f (blanks flags width)
unfolding emit
pad_loop-emit f flags (pos w) = pad-emit f (padchar flags) w
pad_loop-emit f flags (negsuc w) = refl

-- Behind the first padding the width is negative, and nothing more is filled.
pad_loop-done :
    (f g : Formatter) (c d : ℕ) (width : ℤ) → (pad_loop g d (pad_loop f c width).1).0 ≡ g
pad_loop-done f g c d (pos w) = refl
pad_loop-done f g c d (negsuc w) = refl

outs-filled :
    (f : Formatter) (flags : ℕ) (width : ℤ) (s t : List ℕ)
    → text s ≡ some t
    → outs f flags width s ≡ some (emit f (filled flags width t))
unfolding outs
outs-filled f flags width s t e = elim (Bool-cases (pads_first flags)) [
  | inl first ↦
      let g = (pad_loop f (padchar flags) width).0 in
      rw (first, put_string-text g s, e)
        (ap some (
          pad_loop-done f (emit g t) (padchar flags) (padchar flags) width
          ∙ ap (λ h. emit h t) (pad_loop-emit f flags width)
          ∙ sym (emit-append f (blanks flags width) t)))
  | inr last ↦
      rw (last, put_string-text f s, e)
        (ap some
          (pad_loop-emit (emit f t) flags width ∙ sym (emit-append f t (blanks flags width))))
]

outs-fails :
    (f : Formatter) (flags : ℕ) (width : ℤ) (s : List ℕ)
    → text s ≡ none
    → outs f flags width s ≡ none
unfolding outs
outs-fails f flags width s e = elim (Bool-cases (pads_first flags)) [
  | inl first ↦
      let g = (pad_loop f (padchar flags) width).0 in rw (first, put_string-text g s, e) refl
  | inr last ↦ rw (last, put_string-text f s, e) refl
]

pub text-cstr : (t rest : List ℕ) → NonZero t → text (t ++ 0 ∷ rest) ≡ some t
unfolding text
text-cstr [] rest h = refl
text-cstr (c ∷ t) rest h =
    let test : (c == 0) ≡ false = ground (arith, h.0) in rw (test, text-cstr t rest h.1) refl

filled-sub_int :
    (flags : ℕ) (width : ℤ) (t : List ℕ)
    → filled flags (sub_int width (length t)) t ≡ justify flags width t
filled-sub_int flags (pos w) t = elim (Bool-cases (leb (length t) w)) [
  | inl e ↦ rw e refl
  | inr e ↦ let gone : w - length t ≡ 0 = ground arith in rw (e, gone) refl
]
filled-sub_int flags (negsuc w) t = elim (Bool-cases (pads_first flags)) [
  | inl e ↦ rw e refl
  | inr e ↦ rw e (append-nil t)
]

pub outdec-justify :
    (f : Formatter) (flags : ℕ) (width : ℤ) (n : ℕ)
    → n < 2 ^ 32
    → outdec f flags width n ≡ some (emit f (justify flags width (decimal n)))
unfolding outdec
outdec-justify f flags width n h =
    let t = decimal n in
    let long : length (t ++ 0 ∷ []) - 1 ≡ length t = omega (arith, length-append t (0 ∷ [])) in
    rw (dec_loop-decimal n h, long)
      (outs-filled f flags (sub_int width (length t)) (t ++ 0 ∷ []) t
          (text-cstr t [] (decimal-NonZero n))
        ∙ ap (λ u. some (emit f u)) (filled-sub_int flags width t))

pub outhex-justify :
    (f : Formatter) (flags : ℕ) (width : ℤ) (type n : ℕ)
    → n < 2 ^ 32
    → outhex f flags width type n ≡ some (emit f (justify flags width (hexadecimal type n)))
unfolding outhex
outhex-justify f flags width type n h =
    let t = hexadecimal type n in
    let long : length (t ++ 0 ∷ []) - 1 ≡ length t = omega (arith, length-append t (0 ∷ [])) in
    rw (hex_loop-hexadecimal type n h, long)
      (outs-filled f flags (sub_int width (length t)) (t ++ 0 ∷ []) t
          (text-cstr t [] (hexadecimal-NonZero type n))
        ∙ ap (λ u. some (emit f u)) (filled-sub_int flags width t))

pub out_int-signed :
    (f : Formatter) (d : Directive) (n : ℕ)
    → n < 2 ^ 32
    → out_int f d n ≡ Option.map (emit f) (signed d.flags d.width n)
unfolding out_int emit
out_int-signed f d n h = elim (dec_lt n (2 ^ 31)) [
  | yes p ↦
      let e : ltb n (2 ^ 31) ≡ true = ground arith in rw e (outdec-justify f d.flags d.width n h)
  | no p ↦
      let e : ltb n (2 ^ 31) ≡ false = ground arith in
      rw e (
        if-map (Option.map (emit f)) (n == 2 ^ 31) refl
          (outdec-justify (outc f b'-') d.flags d.width (2 ^ 32 - n) (omega arith)))
]

strlen-text : (s : List ℕ) → strlen s ≡ Option.map length (text s)
unfolding strlen text
strlen-text [] = refl
strlen-text (c ∷ s) = elim (Bool-cases (c == 0)) [
  | inl e ↦ rw e refl
  | inr e ↦ elim (Option-cases (text s)) [
    | inl n ↦ rw (e, strlen-text s, n) refl
    | inr (t, g) ↦ rw (e, strlen-text s, g) refl
  ]
]

filled-not_positive :
    (flags : ℕ) (width : ℤ) (t : List ℕ)
    → is_positive width ≡ false
    → filled flags width t ≡ justify flags width t
filled-not_positive flags (pos zero) t h = let none : 0 - length t ≡ 0 = omega arith in rw none refl
filled-not_positive flags (pos (suc w)) t h = absurd (ground arith)
filled-not_positive flags (negsuc w) t h = filled-sub_int flags (negsuc w) t

pub out_string-justify :
    (f : Formatter) (d : Directive) (s : List ℕ)
    → out_string f d s ≡ Option.map (λ t. emit f (justify d.flags d.width t)) (text s)
unfolding out_string
out_string-justify f d s = elim (Option-cases (text s)) [
  | inl e ↦ elim (Bool-cases (is_positive d.width)) [
    | inl p ↦ rw (p, strlen-text s, e) refl
    | inr p ↦ rw (p, e) (outs-fails f d.flags d.width s e)
  ]
  | inr (t, e) ↦ elim (Bool-cases (is_positive d.width)) [
    | inl p ↦
        rw (p, strlen-text s, e)
          (outs-filled f d.flags (sub_int d.width (length t)) s t e
            ∙ ap (λ u. some (emit f u)) (filled-sub_int d.flags d.width t))
    | inr p ↦
        rw (p, e)
          (outs-filled f d.flags d.width s t e
            ∙ ap (λ u. some (emit f u)) (filled-not_positive d.flags d.width t p))
  ]
]
