-- ===== src/Format/Refine.antt =====
-- src/stdlib/format.c: the formatter emits the text that Format.Render gives.
use mathlib.Core.Option
use aijak.Common.{ℕ, zero, suc, ◌^◌, ◌<◌, ◌≡◌, refl, arith, sym, ap, ◌∙◌, inl, inr}
use aijak.Common.{◌||◌, Option, some, none, List, [], ◌∷◌, ◌++◌}
use aijak.Common.{Option-cases, if-map, ◌==◌}
use aijak.Common.{u32}
use aijak.Str.{◌>>=◌}
use aijak.Format.{
  Formatter, outc, outpointer, out_string, out_int, convert, format_loop, Directive, read_directive,
  string_at,
}
use aijak.Format.Emit.{emit, emit-append}
use aijak.Format.Render.{text, justify, signed, converted, render_loop}
use aijak.Format.Outs.{outdec-justify, outhex-justify, out_int-signed, out_string-justify}

abbrev printed : Formatter → List ℕ × List ℕ → Formatter × List ℕ
printed f r = (emit f r.0, r.1)

passed_on :
    (f : Formatter) (h : List ℕ → List ℕ) (more : List ℕ) (o : Option Formatter)
    (p : Option (List ℕ))
    → o ≡ Option.map (λ t. emit f (h t)) p
    → (o >>= (λ g. some (g, more))) ≡ Option.map (printed f) (p >>= (λ t. some (h t, more)))
passed_on f h more o none e = rw e refl
passed_on f h more o (some t) e = rw e refl

prefixed :
    (f : Formatter) (t : List ℕ) (o : Option Formatter) (r : Option (List ℕ))
    → o ≡ Option.map (emit (emit f t)) r
    → o ≡ Option.map (emit f) (r >>= (λ rest. some (t ++ rest)))
prefixed f t o none e = e
prefixed f t o (some rest) e = e ∙ ap some (sym (emit-append f t rest))

prefixed-outc :
    (f : Formatter) (c : ℕ) (o : Option Formatter) (r : Option (List ℕ))
    → o ≡ Option.map (emit (outc f c)) r
    → o ≡ Option.map (emit f) (r >>= (λ rest. some (c ∷ rest)))
unfolding emit
prefixed-outc f c o r e = prefixed f (c ∷ []) o r e

module _ (string : ℕ → List ℕ) where
  convert-converted :
      (f : Formatter) (d : Directive) (args : List ℕ)
      → convert string f d args ≡ Option.map (printed f) (converted string d args)
  unfolding convert converted outpointer emit
  convert-converted f d [] =
      let g = Option.map (printed f) in
      let t = d.type in
      if-map g (t == b'%') refl (
        if-map g (t == b'c') refl (
          if-map g (t == b's') refl (
            if-map g (t == b'd') refl (
              if-map g (t == b'u') refl
                (if-map g ((t == b'x') || (t == b'X')) refl (if-map g (t == b'p') refl refl))))))
  convert-converted f d (a ∷ args) =
      let g = Option.map (printed f) in
      let t = d.type in
      let n : ℕ = u32 a in
      let small : n < 2 ^ 32 = omega arith in
      let same = λ (s : List ℕ). s in
      let just = justify d.flags d.width in
      let keep = λ (h : Formatter). some (h, args) in
      if-map g (t == b'%') refl (
        if-map g (t == b'c') refl (
          if-map g (t == b's')
            (passed_on f just args (out_string f d (string_at string n)) (text (string_at string n))
              (out_string-justify f d (string_at string n)))
            (if-map g (t == b'd')
              (passed_on f same args (out_int f d n) (signed d.flags d.width n)
                (out_int-signed f d n small))
              (if-map g (t == b'u')
                (ap (λ o. o >>= keep) (outdec-justify f d.flags d.width n small))
                (if-map g ((t == b'x') || (t == b'X'))
                  (ap (λ o. o >>= keep) (outhex-justify f d.flags d.width t n small))
                  (if-map g (t == b'p')
                    (ap (λ o. o >>= keep)
                      (outhex-justify (outc (outc f b'0') b'x') d.flags d.width b'x' n small))
                    refl))))))

  -- One directive, before a rest that is emitted as its text.
  directive-render :
      (run : Formatter → List ℕ → List ℕ → Option Formatter)
      (rest : List ℕ → List ℕ → Option (List ℕ))
      → ((f : Formatter) (fmt args : List ℕ) → run f fmt args ≡ Option.map (emit f) (rest fmt args))
      → (f : Formatter) (o : Option Directive) (args : List ℕ)
      → (o >>= (λ d. convert string f d args >>= (λ r. run r.0 d.rest r.1)))
        ≡ Option.map (emit f) (
            o >>= (λ d.
              converted string d args >>= (λ r. rest d.rest r.1 >>= (λ more. some (r.0 ++ more)))))
  directive-render run rest same f none args = refl
  directive-render run rest same f (some d) args = elim (Option-cases (converted string d args)) [
    | inl e ↦ rw (convert-converted f d args, e) refl
    | inr ((t, more), e) ↦
        rw (convert-converted f d args, e)
          (prefixed f t (run (emit f t) d.rest more) (rest d.rest more)
            (same (emit f t) d.rest more))
  ]

  -- The formatter emits the text of the format, from any state on.
  pub format_loop-render :
      (fuel : ℕ) (f : Formatter) (fmt args : List ℕ)
      → format_loop string fuel f fmt args ≡ Option.map (emit f) (render_loop string fuel fmt args)
  unfolding format_loop render_loop emit
  format_loop-render zero f fmt args = refl
  format_loop-render (suc fuel) f [] args = refl
  format_loop-render (suc fuel) f (c ∷ fmt) args =
      let g = Option.map (emit f) in
      if-map g (c == 0) refl (
        if-map g (c == b'%')
          (directive-render (format_loop string fuel) (render_loop string fuel)
            (format_loop-render fuel) f (read_directive fmt) args)
          (prefixed-outc f c (format_loop string fuel (outc f c) fmt args)
            (render_loop string fuel fmt args) (format_loop-render fuel (outc f c) fmt args)))
