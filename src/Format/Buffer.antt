-- ===== src/Format/Buffer.antt =====
-- src/stdlib/format.c: what `vsnprintf` leaves in the buffer and around it.
use mathlib.Core.Option
use aijak.Common.{ℕ, zero, suc, ◌+◌, ◌-◌, ◌^◌, ◌<◌, ◌≡◌, refl, arith, ap, ◌∙◌, inl, inr}
use aijak.Common.{◌≢◌, true, false, some, List, length, take, length-take}
use aijak.Common.{Option-cases, ◌==◌, ltb, if◌then◌else◌, u32, sub32}
use aijak.Memory.Bytes.{Mem, set_byte, SameOutside}
use aijak.Net.Packet.{read_bytes, write_bytes}
use aijak.Net.Packet.Laws.{read_bytes-write_bytes, read_bytes-eq, write_bytes-SameOutside}
use aijak.Format.{Formatter, terminated, vsnprintf}
use aijak.Format.Emit.{emit, emit-full, emit-stored, stored}
use aijak.Format.Render.{render}
use aijak.Format.Refine.{format_loop-render}

-- The buffer of `size` bytes at `str` with as much of a text as fits before a final zero, and the
-- length of what fits.
abbrev pub printed_to : Mem → ℕ → ℕ → List ℕ → Mem × ℕ
printed_to m str size out =
    let kept = take (size - 1) out in
    (if size == 0 then m else set_byte (write_bytes m str kept) (str + length kept) 0, length kept)

-- The memory keeps what is outside the buffer, and holds the beginning of the text and a zero.
abbrev pub Fits : Mem → ℕ → ℕ → List ℕ → Mem × ℕ → Type 0
Fits m str size out r =
    SameOutside str (str + size) m r.0
    × (0 < size
        → (r.1 < size) × (read_bytes r.0 str r.1 ≡ take (size - 1) out) × (r.0 (str + r.1) ≡ 0))

pub printed_to-Fits :
    (m : Mem) (str size : ℕ) (out : List ℕ) → Fits m str size out (printed_to m str size out)
printed_to-Fits m str zero out = ((λ b o. refl), λ h. absurd (omega arith))
printed_to-Fits m str (suc size) out =
    let kept : List ℕ = take (suc size - 1) out in
    let few = length-take (suc size - 1) out in
    let room : (suc size == 0) ≡ false = ground arith in
    let written = write_bytes m str kept in
    let last : ℕ = str + length kept in
    rw room (
      (λ b o.
          let away : b ≢ last = omega (arith, few) in
          let skip : set_byte written last 0 b ≡ written b = ground (arith, away) in
          skip ∙ write_bytes-SameOutside m str kept b (omega (arith, few))),
      (λ h. (
        omega (arith, few),
        read_bytes-eq written (set_byte written last 0) str (length kept) (λ b lo hi. ground arith)
            ∙ read_bytes-write_bytes m str kept,
        ground arith,
      )),
    )

abbrev start : Mem → ℕ → ℕ → Formatter
start m str size = record { mem = m; p = str; end = sub32 (str + size) 1 }

abbrev closing : ℕ → Formatter → Mem × ℕ
closing str f = (terminated f, f.p - str)

closing-emit :
    (m : Mem) (str size : ℕ) (out : List ℕ)
    → 0 < str
    → str + size < 2 ^ 32
    → closing str (emit (start m str size) out) ≡ printed_to m str size out
unfolding write_bytes
closing-emit m str zero out pos fit =
    let none : emit (start m str 0) out ≡ start m str 0 =
      emit-full (start m str 0) out (omega arith) in
    let test : ltb str (u32 (sub32 (str + 0) 1 + 1)) ≡ false = ground arith in
    let gone : str - str ≡ 0 = omega arith in ap (closing str) none ∙ rw (test, gone) refl
closing-emit m str (suc size) out pos fit =
    let kept = take size out in
    let s = start m str (suc size) in
    let all : emit s out ≡ stored s kept = emit-stored size s out (omega arith) in
    let test : ltb (str + length kept) (u32 (sub32 (str + suc size) 1 + 1)) ≡ true =
      ground (arith, length-take size out) in
    let back : str + length kept - str ≡ length kept = omega arith in
    let room : (suc size == 0) ≡ false = ground arith in
    let one_less : suc size - 1 ≡ size = omega arith in
    ap (closing str) all ∙ rw (test, back, room, one_less) refl

module _ (string : ℕ → List ℕ) (m : Mem) (str size : ℕ) (fmt args : List ℕ) (pos : 0 < str)
    (fit : str + size < 2 ^ 32) where
  -- `vsnprintf` into a buffer that the address space holds leaves as much of the text as fits, and
  -- a final zero. It returns the length of what it stored. It has no result exactly where the text
  -- has none.
  pub vsnprintf-render :
      vsnprintf string m str size fmt args
      ≡ Option.map (printed_to m str size) (render string fmt args)
  unfolding vsnprintf render
  vsnprintf-render = elim (Option-cases (render string fmt args)) [
    | inl e ↦ rw (format_loop-render string (length fmt) (start m str size) fmt args, e) refl
    | inr (out, e) ↦
        rw (format_loop-render string (length fmt) (start m str size) fmt args, e)
          (ap some (closing-emit m str size out pos fit))
  ]

  -- Into a buffer that the address space holds and that does not begin at 0, where the text exists:
  -- `vsnprintf` returns, and changes no byte outside its buffer. Into a
  -- buffer that is not empty it stores fewer characters than the buffer has bytes, the first ones
  -- of the text, and a zero behind them.
  pub vsnprintf-Fits :
      (out : List ℕ)
      → render string fmt args ≡ some out
      → (r : Mem × ℕ) × (vsnprintf string m str size fmt args ≡ some r) × Fits m str size out r
  vsnprintf-Fits out e = (
    printed_to m str size out,
    vsnprintf-render ∙ ap (Option.map (printed_to m str size)) e,
    printed_to-Fits m str size out,
  )
