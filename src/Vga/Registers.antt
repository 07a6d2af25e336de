-- ===== src/Vga/Registers.antt =====
-- src/vga.c: the port accesses of `write_registers`.
use mathlib.Core.Path.{subst}
use aijak.Common.{
  ℕ, ◌+◌, ◌<◌, ◌≡◌, refl, sym, ap, ◌∙◌, arith, Option, some, List, [], ◌∷◌, ◌++◌, length,
  length-append, get_elem?, bit_or, bit_and, lt→ltb, first_branch,
}
use mathlib.Core.List.{append_assoc}
use aijak.Str.{◌>>=◌, store?}
use aijak.Str.Tokens.Laws.{set-end, ++-snoc}
use aijak.Ports.{Hardware, outportb, inportb}
use aijak.Vga.{unit_loop, attribute_loop, unlock_crtc, keep_unlocked, write_registers}

-- The accesses of `write_registers` in their order: a write of a byte, a read whose value is not
-- used, and a byte that is read and written again with some bits changed.
pub data Access : Type 0 where
  write : ℕ → ℕ → Access
  read : ℕ → Access
  update : ℕ → (ℕ → ℕ) → Access

module _ (hw : Hardware) where
  unfoldable pub perform : hw.Device → List Access → hw.Device
  perform d [] = d
  perform d (write port v ∷ rest) = perform (outportb hw d port v) rest
  perform d (read port ∷ rest) = perform (inportb hw d port).0 rest
  perform d (update port f ∷ rest) =
      let (d', v) = inportb hw d port in perform (outportb hw d' port (f v)) rest

  perform-append :
      (d : hw.Device) (xs ys : List Access) → perform d (xs ++ ys) ≡ perform (perform d xs) ys
  unfolding perform
  perform-append d [] ys = refl
  perform-append d (write port v ∷ xs) ys = perform-append (outportb hw d port v) xs ys
  perform-append d (read port ∷ xs) ys = perform-append (inportb hw d port).0 xs ys
  perform-append d (update port f ∷ xs) ys =
      let x = inportb hw d port in perform-append (outportb hw x.0 port (f x.1)) xs ys

-- A unit with an index and a data port, from the register `i` on.
abbrev pub unit : ℕ → ℕ → List ℕ → List Access
unit port i [] = []
unit port i (r ∷ rs) = write port i ∷ write (port + 1) r ∷ unit port (i + 1) rs

abbrev pub attributes : ℕ → List ℕ → List Access
attributes i [] = []
attributes i (r ∷ rs) = read 0x3da ∷ write 0x3c0 i ∷ write 0x3c0 r ∷ attributes (i + 1) rs

abbrev pub unlock : List Access
unlock =
    write 0x3d4 0x03
    ∷ update 0x3d5 (λ v. bit_or v 0x80)
    ∷ write 0x3d4 0x11
    ∷ update 0x3d5 (λ v. bit_and v 0x7f)
    ∷ []

-- The registers of the units, one list for each.
abbrev pub script : ℕ → List ℕ → List ℕ → List ℕ → List ℕ → List Access
script misc seq crtc gc ac =
    (write 0x3c2 misc ∷ unit 0x3c4 0 seq)
    ++ (unlock
        ++ (unit 0x3d4 0 crtc
            ++ (unit 0x3ce 0 gc ++ (attributes 0 ac ++ read 0x3da ∷ write 0x3c0 0x20 ∷ []))))

module _ (hw : Hardware) where
  unit_loop-unit :
      (rs rest : List ℕ) (d : hw.Device) (port i : ℕ)
      → unit_loop hw (length rs) d port i (rs ++ rest) ≡ some (perform hw d (unit port i rs), rest)
  unfolding unit_loop perform
  unit_loop-unit [] rest d port i = refl
  unit_loop-unit (r ∷ rs) rest d port i =
      unit_loop-unit rs rest (outportb hw (outportb hw d port i) (port + 1) r) port (i + 1)

  attribute_loop-attributes :
      (rs rest : List ℕ) (d : hw.Device) (i : ℕ)
      → attribute_loop hw (length rs) d i (rs ++ rest) ≡ some (perform hw d (attributes i rs), rest)
  unfolding attribute_loop perform
  attribute_loop-attributes [] rest d i = refl
  attribute_loop-attributes (r ∷ rs) rest d i =
      attribute_loop-attributes rs rest
        (outportb hw (outportb hw (inportb hw d 0x3da).0 0x3c0 i) 0x3c0 r) (i + 1)

  unlock_crtc-unlock : (d : hw.Device) → unlock_crtc hw d ≡ perform hw d unlock
  unfolding unlock_crtc perform
  unlock_crtc-unlock d = refl

get_elem?-end : (pre post : List ℕ) (x : ℕ) → get_elem? (pre ++ x ∷ post) (length pre) ≡ some x
get_elem?-end [] post x = refl
get_elem?-end (y ∷ pre) post x = get_elem?-end pre post x

-- A store to the cell behind `pre`.
store?-behind :
    (pre post : List ℕ) (x v : ℕ) → store? (pre ++ x ∷ post) (length pre) v ≡ some (pre ++ v ∷ post)
store?-behind pre post x v =
    let inside : length pre < length (pre ++ x ∷ post) =
      omega (arith, length-append pre (x ∷ post)) in
    first_branch _ _ _ (lt→ltb (length pre) (length (pre ++ x ∷ post)) inside)
    ∙ ap some (set-end pre post x v ∙ ++-snoc pre post v)

-- The registers 3 and 17 of the list `a ++ x ∷ b ++ y ∷ c`.
keep_unlocked-both :
    (a b c : List ℕ) (x y : ℕ)
    → length a ≡ 3
    → length b ≡ 13
    → keep_unlocked (a ++ x ∷ (b ++ y ∷ c)) ≡ some (a ++ bit_or x 0x80 ∷ (b ++ bit_and y 0x7f ∷ c))
unfolding keep_unlocked
keep_unlocked-both a b c x y ea eb =
    let x' = bit_or x 0x80 in
    let ab = a ++ x' ∷ b in
    let flat : (v : ℕ) → ab ++ v ∷ c ≡ a ++ x' ∷ (b ++ v ∷ c) =
      λ v. append_assoc a (x' ∷ b) (v ∷ c) in
    let at : length ab ≡ 17 = omega (arith, length-append a (x' ∷ b), ea, eb) in
    let got3 : get_elem? (a ++ x ∷ (b ++ y ∷ c)) 3 ≡ some x =
      ap (get_elem? (a ++ x ∷ (b ++ y ∷ c))) (sym ea) ∙ get_elem?-end a (b ++ y ∷ c) x in
    let put3 : store? (a ++ x ∷ (b ++ y ∷ c)) 3 x' ≡ some (a ++ x' ∷ (b ++ y ∷ c)) =
      ap (λ i. store? (a ++ x ∷ (b ++ y ∷ c)) i x') (sym ea) ∙ store?-behind a (b ++ y ∷ c) x x' in
    let got17 : get_elem? (a ++ x' ∷ (b ++ y ∷ c)) 17 ≡ some y =
      ap (λ l. get_elem? l 17) (sym (flat y))
      ∙ ap (get_elem? (ab ++ y ∷ c)) (sym at)
      ∙ get_elem?-end ab c y in
    let put17 : store? (a ++ x' ∷ (b ++ y ∷ c)) 17 (bit_and y 0x7f)
        ≡ some (a ++ x' ∷ (b ++ bit_and y 0x7f ∷ c)) =
      ap (λ l. store? l 17 (bit_and y 0x7f)) (sym (flat y))
      ∙ ap (λ i. store? (ab ++ y ∷ c) i (bit_and y 0x7f)) (sym at)
      ∙ store?-behind ab c y (bit_and y 0x7f)
      ∙ ap some (flat (bit_and y 0x7f)) in
    ap
      (λ o. o >>= λ p. store? (a ++ x ∷ (b ++ y ∷ c)) 3 (bit_or p 0x80) >>= λ l.
        get_elem? l 17 >>= λ q. store? l 17 (bit_and q 0x7f))
      got3
    ∙ ap (λ o. o >>= λ l. get_elem? l 17 >>= λ q. store? l 17 (bit_and q 0x7f)) put3
    ∙ ap (λ o. o >>= λ q. store? (a ++ x' ∷ (b ++ y ∷ c)) 17 (bit_and q 0x7f)) got17
    ∙ put17

-- The rest of a chain after a step that succeeds.
after_some :
    {A B : Type 0} {o : Option A} {x : A} (k : A → Option B) {r : Option B}
    → o ≡ some x
    → k x ≡ r
    → (o >>= k) ≡ r
after_some {A} {B} {o} {x} k {r} e h = ap (λ (q : Option A). q >>= k) e ∙ h

module _ (hw : Hardware) where
  unit_loop-at :
      (n : ℕ) (rs rest : List ℕ) (d : hw.Device) (port i : ℕ)
      → length rs ≡ n
      → unit_loop hw n d port i (rs ++ rest) ≡ some (perform hw d (unit port i rs), rest)
  unit_loop-at n rs rest d port i e =
      subst
        (λ (l : ℕ).
          unit_loop hw l d port i (rs ++ rest) ≡ some (perform hw d (unit port i rs), rest))
        e (unit_loop-unit hw rs rest d port i)

  attribute_loop-at :
      (n : ℕ) (rs rest : List ℕ) (d : hw.Device)
      → length rs ≡ n
      → attribute_loop hw n d 0 (rs ++ rest) ≡ some (perform hw d (attributes 0 rs), rest)
  attribute_loop-at n rs rest d e =
      subst
        (λ (l : ℕ).
          attribute_loop hw l d 0 (rs ++ rest) ≡ some (perform hw d (attributes 0 rs), rest))
        e (attribute_loop-attributes hw rs rest d 0)

  -- The loops one after the other.
  script-parts :
      (d : hw.Device) (misc : ℕ) (seq crtc gc ac : List ℕ)
      → perform hw d (script misc seq crtc gc ac) ≡ (
          let d1 = perform hw (outportb hw d 0x3c2 misc) (unit 0x3c4 0 seq) in
          let d2 = perform hw (unlock_crtc hw d1) (unit 0x3d4 0 crtc) in
          let d4 = perform hw (perform hw d2 (unit 0x3ce 0 gc)) (attributes 0 ac) in
          outportb hw (inportb hw d4 0x3da).0 0x3c0 0x20)
  unfolding perform unlock_crtc
  script-parts d misc seq crtc gc ac =
      let end = read 0x3da ∷ write 0x3c0 0x20 ∷ [] in
      let last = attributes 0 ac ++ end in
      let d1 = perform hw (outportb hw d 0x3c2 misc) (unit 0x3c4 0 seq) in
      let d2 = perform hw d1 unlock in
      let d3 = perform hw d2 (unit 0x3d4 0 crtc) in
      perform-append hw (outportb hw d 0x3c2 misc) (unit 0x3c4 0 seq)
        (unlock ++ (unit 0x3d4 0 crtc ++ (unit 0x3ce 0 gc ++ last)))
      ∙ perform-append hw d1 unlock (unit 0x3d4 0 crtc ++ (unit 0x3ce 0 gc ++ last))
      ∙ perform-append hw d2 (unit 0x3d4 0 crtc) (unit 0x3ce 0 gc ++ last)
      ∙ perform-append hw d3 (unit 0x3ce 0 gc) last
      ∙ perform-append hw (perform hw d3 (unit 0x3ce 0 gc)) (attributes 0 ac) end

  -- For an array with the registers of all units, `write_registers` makes the accesses of `script` in
  -- its order: the miscellaneous register, the sequencer, the unlocking of the CRT controller, its
  -- registers with those two bits changed that lock them, the graphics controller, the attribute
  -- controller, and the end.
  pub write_registers-script :
      (d : hw.Device) (misc x y : ℕ) (seq a b c gc ac rest : List ℕ)
      → length seq ≡ 5
      → length a ≡ 3
      → length b ≡ 13
      → length c ≡ 7
      → length gc ≡ 9
      → length ac ≡ 21
      → write_registers hw d (misc ∷ (seq ++ (a ++ x ∷ (b ++ y ∷ (c ++ (gc ++ (ac ++ rest)))))))
        ≡ some
            (perform hw d (script misc seq (a ++ bit_or x 0x80 ∷ (b ++ bit_and y 0x7f ∷ c)) gc ac))
  unfolding write_registers
  write_registers-script d misc x y seq a b c gc ac rest es ea eb ec eg et =
      let x' = bit_or x 0x80 in
      let y' = bit_and y 0x7f in
      let crtc = a ++ x' ∷ (b ++ y' ∷ c) in
      let behind = gc ++ (ac ++ rest) in
      let d1 = perform hw (outportb hw d 0x3c2 misc) (unit 0x3c4 0 seq) in
      let d2 = perform hw (unlock_crtc hw d1) (unit 0x3d4 0 crtc) in
      let d3 = perform hw d2 (unit 0x3ce 0 gc) in
      let size : length crtc ≡ 25 =
        omega (arith, length-append a (x' ∷ (b ++ y' ∷ c)), length-append b (y' ∷ c), ea, eb, ec) in
      let flat : a ++ x' ∷ (b ++ y' ∷ (c ++ behind)) ≡ crtc ++ behind = sym (
        append_assoc a (x' ∷ (b ++ y' ∷ c)) behind
        ∙ ap (λ l. a ++ x' ∷ l) (append_assoc b (y' ∷ c) behind)) in
      after_some _
        (unit_loop-at 5 seq (a ++ x ∷ (b ++ y ∷ (c ++ behind))) (outportb hw d 0x3c2 misc) 0x3c4 0
          es)
        (after_some _ (keep_unlocked-both a b (c ++ behind) x y ea eb ∙ ap some flat) (
          after_some _ (unit_loop-at 25 crtc behind (unlock_crtc hw d1) 0x3d4 0 size) (
            after_some _ (unit_loop-at 9 gc (ac ++ rest) d2 0x3ce 0 eg) (
              after_some _ (attribute_loop-at 21 ac rest d3 et)
                (ap some (sym (script-parts d misc seq crtc gc ac)))))))
