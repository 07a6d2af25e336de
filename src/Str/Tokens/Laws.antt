-- ===== src/Str/Tokens/Laws.antt =====
-- src/string.c: the pieces of `strtok` are the fields of the string.
use aijak.Common.{
  ℕ, zero, suc, ◌+◌, ◌*◌, ◌/◌, ◌^◌, ◌<◌, ◌≡◌, refl, sym, ap, ◌∙◌, arith, Bool, true, false, some,
}
use aijak.Common.{
  List, [], ◌∷◌, ◌++◌, map, length, drop, ◌==◌, u32, if◌then◌else◌, set, Bool-cases, length-append,
  length-map, ◌≤◌, lt→ltb, inl, inr,
}
use aijak.Str.{store?}
use aijak.Str.Compare.{NonZero, cstr, strlen-cstr}
use aijak.Str.Tokens.{delim_loop, count_loop, cut_loop, cells, strtok}

abbrev is_delim : List ℕ → ℕ → Bool
is_delim [] c = false
is_delim (d ∷ ds) c = if c == d then true else is_delim ds c

abbrev with_first : ℕ → List (List ℕ) → List (List ℕ)
with_first c [] = []
with_first c (f ∷ fs) = (c ∷ f) ∷ fs

-- The fields of a string between the delimiters `ds`; two in a row have an empty one between them.
abbrev pub fields : List ℕ → List ℕ → List (List ℕ)
fields ds [] = [] ∷ []
fields ds (c ∷ cs) = if is_delim ds c then [] ∷ fields ds cs else with_first c (fields ds cs)

-- The text up to the final zero.
abbrev pub text : List ℕ → List ℕ
text [] = []
text (c ∷ s) = if c == 0 then [] else c ∷ text s

-- The string with a zero for each delimiter.
abbrev pub blanked : List ℕ → List ℕ → List ℕ
blanked ds [] = []
blanked ds (c ∷ cs) = (if is_delim ds c then 0 else c) ∷ blanked ds cs

-- The offsets behind the delimiters of a string that begins at `is`.
abbrev starts : List ℕ → List ℕ → ℕ → List ℕ
starts ds [] is = []
starts ds (c ∷ cs) is =
    if is_delim ds c then (is + 1) ∷ starts ds cs (is + 1) else starts ds cs (is + 1)

delim_loop-cstr :
    (ds more : List ℕ) (c : ℕ) → delim_loop (length ds) (cstr ds more) c ≡ some (is_delim ds c)
unfolding delim_loop
delim_loop-cstr [] more c = refl
delim_loop-cstr (d ∷ ds) more c = ground (arith, delim_loop-cstr ds more c)

pub set-end :
    (pre gs : List ℕ) (g v : ℕ) → set (pre ++ g ∷ gs) (length pre) v ≡ (pre ++ v ∷ []) ++ gs
set-end [] gs g v = refl
set-end (x ∷ pre) gs g v = ap (x ∷◌) (set-end pre gs g v)

-- A store to the first cell that is left.
store?-end :
    (pre gs : List ℕ) (g v : ℕ)
    → store? (pre ++ g ∷ gs) (length pre) v ≡ some ((pre ++ v ∷ []) ++ gs)
store?-end pre gs g v =
    let whole : length pre < length (pre ++ g ∷ gs) = omega (arith, length-append pre (g ∷ gs)) in
    rw (lt→ltb (length pre) (length (pre ++ g ∷ gs)) whole) (ap some (set-end pre gs g v))

pub ++-snoc : (pre gs : List ℕ) (v : ℕ) → (pre ++ v ∷ []) ++ gs ≡ pre ++ v ∷ gs
++-snoc [] gs v = refl
++-snoc (x ∷ pre) gs v = ap (x ∷◌) (++-snoc pre gs v)

first_of : (gs : List ℕ) {n : ℕ} → length gs ≡ suc n → (g : ℕ) × (gs' : List ℕ) × (gs ≡ g ∷ gs')
first_of [] e = absurd (omega arith)
first_of (g ∷ gs) e = (g, gs, refl)

module _ (ds more : List ℕ) where
  count_loop-starts :
      (cs rest : List ℕ) (n is : ℕ)
      → n + length cs < 2 ^ 32
      → count_loop (length ds) (cstr ds more) (length cs) (cstr cs rest) n
        ≡ some (n + length (starts ds cs is))
  unfolding count_loop
  count_loop-starts [] rest n is small = ap some {x = n} {y = n + 0} (omega arith)
  count_loop-starts (c ∷ cs) rest n is small =
      let next : u32 (n + 1) ≡ n + 1 = omega (arith, small) in
      rw (delim_loop-cstr ds more c) (elim (Bool-cases (is_delim ds c)) [
        | inl hit ↦
            rw (hit, next)
              (count_loop-starts cs rest (n + 1) (is + 1) (omega (arith, small))
                ∙ ap some {x = n + 1 + length (starts ds cs (is + 1))} (omega arith))
        | inr miss ↦ rw miss (count_loop-starts cs rest n (is + 1) (omega (arith, small)))
      ])

  cut_loop-starts :
      (cs rest pre gs : List ℕ) (is : ℕ)
      → length gs ≡ length (starts ds cs is)
      → cut_loop (length ds) (cstr ds more) (length cs) (cstr cs rest) is (pre ++ gs) (length pre)
        ≡ some (blanked ds cs ++ 0 ∷ rest, pre ++ starts ds cs is)
  unfolding cut_loop
  cut_loop-starts [] rest pre [] is fits = refl
  cut_loop-starts [] rest pre (g ∷ gs) is fits = absurd (omega arith)
  cut_loop-starts (c ∷ cs) rest pre gs is fits =
      rw (delim_loop-cstr ds more c) (elim (Bool-cases (is_delim ds c)) [
        | inl hit ↦
            let found : length gs ≡ suc (length (starts ds cs (is + 1))) = rw hit at fits in
            let (g, gs', whole) = first_of gs found in
            let pre' = pre ++ (is + 1) ∷ [] in
            let next : length pre + 1 ≡ length pre' =
              sym (length-append pre ((is + 1) ∷ [])) ∙ omega arith in
            rw
              (
                hit,
                whole,
                store?-end pre gs' g (is + 1),
                next,
                cut_loop-starts cs rest pre' gs' (is + 1) (omega (arith, found, ap length whole)),
                ++-snoc pre (starts ds cs (is + 1)) (is + 1),
              )
              refl
        | inr miss ↦
            let fits' : length gs ≡ length (starts ds cs (is + 1)) = rw miss at fits in
            rw (miss, cut_loop-starts cs rest pre gs (is + 1) fits') refl
      ])

drop-next : (k : ℕ) (w v : List ℕ) (x : ℕ) → drop k w ≡ x ∷ v → drop (k + 1) w ≡ v
drop-next zero w v x e = ap (drop 1) e
drop-next (suc k) [] v x e = absurd (omega (arith, ap length e))
drop-next (suc k) (y ∷ w) v x e =
    ap (λ n. drop n (y ∷ w)) {x = suc k + 1} {y = suc (k + 1)} (omega arith) ∙ drop-next k w v x e

module _ (ds : List ℕ) where
  -- The texts at the beginning of the string and behind each delimiter, for a suffix `cs` of it.
  text-fields :
      (cs rest w : List ℕ) (k : ℕ)
      → drop k w ≡ blanked ds cs ++ 0 ∷ rest
      → NonZero cs
      → text (drop k w) ∷ map (λ t. text (drop t w)) (starts ds cs k) ≡ fields ds cs
  text-fields [] rest w k at nz = rw at refl
  text-fields (c ∷ cs) rest w k at nz =
      let v = blanked ds cs ++ 0 ∷ rest in
      let step = drop-next k w v (if is_delim ds c then 0 else c) at in
      let more = text-fields cs rest w (k + 1) step nz.1 in
      elim (Bool-cases (is_delim ds c)) [
        | inl hit ↦ rw (at, hit) (ap ([] ∷◌) more)
        | inr miss ↦
            let here = at ∙ ap (λ b. (if b then 0 else c) ∷ v) miss in
            let shown : text (c ∷ v) ≡ c ∷ text v = ground (arith, nz.0) in
            rw (miss, here, shown) (ap (with_first c) (rw step at more))
      ]

length-cells : (old : ℕ → ℕ) (n : ℕ) → length (cells old n) ≡ n
length-cells old zero = refl
length-cells old (suc n) = ap suc (length-cells (λ i. old (suc i)) n)

store?-first :
    (old : ℕ → ℕ) (n v : ℕ) → store? (cells old (suc n)) 0 v ≡ some (v ∷ cells (λ i. old (suc i)) n)
store?-first old n v = ground (arith, length-cells (λ i. old (suc i)) n)

length-starts : (ds cs : List ℕ) (is : ℕ) → length (starts ds cs is) ≤ length cs
length-starts ds [] is = omega arith
length-starts ds (c ∷ cs) is = ground (arith, length-starts ds cs (is + 1))

-- For a string `cs` of fewer than 2 ^ 30 - 1 characters and delimiters `ds`, whatever the new array
-- held: `strtok` does not read or write out of bounds, it puts a zero in place of each delimiter,
-- its pointers, the first to the string itself, lead to the fields in their order, and its length is the number of the
-- fields.
pub strtok-fields :
    (old : ℕ → ℕ) (cs rest ds more : List ℕ)
    → NonZero cs
    → NonZero ds
    → length cs + 1 < 2 ^ 30
    → (later : List ℕ) × (strtok old (cstr cs rest) (cstr ds more)
        ≡ some (record {
          str = cstr (blanked ds cs) rest;
          tokens = 0 ∷ later;
          length = length (fields ds cs);
        }))
      × (map (λ t. text (drop t (cstr (blanked ds cs) rest))) (0 ∷ later) ≡ fields ds cs)
unfolding strtok
strtok-fields old cs rest ds more hcs hds small =
    let w = cstr (blanked ds cs) rest in
    let count = length (starts ds cs 0) in
    let few = length-starts ds cs 0 in
    let gs = cells (λ i. old (suc i)) count in
    let given : map (λ t. text (drop t w)) (0 ∷ starts ds cs 0) ≡ fields ds cs =
      text-fields ds cs rest w 0 refl hcs in
    let whole : 1 + count ≡ length (fields ds cs) =
      omega (arith, length-map (0 ∷ starts ds cs 0) (λ t. text (drop t w)), ap length given) in
    let size : u32 ((1 + count) * 4) / 4 ≡ suc count = omega (arith, few, small) in
    (
      starts ds cs 0,
      rw
          (
            strlen-cstr cs rest hcs,
            strlen-cstr ds more hds,
            count_loop-starts ds more cs rest 1 0 (omega (arith, small)),
            size,
            store?-first old count 0,
            cut_loop-starts ds more cs rest (0 ∷ []) gs 0 (length-cells (λ i. old (suc i)) count),
          )
          (ap (λ (n : ℕ). some (record { str = w; tokens = 0 ∷ starts ds cs 0; length = n }))
            whole),
      given,
    )
