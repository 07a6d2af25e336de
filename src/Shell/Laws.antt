-- ===== src/Shell/Laws.antt =====
-- src/kshell.c: a command is the first field of the line, and its arguments are the others.
use mathlib.Core.Path.{subst}
use mathlib.Core.Option
use aijak.Common.{
  ℕ, ◌+◌, ◌<◌, ◌^◌, ◌≡◌, ◌≢◌, ◌↔◌, refl, sym, ap, ◌∙◌, arith, Bool, true, false, ◌&&◌, Option, none,
  some, List, [], ◌∷◌, map, length, length-map, take, drop, ◌==◌, if◌then◌else◌, Bool-cases, inl,
  inr, first_branch, second_branch, ==_iff,
}
use aijak.Str.{strcmp, ◌>>=◌}
use aijak.Str.Compare.{NonZero, cstr, strcmp-eq_iff, strcmp-swap}
use aijak.Str.Number.{codes}
use aijak.Str.Tokens.{Tokens}
use aijak.Str.Tokens.Laws.{fields, text, blanked, strtok-fields}
use aijak.Shell.{
  Action, show_tokens, clear, dump_entries, ping, literal, chosen, run_tokens, shell_command,
}

abbrev pub same : List ℕ → List ℕ → Bool
same [] [] = true
same [] (y ∷ t) = false
same (x ∷ s) [] = false
same (x ∷ s) (y ∷ t) = (x == y) && same s t

same_iff : (s t : List ℕ) → (same s t ≡ true) ↔ (s ≡ t)
same_iff [] [] = ((λ e. refl), (λ e. refl))
same_iff [] (y ∷ t) = ((λ e. cc), (λ e. cc))
same_iff (x ∷ s) [] = ((λ e. cc), (λ e. cc))
same_iff (x ∷ s) (y ∷ t) = ground (arith, same_iff s t)

-- The action with its strings up to their ends.
abbrev pub as_text : Action → Action
as_text (show_tokens ps) = show_tokens (map text ps)
as_text clear = clear
as_text dump_entries = dump_entries
as_text (ping p) = ping (text p)

-- What the shell does for the fields of a line; `ping` with nothing behind it reads outside the
-- array of tokens.
abbrev pub ping_first : List (List ℕ) → Option (List Action)
ping_first [] = none
ping_first (a ∷ fs) = some (ping a ∷ [])

abbrev pub decide : List (List ℕ) → Option (List Action)
decide [] = some []
decide (f ∷ fs) =
    if same f (codes "split")
    then some (show_tokens (f ∷ fs) ∷ [])
    else (if same f (codes "clear")
        then some (clear ∷ [])
        else (if same f (codes "arp")
            then some (dump_entries ∷ [])
            else (if same f (codes "ping") then ping_first fs else some [])))

-- The result of `strcmp` with a literal.
record Compared (w : List ℕ) (name : List ℕ) : Type 0 where
  value : ℕ
  returns : strcmp w (cstr name []) ≡ some value
  decides : (value == 0) ≡ same (text w) name

compared :
    (s r name : List ℕ) → NonZero s → NonZero name → text (cstr s r) ≡ s → Compared (cstr s r) name
compared s r name hs hn e = elim (Bool-cases (same s name)) [
  | inl hit ↦ record {
    value = 0;
    returns = (strcmp-eq_iff s name r [] hs hn).1 ((same_iff s name).0 hit);
    decides = sym (ap (λ t. same t name) e ∙ hit);
  }
  | inr miss ↦
      let differ : s ≢ name = λ same_text. cc (miss, (same_iff s name).1 same_text) in
      let test : same (text (cstr s r)) name ≡ false = ap (λ t. same t name) e ∙ miss in
      elim (strcmp-swap s name r [] hs hn differ) [
        | inl (v, back) ↦ record { value = 255; returns = v; decides = sym test }
        | inr (v, back) ↦ record { value = 1; returns = v; decides = sym test }
      ]
]

-- A string that has an end is its text with that end.
record Ended (w : List ℕ) : Type 0 where
  behind : List ℕ
  split : w ≡ cstr (text w) behind
  clean : NonZero (text w)

ended : (u rest : List ℕ) → Ended (cstr u rest)
ended [] rest = record { behind = rest; split = refl; clean = tt }
ended (c ∷ u) rest =
    let e = ended u rest in
    elim (Bool-cases (c == 0)) [
      | inl stop ↦
          let nothing : text (c ∷ cstr u rest) ≡ [] = first_branch (c == 0) _ _ stop in
          record {
            behind = cstr u rest;
            split =
                ap (λ x. x ∷ cstr u rest) ((==_iff c 0).0 stop)
                ∙ ap (λ t. cstr t (cstr u rest)) (sym nothing);
            clean = subst NonZero (sym nothing) tt;
          }
      | inr more ↦
          let longer : text (c ∷ cstr u rest) ≡ c ∷ text (cstr u rest) =
            second_branch (c == 0) _ _ more in
          record {
            behind = e.behind;
            split = ap (c ∷◌) e.split ∙ ap (λ t. cstr t e.behind) (sym longer);
            clean = subst NonZero (sym longer) (ground (arith, more), e.clean);
          }
    ]

Compared-Ended : (w name : List ℕ) → Ended w → NonZero name → Compared w name
Compared-Ended w name e hn =
    subst (λ v. Compared v name) (sym e.split)
      (compared (text w) e.behind name e.clean hn (ap text (sym e.split)))

take-length : {A : Type 0} (xs : List A) → take (length xs) xs ≡ xs
take-length [] = refl
take-length (x ∷ xs) = ap (x ∷◌) (take-length xs)

-- The texts behind the pointers into `w`.
abbrev texts : List ℕ → List ℕ → List (List ℕ)
texts w ps = map (λ p. text (drop p w)) ps

map-texts : (w ps : List ℕ) → map text (map (λ p. drop p w) ps) ≡ texts w ps
map-texts w [] = refl
map-texts w (p ∷ ps) = ap (text (drop p w) ∷◌) (map-texts w ps)

-- The second field is behind the second pointer.
chosen-ping :
    (w later : List ℕ) (n : ℕ)
    → Option.map
        (map as_text)
        (chosen (record { str = w; tokens = 0 ∷ later; length = n }) false false false true)
      ≡ ping_first (texts w later)
unfolding chosen
chosen-ping w [] n = refl
chosen-ping w (p ∷ ps) n = refl

-- The model and the description for a first field `f`, at the results of the four tests.
abbrev Agree : Tokens → List (List ℕ) → List ℕ → Type 0
Agree t fs f =
    Option.map (map as_text) (
      chosen t (same f (codes "split")) (same f (codes "clear")) (same f (codes "arp"))
        (same f (codes "ping")))
    ≡ decide (f ∷ fs)

chosen-decide :
    (w later : List ℕ) (n : ℕ) (f : List ℕ)
    → n ≡ length (0 ∷ later)
    → text w ≡ f
    → Agree (record { str = w; tokens = 0 ∷ later; length = n }) (texts w later) f
unfolding chosen
chosen-decide w later n f e first =
    let t : Tokens = record { str = w; tokens = 0 ∷ later; length = n } in
    let fs = texts w later in
    let shown : map text (map (λ p. drop p w) (take n (0 ∷ later))) ≡ f ∷ fs =
      ap (λ k. map text (map (λ p. drop p w) (take k (0 ∷ later)))) e
      ∙ ap (λ ps. map text (map (λ p. drop p w) ps)) (take-length (0 ∷ later))
      ∙ map-texts w (0 ∷ later)
      ∙ ap (λ x. x ∷ fs) first in
    let at = λ (name : List ℕ) (hit : same f name ≡ true). sym ((same_iff f name).0 hit) in
    elim (Bool-cases (same f (codes "split"))) [
      | inl hit ↦ subst (Agree t fs) (at (codes "split") hit) (
          ap (λ q. some (show_tokens q ∷ []))
            (shown ∙ ap (λ x. x ∷ fs) (sym (at (codes "split") hit))))
      | inr no_split ↦ elim (Bool-cases (same f (codes "clear"))) [
        | inl hit ↦ subst (Agree t fs) (at (codes "clear") hit) refl
        | inr no_clear ↦ elim (Bool-cases (same f (codes "arp"))) [
          | inl hit ↦ subst (Agree t fs) (at (codes "arp") hit) refl
          | inr no_arp ↦ elim (Bool-cases (same f (codes "ping"))) [
            | inl hit ↦ subst (Agree t fs) (at (codes "ping") hit) (chosen-ping w later n)
            | inr no_ping ↦ rw (no_split, no_clear, no_arp, no_ping) refl
          ]
        ]
      ]
    ]

-- A call of `strcmp` with its test.
test_step :
    {A : Type 0} (w name : List ℕ) (c : Compared w name) (f : Bool → Option A)
    → (strcmp w (cstr name []) >>= λ v. f (v == 0)) ≡ f (same (text w) name)
test_step w name c f = ap (λ o. o >>= λ v. f (v == 0)) c.returns ∙ ap f c.decides

run_tokens-chosen :
    (w later : List ℕ) (n : ℕ)
    → Compared w (codes "split")
    → Compared w (codes "clear")
    → Compared w (codes "arp")
    → Compared w (codes "ping")
    → let f = text w in
      let t : Tokens = record { str = w; tokens = 0 ∷ later; length = n } in
      run_tokens t
      ≡ chosen t
          (same f (codes "split"))
          (same f (codes "clear"))
          (same f (codes "arp"))
          (same f (codes "ping"))
unfolding run_tokens
run_tokens-chosen w later n s1 s2 s3 s4 =
    let t : Tokens = record { str = w; tokens = 0 ∷ later; length = n } in
    let f = text w in
    let b1 = same f (codes "split") in
    let b2 = same f (codes "clear") in
    let b3 = same f (codes "arp") in
    test_step w (codes "split") s1 (λ a. strcmp w (literal "clear") >>= λ v2.
    strcmp w (literal "arp") >>= λ v3.
    strcmp w (literal "ping") >>= λ v4. chosen t a (v2 == 0) (v3 == 0) (v4 == 0))
    ∙ test_step w (codes "clear") s2 (λ b. strcmp w (literal "arp") >>= λ v3.
        strcmp w (literal "ping") >>= λ v4. chosen t b1 b (v3 == 0) (v4 == 0))
    ∙ test_step w (codes "arp") s3
        (λ c. strcmp w (literal "ping") >>= λ v4. chosen t b1 b2 c (v4 == 0))
    ∙ test_step w (codes "ping") s4 (λ d. chosen t b1 b2 b3 d)

-- For a line of fewer than 2 ^ 30 - 1 characters: the command is the field before the first blank,
-- and what it works on are the fields behind it, in their order. But `ping` without an argument
-- reads outside the array of tokens.
pub shell_command-decide :
    (old : ℕ → ℕ) (cs rest : List ℕ)
    → NonZero cs
    → length cs + 1 < 2 ^ 30
    → Option.map (map as_text) (shell_command old (cstr cs rest)) ≡ decide (fields (codes " ") cs)
unfolding shell_command
shell_command-decide old cs rest clean small =
    let blank = codes " " in
    let (later, cut, given) = strtok-fields old cs rest blank [] clean (ground arith) small in
    let w = cstr (blanked blank cs) rest in
    let n = length (fields blank cs) in
    let e = ended (blanked blank cs) rest in
    let against = λ (name : List ℕ) (hn : NonZero name). Compared-Ended w name e hn in
    let s1 = against (codes "split") (ground arith) in
    let s2 = against (codes "clear") (ground arith) in
    let s3 = against (codes "arp") (ground arith) in
    let s4 = against (codes "ping") (ground arith) in
    let count : n ≡ length (0 ∷ later) =
      omega (arith, ap length given, length-map (0 ∷ later) (λ p. text (drop p w))) in
    ap (λ o. Option.map (map as_text) (o >>= run_tokens)) cut
    ∙ ap (Option.map (map as_text)) (run_tokens-chosen w later n s1 s2 s3 s4)
    ∙ chosen-decide w later n (text w) count refl
    ∙ ap decide given
