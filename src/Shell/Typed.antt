-- ===== src/Shell/Typed.antt =====
-- src/kshell.c: a line that was typed, and the round of the shell that it makes.
use mathlib.Core.Path.{subst}
use mathlib.Core.Option
use aijak.Common.{
  ℕ, suc, ◌+◌, ◌-◌, ◌≤◌, ◌≡◌, ◌≢◌, refl, sym, ap, ◌∙◌, arith, Option, none, some, List, [], ◌∷◌,
  ◌++◌, map, length, replicate, ◌==◌, first_branch, second_branch, length-append,
}
use aijak.Str.{◌>>=◌}
use aijak.Str.Compare.{NonZero, cstr}
use aijak.Str.Number.{codes}
use aijak.Str.Tokens.Laws.{fields, set-end, ++-snoc}
use aijak.Display.{Console}
use aijak.Display.Print.{kprintf}
use aijak.Shell.{Action, Line, literal, echo, read_loop, read_line, shell_command, shell_round}
use aijak.Shell.Laws.{as_text, decide, shell_command-decide}

-- The keys `keys` are the line `cs` with its end, between them times without a key, and then `more`.
pub data Typed : List ℕ → List ℕ → List ℕ → Type 0 where
  enter : {c : ℕ} {more : List ℕ} → c ≡ 10 → Typed (c ∷ more) [] more
  wait : {c : ℕ} {keys cs more : List ℕ} → c ≡ 0 → Typed keys cs more → Typed (c ∷ keys) cs more
  key :
      {c : ℕ} {keys cs more : List ℕ}
      → c ≢ 0
      → c ≢ 10
      → Typed keys cs more
      → Typed (c ∷ keys) (c ∷ cs) more

Typed-NonZero : {keys cs more : List ℕ} → Typed keys cs more → NonZero cs
Typed-NonZero (enter e) = tt
Typed-NonZero (wait e t) = Typed-NonZero t
Typed-NonZero (key a b t) = (a, Typed-NonZero t)

-- What the loop leaves, with `pre` in the buffer before.
record Reads (pre cs more : List ℕ) (left : ℕ) (result : Option Line) : Type 0 where
  line : Line
  returns : result ≡ some line
  buffer : line.cmdbuf ≡ pre ++ (cs ++ replicate (left - length cs) 0)
  rest : line.keys ≡ more

read_loop-Reads :
    {keys cs more : List ℕ}
    → Typed keys cs more
    → (left : ℕ) (pre : List ℕ) (d : Console) → length cs ≤ left
    → Reads pre cs more
        (suc left)
        (read_loop (suc left) keys d (pre ++ replicate (suc left) 0) (length pre))
unfolding read_loop
read_loop-Reads (enter {c} {more} e) left pre d room = record {
  line = record { console = echo d c; cmdbuf = pre ++ replicate (suc left) 0; keys = more };
  returns =
      second_branch (c == 0) _ _ (ground (arith, e))
      ∙ first_branch (c == 10) _ _ (ground (arith, e));
  buffer = ap (λ (n : ℕ). pre ++ replicate n 0) {x = suc left} {y = suc left - 0} (omega arith);
  rest = refl;
}
read_loop-Reads (wait {c} {keys} {cs} {more} e t) left pre d room =
    let r = read_loop-Reads t left pre d room in
    record {
      line = r.line;
      returns = first_branch (c == 0) _ _ (ground (arith, e)) ∙ r.returns;
      buffer = r.buffer;
      rest = r.rest;
    }
read_loop-Reads (key {c} {keys} {cs} {more} a b t) left pre d room =
    let pre' = pre ++ c ∷ [] in
    let shorter : suc (left - 1) ≡ left = omega (arith, room) in
    let r =
      subst
        (λ (n : ℕ).
          Reads pre' cs more n (read_loop n keys (echo d c) (pre' ++ replicate n 0) (length pre')))
        shorter (read_loop-Reads t (left - 1) pre' (echo d c) (omega arith)) in
    let long : length pre + 1 ≡ length pre' = sym (length-append pre (c ∷ [])) ∙ omega arith in
    let less : suc left - suc (length cs) ≡ left - length cs = omega arith in
    record {
      line = r.line;
      returns =
          second_branch (c == 0) _ _ (ground (arith, a))
          ∙ second_branch (c == 10) _ _ (ground (arith, b))
          ∙ ap (λ buf. read_loop left keys (echo d c) buf (length pre + 1))
              (set-end pre (replicate left 0) 0 c)
          ∙ ap (λ (i : ℕ). read_loop left keys (echo d c) (pre' ++ replicate left 0) i) long
          ∙ r.returns;
      buffer =
          r.buffer
          ∙ ++-snoc pre (cs ++ replicate (left - length cs) 0) c
          ∙ ap (λ (n : ℕ). pre ++ c ∷ (cs ++ replicate n 0)) (sym less);
      rest = r.rest;
    }

-- The actions of a round, with their strings up to their ends, and the keys that are left.
abbrev pub seen : List Action × Line → List Action × List ℕ
seen r = (map as_text r.0, r.1.keys)

abbrev pub followed_by : List ℕ → List Action → List Action × List ℕ
followed_by more actions = (actions, more)

with_line :
    (l : Line) (more : List ℕ) (o : Option (List Action))
    → l.keys ≡ more
    → Option.map seen (o >>= λ actions. some (actions, l))
      ≡ Option.map (followed_by more) (Option.map (map as_text) o)
with_line l more none e = refl
with_line l more (some actions) e = ap (λ ks. some (map as_text actions, ks)) e

-- A line of up to 254 characters that is typed and ended makes one round of the shell: it does what
-- the fields of the line say, and takes no key behind the line.
pub shell_round-Typed :
    (old : ℕ → ℕ) (d : Console) (keys cs more : List ℕ)
    → Typed keys cs more
    → length cs ≤ 254
    → Option.map seen (shell_round old d keys)
      ≡ Option.map (followed_by more) (decide (fields (codes " ") cs))
unfolding shell_round read_line
shell_round-Typed old d keys cs more t few =
    let d' = (kprintf d (some (literal "KSH > ")) []).0 in
    let r = read_loop-Reads t 254 [] d' (omega arith) in
    let left : 255 - length cs ≡ suc (254 - length cs) = omega arith in
    let buffer : r.line.cmdbuf ≡ cstr cs (replicate (254 - length cs) 0) =
      r.buffer ∙ ap (λ (n : ℕ). cs ++ replicate n 0) left in
    let done =
      shell_command-decide old cs (replicate (254 - length cs) 0) (Typed-NonZero t) (omega arith) in
    ap (λ o. Option.map seen (o >>= λ l. shell_command old l.cmdbuf >>= λ acts. some (acts, l)))
      r.returns
    ∙ with_line r.line more (shell_command old r.line.cmdbuf) r.rest
    ∙ ap (λ buf. Option.map (followed_by more) (Option.map (map as_text) (shell_command old buf)))
        buffer
    ∙ ap (Option.map (followed_by more)) done
