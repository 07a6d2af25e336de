-- ===== src/Tests/Shell.antt =====
-- A typed command, for the theorems on src/kshell.c.
use mathlib.Core.Option
use aijak.Common.{ℕ, ◌≡◌, refl, List, [], ◌∷◌, arith}
use aijak.Str.Number.{codes}
use aijak.Str.Tokens.Laws.{fields}
use aijak.Display.{Console}
use aijak.Shell.{shell_round}
use aijak.Shell.Laws.{decide}
use aijak.Shell.Typed.{Typed, wait, key, enter, seen, followed_by, shell_round-Typed}

abbrev console : Console
console = record { mem = λ a. 0; bgcol = 0; fgcol = 15; cx = 0; cy = 2 }

-- "arp" with its end, with a moment without a key, and the next key behind it.
abbrev keys : List ℕ
keys = 97 ∷ 0 ∷ 114 ∷ 112 ∷ 10 ∷ 99 ∷ []

keys-Typed : Typed keys (97 ∷ 114 ∷ 112 ∷ []) (99 ∷ [])
keys-Typed =
    key (omega arith) (omega arith)
      (wait refl (key (omega arith) (omega arith) (key (omega arith) (omega arith) (enter refl))))

shell_round-Typed_example :
    Option.map seen (shell_round (λ i. 0) console keys)
    ≡ Option.map (followed_by (99 ∷ [])) (decide (fields (codes " ") (97 ∷ 114 ∷ 112 ∷ [])))
shell_round-Typed_example =
    shell_round-Typed (λ i. 0) console keys (97 ∷ 114 ∷ 112 ∷ []) (99 ∷ []) keys-Typed (omega arith)
