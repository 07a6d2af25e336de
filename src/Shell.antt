-- ===== src/Shell.antt =====
-- src/kshell.c: the line that the shell reads, and the command that it takes it for.
pub mod Laws
pub mod Typed
use mathlib.Core.Option
use Prim.Native.String.{String}
use aijak.Common.{
  ℕ, zero, suc, Bool, ◌+◌, ◌-◌, Option, none, some, List, [], ◌∷◌, ◌++◌, map, get_elem?, take, drop,
  set, replicate, ◌==◌, if◌then◌else◌,
}
use aijak.Str.{strcmp, ◌>>=◌}
use aijak.Str.Number.{codes}
use aijak.Str.Tokens.{Tokens, strtok}
use aijak.Display.{Console}
use aijak.Display.Print.{int, kprintf}

-- The bytes of a string literal.
abbrev pub literal : String → List ℕ
literal s = codes s ++ 0 ∷ []

abbrev pub cmdbuf_size : ℕ
cmdbuf_size = 255

-- What a command does; a string is the bytes from its pointer on.
pub data Action : Type 0 where
  show_tokens : List (List ℕ) → Action
  clear : Action
  dump_entries : Action
  ping : List ℕ → Action

-- `kprintf("%c", ch)`
abbrev pub echo : Console → ℕ → Console
echo d ch = (kprintf d (some (literal "%c")) (int ch ∷ [])).0

pub record Line : Type 0 where
  pub console : Console
  pub cmdbuf : List ℕ
  pub keys : List ℕ

-- The loop over `i`, with the calls of `keyboard_get_key` as the keys that it is going to return, 0
-- where none waits. `none` is a loop that still waits for a key.
unfoldable pub read_loop : ℕ → List ℕ → Console → List ℕ → ℕ → Option Line
read_loop zero keys d cmdbuf i = some (record { console = d; cmdbuf = cmdbuf; keys = keys })
read_loop (suc left) [] d cmdbuf i = none
read_loop (suc left) (ch ∷ keys) d cmdbuf i =
    let no_key = read_loop (suc left) keys d cmdbuf i in
    let next = read_loop left keys (echo d ch) (set cmdbuf i ch) (i + 1) in
    if ch == 0
    then no_key
    else (if ch == 10
        then some (record { console = echo d ch; cmdbuf = cmdbuf; keys = keys })
        else next)

-- `memset` of the buffer, the prompt, and the line.
unfoldable pub read_line : Console → List ℕ → Option Line
read_line d keys =
    read_loop cmdbuf_size keys (kprintf d (some (literal "KSH > ")) []).0 (replicate cmdbuf_size 0)
      0

abbrev pub ping_second : List ℕ → List ℕ → Option (List Action)
ping_second tokens str = do p ← get_elem? tokens 1; some (ping (drop p str) ∷ [])

-- What the tests choose; all four are made.
unfoldable pub chosen : Tokens → Bool → Bool → Bool → Bool → Option (List Action)
chosen t split clears arp pings = do
  sent ← (if pings then ping_second t.tokens t.str else some [])
  some (
      (if split then show_tokens (map (λ p. drop p t.str) (take t.length t.tokens)) ∷ [] else [])
      ++ (if clears then clear ∷ [] else [])
      ++ (if arp then dump_entries ∷ [] else [])
      ++ sent)

unfoldable pub run_tokens : Tokens → Option (List Action)
unfolding chosen
run_tokens t = do
  first ← get_elem? t.tokens 0
  split ← strcmp (drop first t.str) (literal "split")
  clears ← strcmp t.str (literal "clear")
  arp ← strcmp t.str (literal "arp")
  pings ← strcmp t.str (literal "ping")
  chosen t (split == 0) (clears == 0) (arp == 0) (pings == 0)

-- `none` is an access out of bounds. `old` is what stood in the memory of the array of tokens.
unfoldable pub shell_command : (ℕ → ℕ) → List ℕ → Option (List Action)
unfolding run_tokens
shell_command old cmdbuf = do t ← strtok old cmdbuf (literal " "); run_tokens t

-- A round of the shell: the actions, and the line with the keys that are left.
unfoldable pub shell_round : (ℕ → ℕ) → Console → List ℕ → Option (List Action × Line)
shell_round old d keys = do
  l ← read_line d keys
  actions ← shell_command old l.cmdbuf
  some (actions, l)
