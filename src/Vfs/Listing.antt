-- ===== src/Vfs/Listing.antt =====
-- src/fs/vfs.c: `vfs_ls`, up to the calls of the file system and of `kprintf`.
use aijak.Common.{
  ℕ, zero, suc, ◌-◌, ◌||◌, Option, none, some, List, [], ◌∷◌, ◌++◌, take, drop, ◌==◌, if◌then◌else◌,
  ◌+◌,
}
use aijak.Str.{◌>>=◌, strlen, strcmp, str_backspace}
use aijak.Vfs.{MountInfo, find_loc, slash}

-- `listed` is a call of `read_dir` of the file system of a mount, `printed` a line of text.
pub data Shown : Type 0 where
  listed : ℕ → List ℕ → Shown
  printed : List ℕ → Shown

-- `str_backspace` of the copy of a location.
abbrev pub parent_of : List ℕ → Option (List ℕ)
parent_of loc = do n ← strlen loc; r ← str_backspace (take (n + 1) loc) b'/'; some r.1

-- The line for a mount with the text `p` behind the directory.
abbrev pub line_of : List ℕ → List Shown → Option (List Shown)
line_of p more = do k ← strlen p; if k == 0 || k == 1 then some more else some (printed p ∷ more)

-- The inner loop, over `k`.
unfoldable pub children_loop : List MountInfo → List ℕ → Option (List Shown)
unfolding strcmp strlen str_backspace
children_loop [] dir = some []
children_loop (m ∷ ms) dir =
    let rest = children_loop ms dir in
    do
      mount ← parent_of m.loc
      r ← strcmp mount dir
      n ← strlen dir
      more ← rest
      if r == 0 then line_of (drop n m.loc) more else some more

-- `dir + strlen(loc) - 1`, which lies before the string for an empty location.
abbrev pub dir_behind : List ℕ → List ℕ → Option (List ℕ)
dir_behind dir loc = do n ← strlen loc; if n == 0 then none else some (drop (n - 1) dir)

abbrev pub mount_at : List MountInfo → ℕ → Option MountInfo
mount_at [] i = none
mount_at (m ∷ ms) zero = some m
mount_at (m ∷ ms) (suc i) = mount_at ms i

-- The first mount at `orig`, and the mounts below the directory.
abbrev pub found_at : List MountInfo → List ℕ → Option ℕ → Option (List Shown)
found_at mounts dir none = some []
found_at mounts dir (some i) = do
  m ← mount_at mounts i
  path ← dir_behind dir m.loc
  children ← children_loop mounts dir
  some (listed i path ∷ children)

-- A round of the loop, with its comparison to the root.
unfoldable pub ls_round : List MountInfo → List ℕ → List ℕ → Option (List Shown × ℕ)
unfolding find_loc strcmp children_loop
ls_round mounts dir orig = do
  at ← find_loc 0 mounts orig
  shown ← found_at mounts dir at
  r ← strcmp orig slash
  some (shown, r)

pub data Listing : Type 0 where
  complete : List Shown → Listing
  reads_outside : Listing
  endless : Listing

abbrev pub prefixed : List Shown → Listing → Listing
prefixed shown (complete more) = complete (shown ++ more)
prefixed shown reads_outside = reads_outside
prefixed shown endless = endless

abbrev pub next_round : (List ℕ → Listing) → Option (List Shown × ℕ) → Option (ℕ × List ℕ) → Listing
next_round next none back = reads_outside
next_round next (some (shown, r)) none = if r == 0 then complete shown else reads_outside
next_round next (some (shown, r)) (some back) =
    let more = prefixed shown (next back.1) in if r == 0 then complete shown else more

unfoldable pub ls_loop : ℕ → List MountInfo → List ℕ → List ℕ → Listing
unfolding ls_round str_backspace
ls_loop zero mounts dir orig = endless
ls_loop (suc rounds) mounts dir orig =
    next_round (λ back. ls_loop rounds mounts dir back) (ls_round mounts dir orig)
      (str_backspace orig b'/')

abbrev pub ls_copy : ℕ → List MountInfo → List ℕ → Option ℕ → Listing
ls_copy rounds mounts dir none = reads_outside
ls_copy rounds mounts dir (some n) = ls_loop rounds mounts dir (take (n + 1) dir)

unfoldable pub vfs_ls : ℕ → List MountInfo → List ℕ → Listing
unfolding ls_loop strlen
vfs_ls rounds mounts dir = ls_copy rounds mounts dir (strlen dir)
