-- ===== src/Vfs.antt =====
-- src/fs/vfs.c and src/device.c: the mounts and the table of devices. Nothing in the program adds
-- a mount, so the array up to its first null pointer is an argument.
pub mod Search
pub mod Devices
pub mod Listing
pub mod Root
use mathlib.Core.Option
use aijak.Common.{
  ℕ, zero, suc, ◌+◌, ◌-◌, ◌^◌, Bool, true, false, Option, none, some, List, [], ◌∷◌, ◌++◌,
}
use aijak.Common.{length, get_elem?, take, drop, set, ◌==◌, ltb, if◌then◌else◌, u8, sub32}
use aijak.Str.{strlen, strcmp, str_backspace, ◌>>=◌}

-- `loc` is a C string, `dev` the address of the device.
pub record MountInfo : Type 0 where
  pub loc : List ℕ
  pub dev : ℕ

-- The first mount with a location, by its index. `from` is the index of the first one given.
unfoldable pub find_loc : ℕ → List MountInfo → List ℕ → Option (Option ℕ)
unfolding strcmp
find_loc from [] orig = some none
find_loc from (m ∷ ms) orig =
    let rest = find_loc (from + 1) ms orig in
    do r ← strcmp m.loc orig; if r == 0 then some (some from) else rest

-- `check_mount`, which finds the device, over the mounts below `last_mount_id`.
unfoldable pub check_mount : List MountInfo → List ℕ → Option (Option ℕ)
unfolding strcmp
check_mount [] loc = some none
check_mount (m ∷ ms) loc =
    let rest = check_mount ms loc in
    do r ← strcmp loc m.loc; if r == 0 then some (some m.dev) else rest

-- How the search for the mount of a path ends. `endless` is a loop that the rounds do not finish.
pub data Looked : Type 0 where
  mounted : (index adjust : ℕ) → Looked
  root : Looked
  reads_outside : Looked
  endless : Looked

-- "/"
abbrev pub slash : List ℕ
slash = b'/' ∷ 0 ∷ []

abbrev pub adjusted : ℕ → Option ℕ → Looked
adjusted i none = reads_outside
adjusted i (some n) = mounted i (sub32 n 1)

abbrev pub at_root : (List ℕ → Looked) → Option ℕ → Option (ℕ × List ℕ) → Looked
at_root next none back = reads_outside
at_root next (some r) none = if r == 0 then root else reads_outside
at_root next (some r) (some back) = let more = next back.1 in if r == 0 then root else more

abbrev pub after_search : (List ℕ → Looked) → List ℕ → Option (Option ℕ) → Looked
after_search next orig none = reads_outside
after_search next orig (some (some i)) = adjusted i (strlen orig)
after_search next orig (some none) = at_root next (strcmp orig slash) (str_backspace orig b'/')

-- The loop of `__find_mount`, at the copy of the path.
unfoldable pub mount_loop : ℕ → List MountInfo → List ℕ → Looked
unfolding find_loc strlen strcmp str_backspace
mount_loop zero mounts orig = endless
mount_loop (suc rounds) mounts orig =
    after_search (λ back. mount_loop rounds mounts back) orig (find_loc 0 mounts orig)

-- `if (orig[strlen(orig)] == '/') str_backspace(orig, '/')`
abbrev pub without_slash : List ℕ → ℕ → Option (List ℕ)
without_slash orig n = do
  c ← get_elem? orig n
  if c == b'/' then (do r ← str_backspace orig b'/'; some r.1) else some orig

abbrev pub found_in : ℕ → List MountInfo → Option (List ℕ) → Looked
found_in rounds mounts none = reads_outside
found_in rounds mounts (some orig) = mount_loop rounds mounts orig

unfoldable pub find_mount : ℕ → List MountInfo → List ℕ → Looked
unfolding mount_loop strlen str_backspace
find_mount rounds mounts filename =
    found_in rounds mounts (do n ← strlen filename; without_slash (take (n + 1) filename) n)

-- `vfs_read` up to the call of the file system: the index of the mount and the path for it.
abbrev pub path_for : List ℕ → Looked → Option (ℕ × List ℕ)
path_for filename (mounted i adjust) = some (i, drop adjust filename)
path_for filename root = some (0, filename)
path_for filename reads_outside = none
path_for filename endless = none

unfoldable pub vfs_read : ℕ → List MountInfo → List ℕ → Option (ℕ × List ℕ)
unfolding find_mount
vfs_read rounds mounts filename = path_for filename (find_mount rounds mounts filename)

-- The path that `vfs_exist_in_dir` looks for: both names, a slash behind them and the end.
abbrev pub exist_path : List ℕ → List ℕ → List ℕ
exist_path wd fn = (wd ++ fn) ++ b'/' ∷ 0 ∷ []

-- `vfs_exist_in_dir` up to the call of the file system; the texts of the names are given. Its loop
-- compares as that of `__find_mount` does, with the arguments of `strcmp` the other way round.
unfoldable pub find_loc_swapped : ℕ → List MountInfo → List ℕ → Option (Option ℕ)
unfolding strcmp
find_loc_swapped from [] orig = some none
find_loc_swapped from (m ∷ ms) orig =
    let rest = find_loc_swapped (from + 1) ms orig in
    do r ← strcmp orig m.loc; if r == 0 then some (some from) else rest

unfoldable pub exist_loop : ℕ → List MountInfo → List ℕ → Looked
unfolding find_loc_swapped strlen strcmp str_backspace
exist_loop zero mounts orig = endless
exist_loop (suc rounds) mounts orig =
    after_search (λ back. exist_loop rounds mounts back) orig (find_loc_swapped 0 mounts orig)

unfoldable pub vfs_exist_in_dir : ℕ → List MountInfo → List ℕ → List ℕ → Looked
unfolding exist_loop
vfs_exist_in_dir rounds mounts wd fn = exist_loop rounds mounts (exist_path wd fn)
