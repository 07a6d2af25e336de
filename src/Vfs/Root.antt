-- ===== src/Vfs/Root.antt =====
-- src/fs/vfs.c: what `vfs_ls` shows of the root.
use aijak.Common.{ℕ, ◌^◌, ◌<◌, ◌≡◌, ◌≢◌, Option, some, List, [], ◌∷◌, length}
use aijak.Str.{◌>>=◌}
use aijak.Str.Compare.{NonZero, cstr}
use aijak.Vfs.{MountInfo, slash}

-- The locations are C strings that are not empty.
abbrev pub HaveText : List MountInfo → Type 0
HaveText [] = Unit
HaveText (m ∷ ms) =
    ((s : List ℕ) × (q : List ℕ) × (m.loc ≡ cstr s q)
      × NonZero s
      × (0 < length s)
      × (length s < 2 ^ 32))
    × HaveText ms

-- The text of a location without its last part is "/" only for the root itself.
data Parent (s : List ℕ) (o : Option (List ℕ)) : Type 0 where
  is_root : s ≡ 47 ∷ [] → o ≡ some slash → Parent s o
  below : (t r : List ℕ) → o ≡ some (cstr t r) → NonZero t → t ≢ 47 ∷ [] → Parent s o
