-- ===== src/Tests/Files.antt =====
-- Mounts, for the theorems on src/fs/vfs.c.
use aijak.Common.{ℕ, zero, suc, ◌≤◌, ◌≡◌, refl, ap, List, [], ◌∷◌, length, take, arith}
use aijak.Str.Compare.{cstr}
use aijak.Vfs.{MountInfo, find_mount, endless}
use aijak.Vfs.Search.{Apart, find_mount-endless}

-- The root, and a path below it.
abbrev root_only : List MountInfo
root_only = record { loc = b'/' ∷ 0 ∷ []; dev = 4096 } ∷ []

abbrev path : List ℕ
path = b'/' ∷ b'a' ∷ b'b' ∷ []

not_root : (n : ℕ) → 2 ≤ n → Apart (take n path) root_only
not_root zero h = absurd (omega arith)
not_root (suc zero) h = absurd (omega arith)
not_root (suc (suc n)) h =
    ((b'/' ∷ [], [], refl, (omega arith, tt), λ e. absurd (omega (arith, ap length e))), tt)

find_mount-endless_example : find_mount 5 root_only (cstr path []) ≡ endless
find_mount-endless_example =
    find_mount-endless root_only 5 path [] (ground arith) (omega arith) (omega arith) not_root

-- A disk below the root.
abbrev disk_mount : MountInfo
disk_mount = record { loc = cstr path []; dev = 8192 }
