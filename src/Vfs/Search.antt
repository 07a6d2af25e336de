-- ===== src/Vfs/Search.antt =====
-- src/fs/vfs.c: the search for the mount of a path.
use mathlib.Core.Path.{subst}
use Prim.Native.Nat.{min}
use aijak.Common.{
  ℕ, zero, suc, ◌+◌, ◌-◌, ◌^◌, ◌≤◌, ◌<◌, ◌≡◌, ◌≢◌, refl, sym, ap, ◌∙◌, inl, inr, arith,
}
use aijak.Common.{
  false, Option, none, some, List, [], ◌∷◌, ◌++◌, length, take, length-take, ◌==◌, sub32,
  get_elem?-append_at,
}
use aijak.Common.{get_elem?}
use aijak.Str.{strcmp, str_backspace}
use aijak.Str.Compare.{NonZero, cstr, strcmp-eq_iff, strcmp-swap, strlen-cstr}
use aijak.Str.Backspace.{str_backspace-Backspaced}
use aijak.Vfs.{MountInfo, find_loc, mount_loop, endless, find_mount, mounted}

-- No mount has the location `s`.
abbrev pub Apart : List ℕ → List MountInfo → Type 0
Apart s [] = Unit
Apart s (m ∷ ms) =
    ((l : List ℕ) × (q : List ℕ) × (m.loc ≡ cstr l q) × NonZero l × (l ≢ s)) × Apart s ms

-- No mount has one of the beginnings of `s` of two or more characters as its location.
abbrev pub NotMounted : List ℕ → List MountInfo → Type 0
NotMounted s ms = (n : ℕ) → 2 ≤ n → Apart (take n s) ms

pub NonZero-take : (n : ℕ) (s : List ℕ) → NonZero s → NonZero (take n s)
NonZero-take zero s h = tt
NonZero-take (suc n) [] h = tt
NonZero-take (suc n) (x ∷ s) h = (h.0, NonZero-take n s h.1)

take-take : (n k : ℕ) (s : List ℕ) → take n (take k s) ≡ take (min n k) s
take-take zero k s = ap (λ (m : ℕ). take m s) {x = 0} {y = min 0 k} (omega arith)
take-take (suc n) zero s = ap (λ (m : ℕ). take m s) {x = 0} {y = min (suc n) 0} (omega arith)
take-take (suc n) (suc k) [] =
    ap (λ (m : ℕ). take {A = ℕ} m []) {x = suc (min n k)} {y = min (suc n) (suc k)} (omega arith)
take-take (suc n) (suc k) (x ∷ s) =
    ap (λ t. x ∷ t) (take-take n k s)
    ∙ ap (λ (m : ℕ). take m (x ∷ s)) {x = suc (min n k)} {y = min (suc n) (suc k)} (omega arith)

take-length : (s : List ℕ) → take (length s) s ≡ s
take-length [] = refl
take-length (x ∷ s) = ap (λ t. x ∷ t) (take-length s)

-- A comparison that is not zero.
abbrev Differs : Option ℕ → Type 0
Differs o = (r : ℕ) × (o ≡ some r) × ((r == 0) ≡ false)

strcmp-Differs :
    (s t r q : List ℕ) → NonZero s → NonZero t → s ≢ t → Differs (strcmp (cstr s r) (cstr t q))
strcmp-Differs s t r q hs ht ne = elim (strcmp-swap s t r q hs ht ne) [
  | inl e ↦ (255, e.0, refl)
  | inr e ↦ (1, e.0, refl)
]

find_loc-Apart :
    (from : ℕ) (ms : List MountInfo) (s rest : List ℕ)
    → NonZero s
    → Apart s ms
    → find_loc from ms (cstr s rest) ≡ some none
unfolding find_loc
find_loc-Apart from [] s rest hs out = refl
find_loc-Apart from (m ∷ ms) s rest hs out =
    let (l, q, e, hl, ne) = out.0 in
    let (r, cmp, test) = strcmp-Differs l s q rest hl hs ne in
    let shown = ap (λ t. strcmp t (cstr s rest)) e ∙ cmp in
    rw (shown, test) (find_loc-Apart (from + 1) ms s rest hs out.1)

NotMounted-take :
    (k : ℕ) (s : List ℕ) (ms : List MountInfo) → 2 ≤ k → NotMounted s ms → NotMounted (take k s) ms
NotMounted-take k s ms h out n two =
    subst (λ t. Apart t ms) (sym (take-take n k s)) (out (min n k) (omega arith))

not_slash : (s : List ℕ) → 2 ≤ length s → s ≢ b'/' ∷ []
not_slash s h e = absurd (omega (arith, ap length e))

-- The copy of a path, and the character at its end.
pub copied : (s rest : List ℕ) → take (length s + 1) (cstr s rest) ≡ cstr s []
copied [] rest = refl
copied (x ∷ s) rest =
    ap (λ (n : ℕ). take n (x ∷ cstr s rest)) {x = suc (length s) + 1} {y = suc (length s + 1)}
      (omega arith)
    ∙ ap (λ t. x ∷ t) (copied s rest)

behind : (s rest : List ℕ) → get_elem? (cstr s rest) (length s) ≡ some 0
behind s rest = get_elem?-append_at s 0 rest

find_loc-mounted :
    (from : ℕ) (before : List MountInfo) (m : MountInfo) (after : List MountInfo)
    (s rest q : List ℕ)
    → NonZero s
    → Apart s before
    → m.loc ≡ cstr s q
    → find_loc from (before ++ m ∷ after) (cstr s rest) ≡ some (some (from + length before))
unfolding find_loc
find_loc-mounted from [] m after s rest q hs out e =
    let same = ap (λ t. strcmp t (cstr s rest)) e ∙ (strcmp-eq_iff s s q rest hs hs).1 refl in
    rw same (ap (λ (n : ℕ). some (some n)) {x = from} {y = from + 0} (omega arith))
find_loc-mounted from (b ∷ bs) m after s rest q hs out e =
    let (l, p, at, hl, ne) = out.0 in
    let (r, cmp, test) = strcmp-Differs l s p rest hl hs ne in
    let shown = ap (λ t. strcmp t (cstr s rest)) at ∙ cmp in
    let index : from + 1 + length bs ≡ from + suc (length bs) = omega arith in
    rw (shown, test)
      (find_loc-mounted (from + 1) bs m after s rest q hs out.1 e
        ∙ ap (λ (n : ℕ). some (some n)) index)

module _ (mounts : List MountInfo) where
  -- One round at a string that is no mount and not the root: the next one is at what
  -- `str_backspace` leaves.
  round :
      (rounds : ℕ) (s rest : List ℕ) (back : ℕ × List ℕ)
      → NonZero s
      → 2 ≤ length s
      → Apart s mounts
      → str_backspace (cstr s rest) b'/' ≡ some back
      → mount_loop (suc rounds) mounts (cstr s rest) ≡ mount_loop rounds mounts back.1
  unfolding mount_loop
  round rounds s rest back hs two out e =
      let (r, cmp, test) =
        strcmp-Differs s (b'/' ∷ []) rest [] hs (omega arith, tt) (not_slash s two) in
      rw (find_loc-Apart 0 mounts s rest hs out, cmp, e, test) refl

  mount_loop-endless :
      (rounds : ℕ) (s rest : List ℕ)
      → NonZero s
      → 2 ≤ length s
      → length s < 2 ^ 32
      → NotMounted s mounts
      → mount_loop rounds mounts (cstr s rest) ≡ endless
  mount_loop-endless zero s rest hs two small out = unfold mount_loop in refl
  mount_loop-endless (suc rounds) s rest hs two small out =
      let here = subst (λ t. Apart t mounts) (take-length s) (out (length s) two) in
      elim (str_backspace-Backspaced s rest b'/' hs (omega arith) small) [
        | inl (nowhere, e) ↦
            round rounds s rest (0, cstr s rest) hs two here e
            ∙ mount_loop-endless rounds s rest hs two small out
        | inr (j, one, at, after, (rest', e)) ↦
            let s' = take (j + 1) s in
            let long = length-take (j + 1) s in
            round rounds s rest (1, cstr s' rest') hs two here e
            ∙ mount_loop-endless rounds s' rest' (NonZero-take (j + 1) s hs) (omega (arith, long))
                (omega (arith, long)) (NotMounted-take (j + 1) s mounts (omega arith) out)
      ]

  -- `__find_mount` does not return, with any number of rounds, from a path of two or more
  -- characters of which no beginning of two or more characters is a mount, although the root may
  -- be one: `str_backspace` leaves the last slash, and the loop does not come to "/".
  pub find_mount-endless :
      (rounds : ℕ) (s rest : List ℕ)
      → NonZero s
      → 2 ≤ length s
      → length s < 2 ^ 32
      → NotMounted s mounts
      → find_mount rounds mounts (cstr s rest) ≡ endless
  unfolding find_mount
  find_mount-endless rounds s rest hs two small out =
      rw (strlen-cstr s rest hs, copied s rest, behind s [])
        (mount_loop-endless rounds s [] hs two small out)

-- A path that is the location of a mount, of which no earlier one has it, is found in the first
-- round, and the path that the file system is given is its last character.
pub find_mount-mounted :
    (rounds : ℕ) (before : List MountInfo) (m : MountInfo) (after : List MountInfo)
    (s rest q : List ℕ)
    → NonZero s
    → 0 < length s
    → length s < 2 ^ 32
    → Apart s before
    → m.loc ≡ cstr s q
    → find_mount (suc rounds) (before ++ m ∷ after) (cstr s rest)
      ≡ mounted (length before) (length s - 1)
unfolding find_mount mount_loop
find_mount-mounted rounds before m after s rest q hs some_char small out e =
    let less : sub32 (length s) 1 ≡ length s - 1 = omega arith in
    rw
      (
        strlen-cstr s rest hs,
        copied s rest,
        behind s [],
        find_loc-mounted 0 before m after s [] q hs out e,
        strlen-cstr s [] hs,
        less,
      )
      (ap (λ (n : ℕ). mounted n (length s - 1)) {x = 0 + length before} {y = length before}
        (omega arith))
