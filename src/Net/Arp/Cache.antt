-- ===== src/Net/Arp/Cache.antt =====
-- src/net/arp.c: what the cache holds after its operations.
use aijak.Common.{ℕ, zero, suc, ◌≡◌, ◌≢◌, refl, ap, ◌⊎◌, inl, inr, arith}
use aijak.Common.{List, [], ◌∷◌, ◌==◌, if◌then◌else◌, none, some, Option-cases}
use aijak.Net.Addr.{addr_ipv4_eq}
use aijak.Net.Arp.{ArpEntry, arp_lookup, arp_add, update_at, entry_at}

-- The addresses of the entries; an unused entry has the null address.
abbrev pub addresses : List ArpEntry → List ℕ
addresses [] = []
addresses (e ∷ es) = e.pa ∷ addresses es

abbrev pub Absent : ℕ → List ℕ → Type 0
Absent pa [] = Unit
Absent pa (q ∷ qs) = (q ≢ pa) × Absent pa qs

-- No two entries are of one address.
abbrev pub IsUnique : List ℕ → Type 0
IsUnique [] = Unit
IsUnique (q ∷ qs) = ((q ≡ 0) ⊎ Absent q qs) × IsUnique qs

pub addresses-update_at :
    (es : List ArpEntry) (i : ℕ) (f : ArpEntry → ArpEntry)
    → ((e : ArpEntry) → (f e).pa ≡ e.pa)
    → addresses (update_at es i f) ≡ addresses es
addresses-update_at [] i f keeps = refl
addresses-update_at (e ∷ es) zero f keeps = ap (λ q. q ∷ addresses es) (keeps e)
addresses-update_at (e ∷ es) (suc i) f keeps =
    ap (λ qs. e.pa ∷ qs) (addresses-update_at es i f keeps)

pub arp_lookup-none :
    (es : List ArpEntry) (pa : ℕ) → arp_lookup es pa ≡ none → Absent pa (addresses es)
unfolding arp_lookup addr_ipv4_eq
arp_lookup-none [] pa h = tt
arp_lookup-none (e ∷ es) pa h = ground (arith, arp_lookup-none es pa)

-- What `arp_add` does to the addresses: it replaces the first null address.
abbrev pub taken : List ℕ → ℕ → List ℕ
taken [] pa = []
taken (q ∷ qs) pa = let rest = taken qs pa in if q == 0 then pa ∷ qs else q ∷ rest

pub addresses-arp_add :
    (es : List ArpEntry) (ha : List ℕ) (pa i : ℕ) (es' : List ArpEntry)
    → arp_add es ha pa ≡ some (i, es')
    → addresses es' ≡ taken (addresses es) pa
unfolding arp_add
addresses-arp_add [] ha pa i es' h = cc
addresses-arp_add (e ∷ es) ha pa i es' h = elim (Option-cases (arp_add es ha pa)) [
  | inl full ↦ ground (arith, full)
  | inr ((j, es''), e') ↦ ground (arith, e', addresses-arp_add es ha pa j es'' e')
]

Absent-taken : (qs : List ℕ) (q pa : ℕ) → q ≢ pa → Absent q qs → Absent q (taken qs pa)
Absent-taken [] q pa ne a = tt
Absent-taken (r ∷ qs) q pa ne a = ground (arith, Absent-taken qs q pa)

pub IsUnique-taken : (qs : List ℕ) (pa : ℕ) → Absent pa qs → IsUnique qs → IsUnique (taken qs pa)
IsUnique-taken [] pa a u = tt
IsUnique-taken (r ∷ qs) pa a u = ground (arith, IsUnique-taken qs pa, Absent-taken qs r pa)

-- An update that keeps the address keeps every lookup.
pub arp_lookup-update_at :
    (es : List ArpEntry) (i pa : ℕ) (f : ArpEntry → ArpEntry)
    → ((e : ArpEntry) → (f e).pa ≡ e.pa)
    → arp_lookup (update_at es i f) pa ≡ arp_lookup es pa
unfolding arp_lookup addr_ipv4_eq
arp_lookup-update_at [] i pa f keeps = refl
arp_lookup-update_at (e ∷ es) zero pa f keeps = rw (keeps e) refl
arp_lookup-update_at (e ∷ es) (suc i) pa f keeps = rw (arp_lookup-update_at es i pa f keeps) refl

pub entry_at-update_at :
    (es : List ArpEntry) (i pa : ℕ) (f : ArpEntry → ArpEntry)
    → arp_lookup es pa ≡ some i
    → entry_at (update_at es i f) i ≡ f (entry_at es i)
unfolding arp_lookup addr_ipv4_eq
entry_at-update_at [] i pa f found = cc
entry_at-update_at (e ∷ es) zero pa f found = refl
entry_at-update_at (e ∷ es) (suc i) pa f found =
    entry_at-update_at es i pa f (ground (arith, found))

-- `arp_add` takes the entry that a lookup of the null address finds.
pub arp_add-found :
    (es : List ArpEntry) (ha : List ℕ) (pa i : ℕ)
    → arp_lookup es 0 ≡ some i
    → arp_add es ha pa ≡ some (i, update_at es i (λ e. record e { ha = ha; pa = pa }))
unfolding arp_lookup arp_add addr_ipv4_eq
arp_add-found [] ha pa i found = cc
arp_add-found (e ∷ es) ha pa zero found = ground (arith, found)
arp_add-found (e ∷ es) ha pa (suc i) found =
    let below : arp_lookup es 0 ≡ some i = ground (arith, found) in
    ground (arith, found, arp_add-found es ha pa i below)

-- A lookup then finds it.
pub arp_lookup-taken :
    (es : List ArpEntry) (pa i : ℕ) (f : ArpEntry → ArpEntry)
    → ((e : ArpEntry) → (f e).pa ≡ pa)
    → arp_lookup es 0 ≡ some i
    → arp_lookup es pa ≡ none
    → arp_lookup (update_at es i f) pa ≡ some i
unfolding arp_lookup addr_ipv4_eq
arp_lookup-taken [] pa i f sets found absent = cc
arp_lookup-taken (e ∷ es) pa zero f sets found absent = ground (arith, sets e)
arp_lookup-taken (e ∷ es) pa (suc i) f sets found absent =
    let below : arp_lookup es 0 ≡ some i = ground (arith, found) in
    let other : arp_lookup es pa ≡ none = ground (arith, absent) in
    ground (arith, absent, arp_lookup-taken es pa i f sets below other)
