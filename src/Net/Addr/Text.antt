-- ===== src/Net/Addr/Text.antt =====
-- src/net/addr.c: addresses as text. The array `int8 a[4]` of the readers stands at an address, as
-- `sscanf` stores an `int32` to each of its bytes.
pub mod RoundTrip
pub mod Buffer
pub mod Port
use mathlib.Core.Option
use aijak.Common.{ℕ, ◌+◌, ◌*◌, Bool, true, false, Option, none, some, List, [], ◌∷◌, ◌++◌}
use aijak.Common.{◌==◌, if◌then◌else◌, u8}
use aijak.Memory.Bytes.{Mem}
use aijak.Str.{◌>>=◌}
use aijak.Str.Number.{codes}
use aijak.Str.Compare.{cstr}
use aijak.Net.Packet.{ip_bytes, read_ip, read16}
use aijak.Format.{ℤ, pos, negsuc, vsnprintf}
use aijak.Format.Scan.{vsscanf}

abbrev pub eth_format : List ℕ
eth_format = cstr (codes "%02x:%02x:%02x:%02x:%02x:%02x") []

-- "%d.%d.%d.%d"
abbrev pub ipv4_format : List ℕ
ipv4_format = b'%' ∷ b'd' ∷ b'.' ∷ b'%' ∷ b'd' ∷ b'.' ∷ b'%' ∷ b'd' ∷ b'.' ∷ b'%' ∷ b'd' ∷ 0 ∷ []

-- "%d.%d.%d.%d:%d"
abbrev pub ipv4_port_format : List ℕ
ipv4_port_format =
    b'%' ∷ b'd' ∷ b'.' ∷ b'%' ∷ b'd' ∷ b'.' ∷ b'%' ∷ b'd' ∷ b'.' ∷ b'%' ∷ b'd' ∷ b':' ∷ b'%' ∷ b'd'
    ∷ 0 ∷ []

-- These formats take no string.
abbrev pub no_strings : ℕ → List ℕ
no_strings _ = []

unfoldable pub addr_eth_tostr : Mem → ℕ → ℕ → List ℕ → Option (Mem × ℕ)
unfolding vsnprintf
addr_eth_tostr m str size addr = vsnprintf no_strings m str size eth_format addr

unfoldable pub addr_ipv4_tostr : Mem → ℕ → ℕ → ℕ → Option (Mem × ℕ)
unfolding vsnprintf
addr_ipv4_tostr m str size addr = vsnprintf no_strings m str size ipv4_format (ip_bytes addr)

unfoldable pub addr_ipv4_port_tostr : Mem → ℕ → ℕ → ℕ → ℕ → Option (Mem × ℕ)
unfolding vsnprintf
addr_ipv4_port_tostr m str size addr port =
    vsnprintf no_strings m str size ipv4_port_format (ip_bytes addr ++ port ∷ [])

abbrev pub is_four : ℤ → Bool
is_four (pos n) = n == 4
is_four (negsuc n) = false

-- The memory afterwards, and the address where the function returns true.
unfoldable pub addr_strto_ipv4 : Mem → ℕ → List ℕ → Option (Mem × Option ℕ)
unfolding vsscanf
addr_strto_ipv4 m a str = do
  (m', count) ← vsscanf m str ipv4_format (a ∷ (a + 1) ∷ (a + 2) ∷ (a + 3) ∷ [])
  some (m', if is_four count then some (read_ip m' a) else none)

-- `n` is the address of the local variable for the port.
unfoldable pub addr_strto_ipv4_port : Mem → ℕ → ℕ → List ℕ → Option (Mem × Option (ℕ × ℕ))
unfolding vsscanf
addr_strto_ipv4_port m a n str = do
  (m', count) ← vsscanf m str ipv4_port_format (a ∷ (a + 1) ∷ (a + 2) ∷ (a + 3) ∷ n ∷ [])
  some (m', if is_four count then some (read_ip m' a, read16 m' n) else none)
