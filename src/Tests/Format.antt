-- ===== src/Tests/Format.antt =====
-- Formats and texts, for the theorems on src/stdlib/format.c and src/net/addr.c.
use mathlib.Core.Option
use aijak.Common.{ℕ, ◌+◌, ◌≡◌, refl, some, List, [], ◌∷◌, arith}
use aijak.Memory.Bytes.{Mem}
use aijak.Net.Packet.{read_bytes}
use aijak.Net.Addr.Text.{no_strings, addr_ipv4_tostr, addr_strto_ipv4}
use aijak.Net.Addr.Text.RoundTrip.{all_stored}
use aijak.Net.Addr.Text.Buffer.{addr_strto_ipv4-addr_ipv4_tostr}
use aijak.Format.{vsnprintf}
use aijak.Format.Buffer.{printed_to, vsnprintf-render, vsnprintf-Fits, Fits}
use aijak.Format.Render.{numeral, render}

abbrev zeros : Mem
zeros a = 0

-- "x=%5d" and what it prints of 42.
abbrev example_format : List ℕ
example_format = b'x' ∷ b'=' ∷ b'%' ∷ b'5' ∷ b'd' ∷ 0 ∷ []

abbrev example_text : List ℕ
example_text = b'x' ∷ b'=' ∷ b' ' ∷ b' ' ∷ b' ' ∷ b'4' ∷ b'2' ∷ []

vsnprintf-render_example :
    vsnprintf no_strings zeros 100 6 example_format (42 ∷ [])
    ≡ Option.map (printed_to zeros 100 6) (render no_strings example_format (42 ∷ []))
vsnprintf-render_example =
    vsnprintf-render no_strings zeros 100 6 example_format (42 ∷ []) (omega arith) (omega arith)

rendered : render no_strings example_format (42 ∷ []) ≡ some example_text
unfolding render numeral
rendered = refl

vsnprintf-Fits_example :
    (r : Mem × ℕ) × (vsnprintf no_strings zeros 100 6 example_format (42 ∷ []) ≡ some r)
    × Fits zeros 100 6 example_text r
vsnprintf-Fits_example =
    vsnprintf-Fits no_strings zeros 100 6 example_format (42 ∷ []) (omega arith) (omega arith)
      example_text rendered

-- 10.0.2.15
abbrev example_ip : ℕ
example_ip = 251789322

addr_strto_ipv4-addr_ipv4_tostr_example :
    (r : Mem × ℕ) × (addr_ipv4_tostr zeros 100 16 example_ip ≡ some r)
    × (addr_strto_ipv4 r.0 500 (read_bytes r.0 100 (r.1 + 1))
        ≡ some (all_stored r.0 500 example_ip, some example_ip))
addr_strto_ipv4-addr_ipv4_tostr_example =
    addr_strto_ipv4-addr_ipv4_tostr zeros 100 16 500 example_ip (omega arith) (omega arith)
      (omega arith) (omega arith) (omega arith)
