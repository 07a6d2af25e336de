-- ===== src/Net/Addr/Text/Port.antt =====
-- src/net/addr.c: the reader of an address with a port.
use aijak.Common.{ℕ, ◌+◌, ◌/◌, ◌^◌, ◌<◌, ◌≡◌, refl, arith, ◌∙◌, some, none, List, [], ◌∷◌, ◌++◌, u8}
use aijak.Memory.Bytes.{Mem, write32}
use aijak.Format.{pos}
use aijak.Format.Render.{decimal}
use aijak.Format.Scan.{vsscanf}
use aijak.Format.Scan.Laws.{scan_loop-decimal}
use aijak.Net.Addr.Text.{ipv4_port_format, addr_strto_ipv4_port}
use aijak.Net.Addr.Text.RoundTrip.{
  ip_dotted, three_stored, all_stored, scan_loop-field, scan_loop-three, scan_loop-done,
}

module _ (m : Mem) (a n ip port : ℕ) (rest : List ℕ) (ha : a + 3 < 2 ^ 32) (hn : n < 2 ^ 32)
    (hp : port < 2 ^ 16) where
  five :
      vsscanf m
        (ip_dotted ip (b':' ∷ (decimal port ++ 0 ∷ rest)))
        ipv4_port_format
        (a ∷ (a + 1) ∷ (a + 2) ∷ (a + 3) ∷ n ∷ [])
      ≡ some (write32 (all_stored m a ip) n port, pos 5)
  unfolding vsscanf
  five =
      let d : ℕ = u8 (ip / 2 ^ 24) in
      let tail : List ℕ = decimal port ++ 0 ∷ rest in
      scan_loop-three m a ip ha 9 (decimal d ++ b':' ∷ tail)
        (b'%' ∷ b'd' ∷ b':' ∷ b'%' ∷ b'd' ∷ 0 ∷ []) ((a + 3) ∷ n ∷ [])
      ∙ scan_loop-field 7 (three_stored m a ip) d b':' tail (b'%' ∷ b'd' ∷ 0 ∷ []) (a + 3) (n ∷ [])
          3 (omega arith) (omega arith) (refl, refl, refl, refl)
      ∙ scan_loop-decimal 6 (all_stored m a ip) port 0 rest (0 ∷ []) n [] 4 (omega arith) hn refl
      ∙ scan_loop-done 5 (write32 (all_stored m a ip) n port) (0 ∷ rest) [] [] 5

  -- `addr_strto_ipv4_port` returns false for the text of any address with any port, since it
  -- compares the count of the five numbers with 4. It has stored them in its variables.
  pub addr_strto_ipv4_port-rejects :
      addr_strto_ipv4_port m a n (ip_dotted ip (b':' ∷ (decimal port ++ 0 ∷ rest)))
      ≡ some (write32 (all_stored m a ip) n port, none)
  unfolding addr_strto_ipv4_port
  addr_strto_ipv4_port-rejects = rw five refl
