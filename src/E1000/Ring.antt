-- ===== src/E1000/Ring.antt =====
-- src/drivers/intel_e1000.c: the ring of receive descriptors, and the packets that it holds.
use native.Mathlib.Decide.{ℕ_discrete}
use aijak.Common.{
  ℕ, zero, suc, ◌+◌, ◌%◌, ◌<◌, ◌≡◌, ◌≢◌, ap, arith, true, false, Option, none, some, List, [], ◌∷◌,
  bit_and, ◌==◌, if◌then◌else◌, ◌⊎◌, inl, inr,
}
use aijak.Common.Bits.{bit_and-mod}
use aijak.Net.Packet.{net_buf_start}
use aijak.Net.Buffers.{Pool}
use aijak.Net.Buffers.Laws.{Owns, OwnsBut}
use aijak.E1000.{
  RecvDesc, EthIntelDevice, Receiver, Driver, set_desc, is_done, received, renewed, Dma, looked,
}

-- The buffers of the receive ring.
abbrev pub Held : EthIntelDevice → ℕ → Type 0
Held d b = (i : ℕ) × (i < 32) × (d.rx_bufs i ≡ b)

-- What the driver relies on: the state has one pool, and `eth_recv` of a packet leaves the buffers
-- that others hold with them. It may move the start of the packet itself.
pub record IsReceiver (rc : Receiver) : Type 1 where
  pub pool-with_pool : (w : rc.World) (p : Pool) → rc.pool (rc.with_pool w p) ≡ p
  pub keeps :
      (w : rc.World) (H : ℕ → Type 0) (buf : ℕ)
      → Owns (rc.pool w) H
      → OwnsBut buf (rc.pool (rc.recv w buf)) H

-- The ring of descriptors and the ring of buffers belong together.
pub record IsReady (rc : Receiver) {D : Type 0} (s : Driver D rc.World) : Type 0 where
  pub inside : s.device.rx_read < 32
  pub owned : Owns (rc.pool s.world) (Held s.device)
  pub paired : (i : ℕ) → i < 32 → (s.device.rx_descs i).addr ≡ s.device.rx_bufs i + net_buf_start

-- The descriptor that was passed waits at the start of its buffer, and the next one follows.
abbrev pub passed : EthIntelDevice → EthIntelDevice
passed d =
    let r = d.rx_read in
    let desc = d.rx_descs r in
    record d {
      rx_descs =
          set_desc d.rx_descs r (record desc { addr = d.rx_bufs r + net_buf_start; status = 0 });
      rx_read = (r + 1) % 32;
    }

module _ (fills : Dma) where
  -- Each of `k` looks from the look `n` on finds its descriptor done.
  unfoldable pub Done : ℕ → ℕ → EthIntelDevice → Type 0
  Done zero n d = Unit
  Done (suc k) n d =
      let e = looked fills n d in
      (is_done (e.rx_descs e.rx_read) ≡ true) × Done k (n + 1) (passed e)

  -- The device behind them.
  unfoldable pub behind : ℕ → ℕ → EthIntelDevice → EthIntelDevice
  behind zero n d = d
  behind (suc k) n d = behind k (n + 1) (passed (looked fills n d))

  -- The buffers and lengths that they find, without those with errors.
  unfoldable pub frames : ℕ → ℕ → EthIntelDevice → List (ℕ × ℕ)
  frames zero n d = []
  frames (suc k) n d =
      let e = looked fills n d in
      let desc = e.rx_descs e.rx_read in
      let rest = frames k (n + 1) (passed e) in
      if desc.errors == 0 then (e.rx_bufs e.rx_read, desc.len) ∷ rest else rest

module _ (rc : Receiver) (rounds : ℕ) where
  abbrev pub put_pool : rc.World → Option (ℕ × Pool) → rc.World
  put_pool w none = w
  put_pool w (some (buf, p)) = rc.with_pool w p

  -- The packets go to the protocols one after the other, and each buffer is released and another
  -- one taken.
  abbrev pub receive_all : rc.World → List (ℕ × ℕ) → rc.World
  receive_all w [] = w
  receive_all w ((buf, len) ∷ rest) =
      let w' = received rc rounds w buf len in
      receive_all (put_pool w' (renewed rc rounds w' buf)) rest

pub set_desc-cases :
    {A : Type 0} (descs : ℕ → A) (r : ℕ) (x : A) (i : ℕ)
    → ((i ≡ r) × (set_desc descs r x i ≡ x)) ⊎ ((i ≢ r) × (set_desc descs r x i ≡ descs i))
set_desc-cases descs r x i = elim (ℕ_discrete i r) [
  | yes same ↦ inl (same, ground (arith, same))
  | no other ↦ inr (other, ground (arith, other))
]

pub not_done : (d : RecvDesc) → d.status ≡ 0 → is_done d ≡ false
not_done d e = ap (λ n. if bit_and n 1 == 0 then false else true) e

pub next_index : (r : ℕ) → bit_and (r + 1) 31 ≡ (r + 1) % 32
next_index r = bit_and-mod 5 (r + 1)
