-- ===== src/E1000/Send.antt =====
-- src/drivers/intel_e1000.c: `eth_intel_send` and the transmit ring.
pub mod Laws
use aijak.Common.{
  ℕ, zero, suc, ◌+◌, Bool, true, false, Option, none, some, List, [], ◌∷◌, bit_and, ◌==◌,
  if◌then◌else◌, u16, sub32,
}
use aijak.Ports.{Hardware}
use aijak.Mmio.{mmio_write32}
use aijak.Net.Buffers.{Pool, assign, release_buf}
use aijak.E1000.{
  TransDesc, EthIntelDevice, Receiver, Driver, State, set_desc, reg_tdt, tx_desc_count,
}

-- `CMD_EOP | CMD_IFCS | CMD_RS`
abbrev pub tx_command : ℕ
tx_command = 11

abbrev pub tsta_dd : ℕ
tsta_dd = 1

-- `desc->status & 0xf`
abbrev pub is_sent : ℕ → Bool
is_sent status = if bit_and status 0xf == 0 then false else true

-- The loop that sleeps until the packet is sent: `look n` is the status that the device shows at
-- the look `n`. The result is the number of the look that ended it.
unfoldable pub wait_loop : ℕ → (ℕ → ℕ) → ℕ → Option ℕ
wait_loop zero look n = none
wait_loop (suc rounds) look n =
    let rest = wait_loop rounds look (n + 1) in if is_sent (look n) then some n else rest

-- The descriptor of a packet.
abbrev pub frame_desc : Pool → ℕ → TransDesc
frame_desc p buf = record {
  addr = p.start buf;
  len = u16 (sub32 (p.end buf) (p.start buf));
  cmd = tx_command;
  status = 0;
}

-- `if (oldBuf) net_release_buf(oldBuf);`
abbrev pub release_old : Pool → ℕ → Pool
release_old p old = if old == 0 then p else release_buf p old

-- The loop over the transmit descriptors in `eth_intel_init`, behind the `memset` of them.
unfoldable pub tx_loop : ℕ → (ℕ → TransDesc) → ℕ → ℕ → TransDesc
tx_loop zero descs i = descs
tx_loop (suc left) descs i =
    tx_loop left (set_desc descs i (record (descs i) { status = tsta_dd })) (i + 1)

unfoldable pub tx_setup : EthIntelDevice → EthIntelDevice
unfolding tx_loop
tx_setup d = record d {
  tx_descs = tx_loop tx_desc_count (λ i. record { addr = 0; len = 0; cmd = 0; status = 0 }) 0;
  tx_write = 0;
}

module _ (hw : Hardware) (rc : Receiver) where
  -- `eth_intel_send` behind the loop.
  unfoldable pub put_frame : State hw rc → ℕ → State hw rc
  put_frame s buf =
      let d = s.device in
      let p = release_old (rc.pool s.world) (d.tx_bufs d.tx_write) in
      let next = bit_and (d.tx_write + 1) 7 in
      record s {
        device = record d {
          tx_descs = set_desc d.tx_descs d.tx_write (frame_desc p buf);
          tx_bufs = assign d.tx_bufs d.tx_write buf;
          tx_write = next;
        };
        mmio = mmio_write32 hw s.mmio (d.mmio_addr + reg_tdt) next;
        world = rc.with_pool s.world p;
      }

  -- `none` is a packet that is not sent within the rounds.
  unfoldable pub eth_intel_send : ℕ → (ℕ → ℕ) → State hw rc → ℕ → Option (State hw rc)
  unfolding wait_loop put_frame
  eth_intel_send rounds look s buf = elim (wait_loop rounds look 0) [
    | none ↦ none
    | some n ↦ some (put_frame s buf)
  ]

  -- Packets one after the other, while the device changes no descriptor.
  abbrev pub send_then :
      (State hw rc → Option (State hw rc)) → Option (State hw rc) → Option (State hw rc)
  send_then f none = none
  send_then f (some s) = f s

  unfoldable pub send_all : State hw rc → List ℕ → Option (State hw rc)
  unfolding eth_intel_send
  send_all s [] = some s
  send_all s (buf ∷ bufs) =
      send_then (λ s'. send_all s' bufs)
        (eth_intel_send 1 (λ n. (s.device.tx_descs s.device.tx_write).status) s buf)
