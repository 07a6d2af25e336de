-- ===== src/E1000.antt =====
-- src/drivers/intel_e1000.c: the rings of descriptors, and what the driver does with them.
pub mod Ring
pub mod Poll
pub mod Init
pub mod Setup
pub mod Address
pub mod Send
use aijak.Common.{
  ℕ, zero, suc, ◌+◌, Bool, true, false, Option, none, some, bit_and, ◌==◌, if◌then◌else◌,
}
use aijak.Ports.{Hardware}
use aijak.Mmio.{mmio_read32, mmio_write32}
use aijak.Net.Buffers.{Pool, assign, alloc_buf, release_buf}

abbrev pub rx_desc_count : ℕ
rx_desc_count = 32

abbrev pub tx_desc_count : ℕ
tx_desc_count = 8

-- The fields of the descriptors that the driver reads or writes.
pub record RecvDesc : Type 0 where
  pub addr : ℕ
  pub len : ℕ
  pub status : ℕ
  pub errors : ℕ

pub record TransDesc : Type 0 where
  pub addr : ℕ
  pub len : ℕ
  pub cmd : ℕ
  pub status : ℕ

-- The arrays by index; a buffer is its address.
pub record EthIntelDevice : Type 0 where
  pub mmio_addr : ℕ
  pub rx_read : ℕ
  pub tx_write : ℕ
  pub rx_descs : ℕ → RecvDesc
  pub tx_descs : ℕ → TransDesc
  pub rx_bufs : ℕ → ℕ
  pub tx_bufs : ℕ → ℕ

-- What the driver uses of the protocols: a state with the pool of buffers in it, and `eth_recv` of
-- the packet in a buffer.
pub record Receiver : Type 1 where
  pub World : Type 0
  pub pool : World → Pool
  pub with_pool : World → Pool → World
  pub recv : World → ℕ → World

-- The device, its registers and the protocols.
pub record Driver (D W : Type 0) : Type 0 where
  pub device : EthIntelDevice
  pub mmio : D
  pub world : W

-- `none` for `failed` is a `malloc` that gives no memory.
pub data Polled (A : Type 0) : Type 0 where
  polled : A → Polled A
  no_memory : Polled A
  endless : Polled A

abbrev pub rsta_dd : ℕ
rsta_dd = 1

abbrev pub reg_rdt : ℕ
reg_rdt = 0x2818

abbrev pub reg_tdt : ℕ
reg_tdt = 0x3818

abbrev pub reg_icr : ℕ
reg_icr = 0xc0

abbrev pub set_desc : {A : Type 0} → (ℕ → A) → ℕ → A → ℕ → A
set_desc descs i d j = if j == i then d else descs j

-- What the device does to the descriptors between two looks of the driver, by the number of the look.
abbrev pub Dma : Type 0
Dma = ℕ → (ℕ → RecvDesc) → ℕ → RecvDesc

abbrev pub looked : Dma → ℕ → EthIntelDevice → EthIntelDevice
looked fills n d = record d { rx_descs = fills n d.rx_descs }

-- `desc->status & RSTA_DD`
abbrev pub is_done : RecvDesc → Bool
is_done d = if bit_and d.status rsta_dd == 0 then false else true

module _ (rc : Receiver) (rounds : ℕ) where
  -- `buf->end = buf->start + desc->len; eth_recv(intf, buf);`
  unfoldable pub received : rc.World → ℕ → ℕ → rc.World
  received w buf len =
      let p = rc.pool w in
      rc.recv (rc.with_pool w (record p { end = assign p.end buf (p.start buf + len) })) buf

  -- `net_release_buf(buf); buf = net_alloc_buf();`
  abbrev pub renewed : rc.World → ℕ → Option (ℕ × Pool)
  renewed w buf = alloc_buf rounds (release_buf (rc.pool w) buf)

module _ (hw : Hardware) (rc : Receiver) where
  abbrev pub State : Type 0
  State = Driver hw.Device rc.World

  -- `desc->status = 0`, the tail register, and the next index.
  unfoldable pub advance : State → RecvDesc → State
  advance s desc =
      let d = s.device in
      record s {
        device = record d {
          rx_descs = set_desc d.rx_descs d.rx_read (record desc { status = 0 });
          rx_read = bit_and (d.rx_read + 1) 31;
        };
        mmio = mmio_write32 hw s.mmio (d.mmio_addr + reg_rdt) d.rx_read;
      }

  abbrev pub after_renewed : State → RecvDesc → rc.World → Option (ℕ × Pool) → Option State
  after_renewed s desc w none = none
  after_renewed s desc w (some (buf, p)) =
      some (advance (record s { world = rc.with_pool w p }) (record desc { addr = p.start buf }))

module _ (hw : Hardware) (rc : Receiver) (rounds : ℕ) where
  -- The body of the loop.
  unfoldable pub poll_round : State hw rc → Option (State hw rc)
  unfolding advance received
  poll_round s =
      let d = s.device in
      let desc = d.rx_descs d.rx_read in
      let buf = d.rx_bufs d.rx_read in
      let w = received rc rounds s.world buf desc.len in
      if desc.errors == 0
      then after_renewed hw rc s desc w (renewed rc rounds w buf)
      else some (advance hw rc s desc)

  abbrev pub then_polled :
      (State hw rc → Polled (State hw rc)) → Option (State hw rc) → Polled (State hw rc)
  then_polled f none = no_memory
  then_polled f (some s) = f s

  -- The loop from the look `n` on, which finds what the device has written to the descriptors until
  -- then. The source has no bound on the looks.
  unfoldable pub poll_loop : Dma → ℕ → ℕ → State hw rc → Polled (State hw rc)
  unfolding poll_round
  poll_loop fills zero n s = endless
  poll_loop fills (suc looks) n s =
      let s' : State hw rc = record s { device = looked fills n s.device } in
      let rest = then_polled (poll_loop fills looks (n + 1)) (poll_round s') in
      if is_done (s'.device.rx_descs s'.device.rx_read) then rest else polled s'

  unfoldable pub eth_intel_poll : Dma → ℕ → State hw rc → Polled (State hw rc)
  unfolding poll_loop
  eth_intel_poll fills looks s = poll_loop fills looks 0 s
