-- ===== src/E1000/Init.antt =====
-- src/drivers/intel_e1000.c: the interrupt of the controller, and `eth_intel_init`.
use aijak.Common.{
  ℕ, zero, suc, ◌+◌, ◌-◌, ◌*◌, Bool, false, ◌||◌, Option, none, some, List, bit_and, bit_or, ◌==◌,
  if◌then◌else◌, u8,
}
use aijak.Str.{◌>>=◌}
use aijak.Memory.Heap.{Heap, Outcome, null, pointer, fatal, diverged}
use aijak.Memory.Pages.{pmalloc, pfree}
use aijak.Ports.{Hardware}
use aijak.Mmio.{mmio_read32, mmio_write32}
use aijak.Pci.{PciDeviceInfo, pci_get_bar, pci_read16, pci_write16, pci_get_interrupt_line}
use aijak.Interrupt.{irq_setroutine, send_eoi}
use aijak.Net.Buffers.{Pool, alloc_buf}
use aijak.Net.Interfaces.{Interfaces, net_intf_create, net_intf_add, set_intf}
use aijak.E1000.{
  Dma, EthIntelDevice, Receiver, Polled, polled, State, set_desc, eth_intel_poll, reg_icr, reg_rdt,
  reg_tdt, rx_desc_count,
}
use aijak.E1000.Address.{read_address}
use aijak.E1000.Send.{tx_setup}

-- The handler, with the registers of the interrupt controller beside the driver. `fills` and `looks`
-- are those of the poll.
module _ (hw ports : Hardware) (rc : Receiver) (rounds : ℕ) (fills : Dma) (looks : ℕ) where
  abbrev pub after_poll :
      ports.Device → ℕ → Polled (State hw rc) → Option (ports.Device × State hw rc)
  after_poll d int_no (polled s) = some (
    send_eoi ports d (u8 (int_no - 32)),
    record s { mmio = mmio_write32 hw s.mmio (s.device.mmio_addr + 0xc8) 0 },
  )
  after_poll d int_no other = none

  unfoldable pub eth_intel_irq :
      ports.Device → ℕ → State hw rc → Option (ports.Device × State hw rc)
  unfolding eth_intel_poll send_eoi
  eth_intel_irq d int_no s =
      let (m, cause) = mmio_read32 hw s.mmio (s.device.mmio_addr + reg_icr) in
      let s' : State hw rc = record s { mmio = m } in
      after_poll d int_no
        (if bit_and cause 0x80 == 0 then polled s' else eth_intel_poll hw rc rounds fills looks s')

-- The loop of the receive setup from `i` on.
unfoldable pub rx_loop : ℕ → ℕ → EthIntelDevice → Pool → ℕ → Option (EthIntelDevice × Pool)
unfolding alloc_buf
rx_loop rounds zero d p i = some (d, p)
rx_loop rounds (suc left) d p i = do
  (buf, p') ← alloc_buf rounds p
  let desc = record (d.rx_descs i) { addr = p'.start buf; status = 0 }
  let bufs = λ (j : ℕ). if j == i then buf else d.rx_bufs j
  rx_loop rounds left (record d { rx_bufs = bufs; rx_descs = set_desc d.rx_descs i desc }) p'
      (i + 1)

-- The controllers that the driver knows.
abbrev pub is_supported : PciDeviceInfo → Bool
is_supported info =
    if info.vendor_id == 0x8086
    then (info.device_id == 0x100e) || (info.device_id == 0x1503)
    else false

-- `pmalloc` for an array of descriptors; a panic or no page is `none`.
abbrev pub page_of : Outcome → Option (ℕ × Heap)
page_of (pointer a h) = some (a, h)
page_of (null h) = none
page_of fatal = none
page_of diverged = none

module _ (hw : Hardware) where
  unfoldable pub multicast_loop : ℕ → hw.Device → ℕ → ℕ → hw.Device
  multicast_loop zero m base i = m
  multicast_loop (suc left) m base i =
      multicast_loop left (mmio_write32 hw m (base + 0x5200 + i * 4) 0) base (i + 1)

  -- A shift of 32 bits by 32 is undefined: `high` is what it comes to.
  unfoldable pub rx_registers : (ℕ → ℕ) → hw.Device → ℕ → ℕ → hw.Device
  rx_registers high m base descs =
      let m1 = mmio_write32 hw m (base + 0x2800) descs in
      let m2 = mmio_write32 hw m1 (base + 0x2804) (high descs) in
      let m3 = mmio_write32 hw m2 (base + 0x2808) (rx_desc_count * 16) in
      let m4 = mmio_write32 hw m3 (base + 0x2810) 0 in
      let m5 = mmio_write32 hw m4 (base + reg_rdt) (rx_desc_count - 1) in
      mmio_write32 hw m5 (base + 0x100) 0x0400801e

  unfoldable pub tx_registers : (ℕ → ℕ) → hw.Device → ℕ → ℕ → hw.Device
  tx_registers high m base descs =
      let m1 = mmio_write32 hw m (base + 0x3800) descs in
      let m2 = mmio_write32 hw m1 (base + 0x3804) (high descs) in
      let m3 = mmio_write32 hw m2 (base + 0x3808) 128 in
      let m4 = mmio_write32 hw m3 (base + 0x3810) 0 in
      let m5 = mmio_write32 hw m4 (base + reg_tdt) 0 in mmio_write32 hw m5 (base + 0x400) 0x010400fa

  -- The interrupt mask, and the causes that wait are read away.
  unfoldable pub interrupt_registers : hw.Device → ℕ → hw.Device
  interrupt_registers m base =
      let m1 = mmio_write32 hw m (base + 0xd0) 0x1fffff in
      let m2 = mmio_write32 hw m1 (base + 0xd0) 0xfb in
      let (m3, cause) = mmio_read32 hw m2 (base + reg_icr) in (mmio_read32 hw m3 (base + reg_icr)).0

  unfoldable pub link_up : hw.Device → ℕ → hw.Device
  link_up m base =
      let (m', ctrl) = mmio_read32 hw m base in mmio_write32 hw m' base (bit_or ctrl 0x40)

-- What `eth_intel_init` reads and changes: the ports, the registers, the driver, the buffers with
-- the heap, the routines of the interrupts and the interfaces. A page of descriptors is its address.
pub record Machine (P D : Type 0) : Type 0 where
  pub ports : P
  pub mmio : D
  pub device : EthIntelDevice
  pub rx_page : ℕ
  pub tx_page : ℕ
  pub pool : Pool
  pub routines : List ℕ
  pub interfaces : Interfaces
  pub intf : ℕ

abbrev pub free_page : Heap → ℕ → Heap
free_page h page = if page == 0 then h else pfree h page

module _ (hw pci : Hardware) (rounds : ℕ) (high : ℕ → ℕ) (irq : ℕ) where
  -- The part behind the test of the region. `none` is a fault, no memory, or an EEPROM that does not
  -- answer within the rounds.
  unfoldable pub start_device :
      Machine pci.Device hw.Device → ℕ → ℕ → Option (Machine pci.Device hw.Device)
  unfolding pci_read16 pci_write16 pci_get_interrupt_line irq_setroutine interrupt_registers
      read_address link_up multicast_loop pfree pmalloc rx_loop rx_registers tx_registers tx_setup
      net_intf_create net_intf_add
  start_device s id base =
      let (d1, cmd) = pci_read16 pci s.ports id 0x04 in
      let d2 = pci_write16 pci d1 id 0x04 (bit_or cmd 4) in
      let (d3, line) = pci_get_interrupt_line pci d2 id in
      do
        routines ← irq_setroutine s.routines line irq
        (m1, address) ← read_address hw rounds (interrupt_registers hw s.mmio base) base
        let m2 = multicast_loop hw 128 (link_up hw m1 base) base 0
        let h = free_page (free_page s.pool.heap s.rx_page) s.tx_page
        (rx, h1) ← page_of (pmalloc h 512)
        (tx, h2) ← page_of (pmalloc h1 128)
        let idle = record s.device { mmio_addr = base }
        (filled, p) ← rx_loop rounds rx_desc_count idle (record s.pool { heap = h2 }) 0
        let m3 = rx_registers hw high m2 base rx
        let m4 = tx_registers hw high m3 base tx
        (intf, h3, list) ← net_intf_create rounds p.heap s.interfaces
        let named = record (list.intf intf) { eth_addr = address; ip_addr = 0x7b02a8c0 }
        some (record {
          ports = d3;
          mmio = m4;
          device = tx_setup (record filled { rx_read = 0 });
          rx_page = rx;
          tx_page = tx;
          pool = record p { heap = h3 };
          routines = routines;
          interfaces = net_intf_add (set_intf list intf named) intf;
          intf = intf;
        })

  unfoldable pub eth_intel_init :
      Machine pci.Device hw.Device → ℕ → PciDeviceInfo → Option (Machine pci.Device hw.Device)
  unfolding start_device pci_get_bar
  eth_intel_init s id info =
      let (d, bar) = pci_get_bar pci s.ports id 0 in
      let s' : Machine pci.Device hw.Device = record s { ports = d } in
      if is_supported info
      then (if bit_and bar.flags 1 == 0 then start_device s' id bar.address else some s')
      else some s
