-- ===== src/Pci.antt =====
-- src/drivers/pci.c: the configuration space behind its two ports, and the search for devices.
pub mod Laws
use aijak.Common.{ℕ, zero, suc, ◌+◌, ◌-◌, ◌*◌, ◌%◌, ◌^◌, Bool, true, false, ◌&&◌, List, [], ◌∷◌}
use aijak.Common.{◌==◌, if◌then◌else◌, u8, u16, u32, sub32, bit_and, bit_or, ◌<<<◌}
use aijak.Ports.{Hardware, outportb, outportw, outportl, inportb, inportw, inportl}

-- `PCI_MAKE_ID`
abbrev pub pci_make_id : ℕ → ℕ → ℕ → ℕ
pci_make_id bus dev func = bit_or (bit_or (bus <<< 16) (dev <<< 11)) (func <<< 8)

abbrev pub pci_config_addr : ℕ
pci_config_addr = 0xcf8

abbrev pub pci_config_data : ℕ
pci_config_data = 0xcfc

abbrev pub pci_config_bar0 : ℕ
pci_config_bar0 = 0x10

-- `0x80000000 | id | (reg & 0xfc)`
abbrev pub config_address : ℕ → ℕ → ℕ
config_address id reg = bit_or (bit_or 0x80000000 id) (bit_and reg 0xfc)

-- `x & ~0xf` and `x & ~0x3` on 32 bits.
abbrev pub without_low : ℕ → ℕ → ℕ
without_low x mask = bit_and x (0xffffffff - mask)

-- A region: the address or port that it begins at.
pub record PciBar : Type 0 where
  pub address : ℕ
  pub size : ℕ
  pub flags : ℕ

pub record PciDeviceInfo : Type 0 where
  pub vendor_id : ℕ
  pub device_id : ℕ
  pub class_code : ℕ
  pub subclass : ℕ
  pub prog_intf : ℕ

-- The pointer of a 64-bit region keeps its low 32 bits.
abbrev pub bar_64 : ℕ → ℕ → ℕ → ℕ → PciBar
bar_64 address_low mask_low address_high mask_high = record {
  address = u32 (bit_or (address_high <<< 32) (without_low address_low 0xf));
  size = (2 ^ 64 - bit_or (mask_high <<< 32) (without_low mask_low 0xf)) % 2 ^ 64;
  flags = bit_and address_low 0xf;
}

abbrev pub bar_io : ℕ → ℕ → PciBar
bar_io address_low mask_low = record {
  address = u16 (without_low address_low 0x3);
  size = u16 (sub32 0 (without_low mask_low 0x3));
  flags = bit_and address_low 0x3;
}

abbrev pub bar_32 : ℕ → ℕ → PciBar
bar_32 address_low mask_low = record {
  address = without_low address_low 0xf;
  size = sub32 0 (without_low mask_low 0xf);
  flags = bit_and address_low 0xf;
}

module _ (hw : Hardware) where
  abbrev pub pci_select : hw.Device → ℕ → ℕ → hw.Device
  pci_select s id reg = outportl hw s pci_config_addr (config_address id reg)

  unfoldable pub pci_read8 : hw.Device → ℕ → ℕ → hw.Device × ℕ
  pci_read8 s id reg = inportb hw (pci_select s id reg) (pci_config_data + bit_and reg 0x03)

  unfoldable pub pci_read16 : hw.Device → ℕ → ℕ → hw.Device × ℕ
  pci_read16 s id reg = inportw hw (pci_select s id reg) (pci_config_data + bit_and reg 0x02)

  unfoldable pub pci_read32 : hw.Device → ℕ → ℕ → hw.Device × ℕ
  pci_read32 s id reg = inportl hw (pci_select s id reg) pci_config_data

  -- All three writes go through `outportw`.
  unfoldable pub pci_write8 : hw.Device → ℕ → ℕ → ℕ → hw.Device
  pci_write8 s id reg value =
      outportw hw (pci_select s id reg) (pci_config_data + bit_and reg 0x03) value

  unfoldable pub pci_write16 : hw.Device → ℕ → ℕ → ℕ → hw.Device
  pci_write16 s id reg value =
      outportw hw (pci_select s id reg) (pci_config_data + bit_and reg 0x02) value

  unfoldable pub pci_write32 : hw.Device → ℕ → ℕ → ℕ → hw.Device
  pci_write32 s id reg value = outportw hw (pci_select s id reg) pci_config_data value

  -- The address and the mask.
  unfoldable pub pci_read_bar : hw.Device → ℕ → ℕ → hw.Device × ℕ × ℕ
  unfolding pci_read32 pci_write32
  pci_read_bar s id index =
      let reg = pci_config_bar0 + index * 4 in
      let (s1, address) = pci_read32 s id reg in
      let s2 = pci_write32 s1 id reg 0xffffffff in
      let (s3, mask) = pci_read32 s2 id reg in (pci_write32 s3 id reg address, address, mask)

  unfoldable pub pci_get_bar : hw.Device → ℕ → ℕ → hw.Device × PciBar
  unfolding pci_read_bar
  pci_get_bar s id index =
      let (s1, low, mask) = pci_read_bar s id index in
      let (s2, high, mask_high) = pci_read_bar s1 id (index + 1) in
      if bit_and low 0x04 == 0
      then (s1, if bit_and low 0x01 == 0 then bar_32 low mask else bar_io low mask)
      else (s2, bar_64 low mask high mask_high)

  unfoldable pub pci_get_interrupt_line : hw.Device → ℕ → hw.Device × ℕ
  unfolding pci_read8
  pci_get_interrupt_line s id = pci_read8 s id 0x3c

  unfoldable pub read_info : hw.Device → ℕ → hw.Device × PciDeviceInfo
  unfolding pci_read8 pci_read16
  read_info s id =
      let (s1, vendor) = pci_read16 s id 0x00 in
      let (s2, device) = pci_read16 s1 id 0x02 in
      let (s3, prog_intf) = pci_read8 s2 id 0x09 in
      let (s4, subclass) = pci_read8 s3 id 0x0a in
      let (s5, class_code) = pci_read8 s4 id 0x0b in
      (
        s5,
        record {
          vendor_id = vendor;
          device_id = device;
          class_code = class_code;
          subclass = subclass;
          prog_intf = prog_intf;
        },
      )

  -- What follows the discovery of the Ethernet controller is an argument.
  module _ (start : hw.Device → ℕ → PciDeviceInfo → hw.Device) where
    unfoldable pub pci_visit : hw.Device → ℕ → ℕ → ℕ → hw.Device
    unfolding pci_read16 read_info
    pci_visit s bus dev func =
        let id = pci_make_id bus dev func in
        let (s1, vendor) = pci_read16 s id 0x00 in
        let (s2, info) = read_info s id in
        if vendor == 0xffff
        then s1
        else (if (info.vendor_id == 0x8086) && (info.device_id == 0x100e)
            then start s2 id info
            else s2)

    -- The loops of `pci_init`, with the rounds that are left.
    unfoldable pub func_loop : ℕ → hw.Device → ℕ → ℕ → ℕ → hw.Device
    unfolding pci_visit
    func_loop zero s bus dev func = s
    func_loop (suc left) s bus dev func =
        func_loop left (pci_visit s bus dev func) bus dev (func + 1)

    unfoldable pub dev_loop : ℕ → hw.Device → ℕ → ℕ → hw.Device
    unfolding pci_read8 func_loop
    dev_loop zero s bus dev = s
    dev_loop (suc left) s bus dev =
        let (s1, header_type) = pci_read8 s (pci_make_id bus dev 0) 0x0e in
        let func_count = if bit_and header_type 0x80 == 0 then 1 else 8 in
        dev_loop left (func_loop func_count s1 bus dev 0) bus (dev + 1)

    unfoldable pub bus_loop : ℕ → hw.Device → ℕ → hw.Device
    unfolding dev_loop
    bus_loop zero s bus = s
    bus_loop (suc left) s bus = bus_loop left (dev_loop 32 s bus 0) (bus + 1)

    -- `pci_init` before its `_kill`.
    unfoldable pub pci_init : hw.Device → hw.Device
    unfolding bus_loop
    pci_init s = bus_loop 256 s 0
