-- ===== src/Mmio.antt =====
-- src/memory/mmioutils.c: the registers of a device by their addresses. What a load or a store does
-- there is not part of the program; the 64-bit accesses have no callers.
use aijak.Common.{ℕ, u8, u16, u32}
use aijak.Ports.{Hardware, byte, word, long}

module _ (hw : Hardware) where
  abbrev pub mmio_read8 : hw.Device → ℕ → hw.Device × ℕ
  mmio_read8 s addr = let (s', v) = hw.input s byte addr in (s', u8 v)

  abbrev pub mmio_read16 : hw.Device → ℕ → hw.Device × ℕ
  mmio_read16 s addr = let (s', v) = hw.input s word addr in (s', u16 v)

  abbrev pub mmio_read32 : hw.Device → ℕ → hw.Device × ℕ
  mmio_read32 s addr = let (s', v) = hw.input s long addr in (s', u32 v)

  abbrev pub mmio_write8 : hw.Device → ℕ → ℕ → hw.Device
  mmio_write8 s addr val = hw.output s byte addr (u8 val)

  abbrev pub mmio_write16 : hw.Device → ℕ → ℕ → hw.Device
  mmio_write16 s addr val = hw.output s word addr (u16 val)

  abbrev pub mmio_write32 : hw.Device → ℕ → ℕ → hw.Device
  mmio_write32 s addr val = hw.output s long addr (u32 val)
