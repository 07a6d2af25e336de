-- ===== src/Ports.antt =====
-- src/system.c: the ports. What is behind them is not part of the program: a state of the hardware
-- and what a write and a read of a width do to it.
use aijak.Common.{ℕ, u8, u16, u32}

pub data Width : Type 0 where
  byte word long : Width

pub record Hardware : Type 1 where
  pub Device : Type 0
  pub output : Device → Width → ℕ → ℕ → Device
  pub input : Device → Width → ℕ → Device × ℕ

module _ (hw : Hardware) where
  abbrev pub outportb : hw.Device → ℕ → ℕ → hw.Device
  outportb s port data_byte = hw.output s byte (u16 port) (u8 data_byte)

  abbrev pub outportw : hw.Device → ℕ → ℕ → hw.Device
  outportw s port data_word = hw.output s word (u16 port) (u16 data_word)

  abbrev pub outportl : hw.Device → ℕ → ℕ → hw.Device
  outportl s port data_long = hw.output s long (u16 port) (u32 data_long)

  abbrev pub inportb : hw.Device → ℕ → hw.Device × ℕ
  inportb s port = let (s', v) = hw.input s byte (u16 port) in (s', u8 v)

  abbrev pub inportw : hw.Device → ℕ → hw.Device × ℕ
  inportw s port = let (s', v) = hw.input s word (u16 port) in (s', u16 v)

  abbrev pub inportl : hw.Device → ℕ → hw.Device × ℕ
  inportl s port = let (s', v) = hw.input s long (u16 port) in (s', u32 v)
