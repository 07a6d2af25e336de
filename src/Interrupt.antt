-- ===== src/Interrupt.antt =====
-- src/interrupt/: the descriptor table, the interrupts of devices and those of the processor. The
-- entry points in assembler are given by their addresses.
pub mod Laws
use mathlib.Core.Option
use aijak.Common.{
  ℕ, zero, suc, ◌+◌, ◌-◌, ◌/◌, ◌%◌, ◌^◌, Bool, true, false, ◌||◌, Option, none, some, List, [], ◌∷◌,
}
use aijak.Common.{length, get_elem?, set, ◌==◌, ltb, if◌then◌else◌, u8, u16, u32, bit_and, ◌>>>◌}
use aijak.Ports.{Hardware, outportb, inportb}
use aijak.Tasking.{Kernel, Run, returned, send_sig, sigill, sigsegv}

pub record Gate : Type 0 where
  pub low_offset : ℕ
  pub sel : ℕ
  pub always0 : ℕ
  pub flags : ℕ
  pub high_offset : ℕ

abbrev pub kernel_cs : ℕ
kernel_cs = 0x08

-- `low_16` and `high_16`
abbrev pub low_16 : ℕ → ℕ
low_16 address = u16 (bit_and address 0xffff)

abbrev pub high_16 : ℕ → ℕ
high_16 address = u16 (bit_and (address >>> 16) 0xffff)

abbrev pub gate_of : ℕ → Gate
gate_of handler = record {
  low_offset = low_16 handler;
  sel = kernel_cs;
  always0 = 0;
  flags = 0x8e;
  high_offset = high_16 handler;
}

-- The table by number.
unfoldable pub set_idt_gate : (ℕ → Gate) → ℕ → ℕ → ℕ → Gate
set_idt_gate idt n handler i = if i == n then gate_of handler else idt i

-- The calls of `set_idt_gate` for `count` entry points in a row, from the gate `from` on.
unfoldable pub set_gates : (ℕ → Gate) → (ℕ → ℕ) → ℕ → ℕ → ℕ → Gate
unfolding set_idt_gate
set_gates idt entry from zero = idt
set_gates idt entry from (suc count) =
    set_idt_gate (set_gates idt entry from count) (from + count) (entry count)

unfoldable pub idt_init : (ℕ → Gate) → (ℕ → ℕ) → ℕ → Gate
unfolding set_gates
idt_init idt isr = set_gates idt isr 0 32

unfoldable pub irq_gates : (ℕ → Gate) → (ℕ → ℕ) → ℕ → Gate
unfolding set_gates
irq_gates idt irq = set_gates idt irq 32 16

-- `irq_routines[irq] = routine`, where `none` is a write outside the array.
unfoldable pub irq_setroutine : List ℕ → ℕ → ℕ → Option (List ℕ)
irq_setroutine routines irq routine =
    if ltb irq (length routines) then some (set routines irq routine) else none

unfoldable pub irq_clearroutine : List ℕ → ℕ → Option (List ℕ)
irq_clearroutine routines irq =
    if ltb irq (length routines) then some (set routines irq 0) else none

abbrev pub pic_master_command : ℕ
pic_master_command = 0x20

abbrev pub pic_master_data : ℕ
pic_master_data = 0x21

abbrev pub pic_slave_command : ℕ
pic_slave_command = 0xa0

abbrev pub pic_slave_data : ℕ
pic_slave_data = 0xa1

abbrev pub eoi : ℕ
eoi = 0x20

-- How a handler of a device's interrupt goes on: with the end of the interrupt sent, at a routine,
-- or with a routine read from behind the array.
pub data Handled (A : Type 0) : Type 0 where
  acknowledged : A → Handled A
  calls : ℕ → Handled A
  reads_outside : Handled A

-- How the handler of an exception goes on: in a process, or halted with the index of a message.
pub data Excepted : Type 0 where
  resumes : Run Kernel → Excepted
  halts : Option ℕ → Excepted

abbrev pub messages : ℕ
messages = 19

unfoldable pub isr_handler : (Kernel → Kernel) → Kernel → ℕ → Excepted
unfolding send_sig
isr_handler printed k int_no =
    if k.enabled
    then resumes (
        if int_no == 0
        then send_sig printed k sigill
        else (if int_no == 13 then send_sig printed k sigsegv else returned k))
    else halts (if ltb int_no messages then some int_no else none)

module _ (hw : Hardware) where
  unfoldable pub irq_remap : hw.Device → hw.Device
  irq_remap d =
      let (d1, a1) = inportb hw d pic_master_data in
      let (d2, a2) = inportb hw d1 pic_slave_data in
      let d3 = outportb hw d2 pic_master_command 0x11 in
      let d4 = outportb hw d3 pic_slave_command 0x11 in
      let d5 = outportb hw d4 pic_master_data 0x20 in
      let d6 = outportb hw d5 pic_slave_data 0x28 in
      let d7 = outportb hw d6 pic_master_data 0x04 in
      let d8 = outportb hw d7 pic_slave_data 0x02 in
      let d9 = outportb hw d8 pic_master_data 0x01 in
      let d10 = outportb hw d9 pic_slave_data 0x01 in
      outportb hw (outportb hw d10 pic_master_data a1) pic_slave_data a2

  unfoldable pub mask_irqs : hw.Device → ℕ → hw.Device
  mask_irqs d mask =
      outportb hw (outportb hw d pic_master_data (u8 mask)) pic_slave_data (u8 (mask >>> 8))

  unfoldable pub send_eoi : hw.Device → ℕ → hw.Device
  send_eoi d irq_num =
      let d' = if ltb 7 irq_num then outportb hw d pic_slave_command eoi else d in
      outportb hw d' pic_master_command eoi

  -- `irq_install`: the table and the device.
  unfoldable pub irq_install : (ℕ → Gate) → (ℕ → ℕ) → hw.Device → (ℕ → Gate) × hw.Device
  unfolding irq_remap irq_gates mask_irqs
  irq_install idt irq d = (irq_gates idt irq, mask_irqs (irq_remap d) 0x00)

  abbrev pub with_routine : hw.Device → ℕ → Option ℕ → Handled hw.Device
  with_routine d inum none = reads_outside
  with_routine d inum (some zero) = acknowledged (send_eoi d (u8 inum))
  with_routine d inum (some (suc handler)) = calls (suc handler)

  -- `inum` is below zero where `int_no` is below 32.
  unfoldable pub irq_handler : List ℕ → hw.Device → ℕ → Handled hw.Device
  unfolding send_eoi
  irq_handler routines d int_no =
      let inum = int_no - 32 in
      if ltb int_no 32 || ltb 16 inum
      then acknowledged (send_eoi d (u8 (int_no + 2 ^ 32 - 32)))
      else with_routine d inum (get_elem? routines inum)
