-- ===== src/Timer.antt =====
-- src/pit.c: the timer, and the flag by which it switches processes. The ports of the timer are
-- written in order, each with its byte.
use mathlib.Core.Bool.{Bool, true}
use aijak.Common.{ℕ, ◌+◌, ◌-◌, ◌/◌, ◌^◌, ◌==◌, if◌then◌else◌}
use aijak.Common.{List, [], ◌∷◌, u8, u16, u32, bit_or, bit_and}

pub record Pit : Type 0 where
  pub task : ℕ
  pub task_was_on : Bool
  pub time : ℕ

unfoldable pub set_task : Pit → ℕ → Pit
set_task t i = if t.task_was_on then record t { task = u8 i } else t

unfoldable pub enable_task : Pit → Pit
enable_task t = record t { task_was_on = true; task = 1 }

unfoldable pub pit_gettime : Pit → ℕ
pit_gettime t = t.time

-- What the interrupt of the timer goes on with.
pub data After : Type 0 where
  ends : ℕ → After
  switches : After

unfoldable pub pit_irq : Pit → Pit × After
pit_irq t = (record t { time = u32 (t.time + 1) }, if t.task == 0 then ends 0 else switches)

abbrev pub pit_reg_command : ℕ
pit_reg_command = 0x43

abbrev pub pit_reg : ℕ → ℕ
pit_reg counter = if counter == 0 then 0x40 else (if counter == 0x40 then 0x41 else 0x42)

-- Writes of a byte to a port.
pub data Out : Type 0 where
  port_write : (port value : ℕ) → Out

unfoldable pub pit_send_cmd : ℕ → Out
pit_send_cmd cmd = port_write pit_reg_command cmd

unfoldable pub pit_send_data : ℕ → ℕ → Out
pit_send_data data_word counter = port_write (pit_reg counter) (u8 data_word)

-- No write where the frequency is zero; one that is zero as a `uint16` is divided by, which C
-- leaves undefined.
pub data Started : Type 0 where
  skipped : Started
  writes : List Out → Started
  division_by_zero : Started

-- `(ocw & ~MASK) | field` on a byte.
abbrev pub with_field : ℕ → ℕ → ℕ → ℕ
with_field ocw mask field = u8 (bit_or (bit_and ocw (255 - mask)) field)

unfoldable pub pit_start_counter : ℕ → ℕ → ℕ → Started
unfolding pit_send_cmd pit_send_data
pit_start_counter freq counter mode =
    if freq == 0
    then skipped
    else if u16 freq == 0
    then division_by_zero
    else (let divisor = u16 (1193181 / u16 freq) in
        let ocw = with_field (with_field (with_field 0 0xe mode) 0x30 0x30) 0xc0 counter in
        writes (
          pit_send_cmd ocw
          ∷ pit_send_data (bit_and divisor 0xff) 0
          ∷ pit_send_data (bit_and (divisor / 2 ^ 8) 0xff) 0
          ∷ []))
