-- ===== src/E1000/Address.antt =====
-- src/drivers/intel_e1000.c: the Ethernet address, from the registers or the EEPROM.
use aijak.Common.{
  ℕ, zero, suc, ◌+◌, ◌*◌, ◌/◌, ◌%◌, ◌^◌, ◌<◌, ◌≤◌, ◌≡◌, refl, ap, ◌∙◌, arith, Option, none, some,
  List, [], ◌∷◌, bit_and, bit_or, ◌==◌, if◌then◌else◌, u8, u16, u32, ◌<<<◌, ◌>>>◌, first_branch,
  second_branch, true, false,
}
use aijak.Common.Bits.{bit_and-bit, bit_or-add_right}
use aijak.Str.{◌>>=◌}
use aijak.Ports.{Hardware, long}
use aijak.Mmio.{mmio_read32, mmio_write32}

abbrev reg_eerd : ℕ
reg_eerd = 0x14

abbrev reg_ral : ℕ
reg_ral = 0x5400

abbrev reg_rah : ℕ
reg_rah = 0x5404

abbrev eerd_done : ℕ
eerd_done = 0x10

module _ (hw : Hardware) where
  -- The loop of `eepromRead`, with a bound on its rounds.
  unfoldable pub eeprom_loop : ℕ → hw.Device → ℕ → Option (hw.Device × ℕ)
  eeprom_loop zero d base = none
  eeprom_loop (suc rounds) d base =
      let (d', val) = mmio_read32 hw d (base + reg_eerd) in
      let rest = eeprom_loop rounds d' base in
      if bit_and val eerd_done == 0 then rest else some (d', u16 (val >>> 16))

  unfoldable pub eeprom_read : ℕ → hw.Device → ℕ → ℕ → Option (hw.Device × ℕ)
  unfolding eeprom_loop
  eeprom_read rounds d base addr =
      eeprom_loop rounds (mmio_write32 hw d (base + reg_eerd) (bit_or 1 (u8 addr <<< 8))) base

  unfoldable pub read_address : ℕ → hw.Device → ℕ → Option (hw.Device × List ℕ)
  unfolding eeprom_read
  read_address rounds d base =
      let (d1, ral) = mmio_read32 hw d (base + reg_ral) in
      let (d2, rah) = mmio_read32 hw d1 (base + reg_rah) in
      if ral == 0
      then (do
        (e1, mac01) ← eeprom_read rounds d1 base 0
        (e2, mac23) ← eeprom_read rounds e1 base 1
        (e3, mac45) ← eeprom_read rounds e2 base 2
        some (
          e3,
          u8 mac01
              ∷ u8 (mac01 >>> 8)
              ∷ u8 (mac23 >>> 16)
              ∷ u8 (mac23 >>> 24)
              ∷ u8 mac45
              ∷ u8 (mac45 >>> 8)
              ∷ [],
        ))
      else some (
        d2,
        u8 ral ∷ u8 (ral >>> 8) ∷ u8 (ral >>> 16) ∷ u8 (ral >>> 24) ∷ u8 rah ∷ u8 (rah >>> 8) ∷ [],
      )

module _ (hw : Hardware) (base : ℕ) where
  -- The state after so many reads of the register, and the value that the next read gives.
  unfoldable pub reads : ℕ → hw.Device → hw.Device
  reads zero d = d
  reads (suc n) d = reads n (hw.input d long (base + 0x14)).0

  abbrev pub eerd : ℕ → hw.Device → ℕ
  eerd n d = (hw.input (reads n d) long (base + 0x14)).1

  -- The first `n` reads find the done bit clear, the next one finds it set.
  pub record Answers (word delay : ℕ) (d : hw.Device) : Type 0 where
    pub n : ℕ
    pub soon : n ≤ delay
    pub clear : (i : ℕ) → i < n → eerd i d / 16 % 2 ≡ 0
    pub set_bit : eerd n d / 16 % 2 ≡ 1
    pub data_bits : eerd n d / 65536 ≡ word
    pub fits : (i : ℕ) → eerd i d < 2 ^ 32

  -- A controller whose EEPROM holds the 16-bit words `rom`, as its manual describes the register: after
  -- a write of an address with the start bit, the reads of the register find the done bit clear for
  -- some time, at most `delay` reads, and then set, with the word of that address in the upper half.
  -- Nothing is said of the other bits.
  pub record HasRom (rom : ℕ → ℕ) (delay : ℕ) : Type 0 where
    pub rom_small : (addr : ℕ) → rom addr < 2 ^ 16
    pub answers :
        (d : hw.Device) (addr : ℕ)
        → addr < 256
        → Answers (rom addr) delay (hw.output d long (base + 0x14) (addr * 256 + 1))

  -- The loop from a state in which the register is going to answer.
  eeprom_loop-answers :
      (n rounds : ℕ) (d : hw.Device) (word : ℕ)
      → n < rounds
      → word < 2 ^ 16
      → ((i : ℕ) → i < n → eerd i d / 16 % 2 ≡ 0)
      → eerd n d / 16 % 2 ≡ 1
      → eerd n d / 65536 ≡ word
      → ((i : ℕ) → eerd i d < 2 ^ 32)
      → (d' : hw.Device) × (eeprom_loop hw rounds d base ≡ some (d', word))
  unfolding eeprom_loop reads
  eeprom_loop-answers n zero d word lt small clear bit top fits = absurd (omega arith)
  eeprom_loop-answers zero (suc rounds) d word lt small clear bit top fits =
      let (d', val) = hw.input d long (base + reg_eerd) in
      let whole : u32 val ≡ val = omega (arith, fits 0) in
      let on : bit_and (u32 val) eerd_done ≡ 16 =
        omega (arith, bit_and-bit 4 (u32 val), whole, bit) in
      let done : (bit_and (u32 val) eerd_done == 0) ≡ false = ground (arith, on) in
      let word_is : u16 (u32 val >>> 16) ≡ word = omega (arith, whole, top, small) in
      (
        d',
        second_branch (bit_and (u32 val) eerd_done == 0) _ _ done
            ∙ ap (λ (v : ℕ). some (d', v)) word_is,
      )
  eeprom_loop-answers (suc n) (suc rounds) d word lt small clear bit top fits =
      let (d', val) = hw.input d long (base + reg_eerd) in
      let whole : u32 val ≡ val = omega (arith, fits 0) in
      let off : bit_and (u32 val) eerd_done ≡ 0 =
        omega (arith, bit_and-bit 4 (u32 val), whole, clear 0 (omega arith)) in
      let waits : (bit_and (u32 val) eerd_done == 0) ≡ true = ground (arith, off) in
      let (last, rest) =
        eeprom_loop-answers n rounds d' word (omega arith) small
          (λ i less. clear (suc i) (omega arith)) bit top (λ i. fits (suc i)) in
      (last, first_branch (bit_and (u32 val) eerd_done == 0) _ _ waits ∙ rest)

module _ (hw : Hardware) (base : ℕ) (rom : ℕ → ℕ) (delay : ℕ) (has : HasRom hw base rom delay) where
  eeprom_read-rom :
      (rounds : ℕ) (d : hw.Device) (addr : ℕ)
      → delay < rounds
      → addr < 256
      → (d' : hw.Device) × (eeprom_read hw rounds d base addr ≡ some (d', rom addr))
  unfolding eeprom_read
  eeprom_read-rom rounds d addr enough small =
      let written : u32 (bit_or 1 (u8 addr <<< 8)) ≡ addr * 256 + 1 =
        omega (arith, bit_or-add_right 8 (u8 addr) 1 (omega arith)) in
      let a = has.answers d addr small in
      let told = λ (v : ℕ). hw.output d long (base + reg_eerd) v in
      let (d', finds) =
        eeprom_loop-answers hw base a.n rounds (told (addr * 256 + 1)) (rom addr)
          (omega (arith, a.soon)) (has.rom_small addr) a.clear a.set_bit a.data_bits a.fits in
      (d', ap (λ (v : ℕ). eeprom_loop hw rounds (told v) base) written ∙ finds)

  -- With no address in the registers and more rounds than the EEPROM takes, the third and the fourth
  -- byte of the address are 0: the second word is shifted as if it were the upper half of 32 bits. The
  -- other four are the first and the third word of the EEPROM.
  pub read_address-rom :
      (rounds : ℕ) (d : hw.Device)
      → delay < rounds
      → (hw.input d long (base + 0x5400)).1 ≡ 0
      → (d' : hw.Device) × (read_address hw rounds d base
          ≡ some (d', rom 0 % 256 ∷ rom 0 / 256 ∷ 0 ∷ 0 ∷ rom 2 % 256 ∷ rom 2 / 256 ∷ []))
  unfolding read_address
  read_address-rom n d enough empty =
      let d1 = (hw.input d long (base + 0x5400)).0 in
      let none_there : (u32 (hw.input d long (base + 0x5400)).1 == 0) ≡ true =
        ground (arith, empty) in
      let (e1, r1) = eeprom_read-rom n d1 0 enough (omega arith) in
      let (e2, r2) = eeprom_read-rom n e1 1 enough (omega arith) in
      let (e3, r3) = eeprom_read-rom n e2 2 enough (omega arith) in
      let bytes = λ (a b c : ℕ).
        u8 a ∷ u8 (a >>> 8) ∷ u8 (b >>> 16) ∷ u8 (b >>> 24) ∷ u8 c ∷ u8 (c >>> 8) ∷ [] in
      let third : u8 (rom 1 >>> 16) ≡ 0 = omega (arith, has.rom_small 1) in
      let fourth : u8 (rom 1 >>> 24) ≡ 0 = omega (arith, has.rom_small 1) in
      let second : u8 (rom 0 >>> 8) ≡ rom 0 / 256 = omega (arith, has.rom_small 0) in
      let sixth : u8 (rom 2 >>> 8) ≡ rom 2 / 256 = omega (arith, has.rom_small 2) in
      let exact : bytes (rom 0) (rom 1) (rom 2)
          ≡ rom 0 % 256 ∷ rom 0 / 256 ∷ 0 ∷ 0 ∷ rom 2 % 256 ∷ rom 2 / 256 ∷ [] =
        rw (third, fourth, second, sixth) refl in
      (
        e3,
        first_branch _ _ _ none_there
            ∙ ap
                (λ o. o >>= λ x1. eeprom_read hw n x1.0 base 1 >>= λ x2.
                  eeprom_read hw n x2.0 base 2 >>= λ x3. some (x3.0, bytes x1.1 x2.1 x3.1))
                r1
            ∙ ap
                (λ o. o >>= λ x2.
                  eeprom_read hw n x2.0 base 2 >>= λ x3. some (x3.0, bytes (rom 0) x2.1 x3.1))
                r2
            ∙ ap (λ o. o >>= λ x3. some (x3.0, bytes (rom 0) (rom 1) x3.1)) r3
            ∙ ap (λ (a : List ℕ). some (e3, a)) exact,
      )
