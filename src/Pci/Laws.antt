-- ===== src/Pci/Laws.antt =====
-- src/drivers/pci.c: what the accesses do to a configuration space.
use mathlib.Core.Path.{subst}
use aijak.Common.{ℕ, ◌+◌, ◌*◌, ◌/◌, ◌%◌, ◌^◌, ◌≤◌, ◌<◌, ◌≡◌, sym, ap, ◌∙◌, ◌⊎◌, inl, inr, arith}
use aijak.Common.{true, ◌==◌, if◌then◌else◌, u16, u32, bit_and, bit_or, ◌<<<◌}
use aijak.Common.Bits.{bit_and-mod, bit_and-bit, bit_or-add, bit_and_high}
use aijak.Ports.{Hardware, Width, byte, word, long}
use aijak.Pci.{
  pci_read8, pci_read16, pci_read32, pci_write16, pci_write32, config_address, pci_make_id,
  pci_select,
}

abbrev pub bytes_of : Width → ℕ
bytes_of byte = 1
bytes_of word = 2
bytes_of long = 4

-- A field of `w` bytes at byte `k` of a double word, read and replaced.
abbrev pub field : ℕ → ℕ → ℕ → ℕ
field old k w = old / 2 ^ (8 * k) % 2 ^ (8 * w)

abbrev pub replaced : ℕ → ℕ → ℕ → ℕ → ℕ
replaced old k w v =
    old / 2 ^ (8 * (k + w)) * 2 ^ (8 * (k + w)) + v * 2 ^ (8 * k) + old % 2 ^ (8 * k)

-- Configuration mechanism #1 of PCI: a write to the first port selects a double word, and the
-- second port accesses the bytes of it. `kept` are the double words that hold what is written.
pub record ConfigSpace (hw : Hardware) : Type 1 where
  pub selected : hw.Device → ℕ
  pub config : hw.Device → ℕ → ℕ
  pub Kept : ℕ → Type 0
  pub select_sets : (s : hw.Device) (v : ℕ) → selected (hw.output s long 0xcf8 v) ≡ v
  pub select_keeps : (s : hw.Device) (v a : ℕ) → config (hw.output s long 0xcf8 v) a ≡ config s a
  pub read_field :
      (s : hw.Device) (w : Width) (k : ℕ)
      → k + bytes_of w ≤ 4
      → (hw.input s w (0xcfc + k)).1 ≡ field (config s (selected s)) k (bytes_of w)
  pub read_keeps :
      (s : hw.Device) (w : Width) (k a : ℕ) → config ((hw.input s w (0xcfc + k)).0) a ≡ config s a
  pub write_field :
      (s : hw.Device) (w : Width) (k v a : ℕ)
      → k + bytes_of w ≤ 4
      → Kept (selected s)
      → config (hw.output s w (0xcfc + k) v) a
        ≡ (if a == selected s then replaced (config s a) k (bytes_of w) v else config s a)

field-replaced :
    (old k v : ℕ) → v < 2 ^ 16 → (k ≡ 0) ⊎ (k ≡ 2) → u16 (field (replaced old k 2 (u16 v)) k 2) ≡ v
field-replaced old k v h (inl e) = rw e (omega arith)
field-replaced old k v h (inr e) = rw e (omega arith)

halves : (reg : ℕ) → (reg / 2 % 2 * 2 ≡ 0) ⊎ (reg / 2 % 2 * 2 ≡ 2)
halves reg = ground arith

-- Where the double word `n` of a function stands: 256 bytes for each function, eight functions for
-- each device, 32 devices for each bus, and the highest bit set.
abbrev pub double_word : ℕ → ℕ → ℕ → ℕ → ℕ
double_word bus dev func n = 2 ^ 31 + ((bus * 32 + dev) * 8 + func) * 256 + n * 4

pci_make_id-eq :
    (bus dev func : ℕ)
    → dev < 32
    → func < 8
    → pci_make_id bus dev func ≡ ((bus * 32 + dev) * 8 + func) * 256
pci_make_id-eq bus dev func hd hf =
    let one : bit_or (bus <<< 16) (dev <<< 11) ≡ bus * 2 ^ 16 + dev * 2 ^ 11 =
      bit_or-add 16 bus (dev <<< 11) (omega arith) in
    let both : bus * 2 ^ 16 + dev * 2 ^ 11 ≡ (bus * 32 + dev) <<< 11 = omega arith in
    ap (λ (x : ℕ). bit_or x (func <<< 8)) (one ∙ both)
    ∙ bit_or-add 11 (bus * 32 + dev) (func <<< 8) (omega arith)
    ∙ omega arith

config_address-double_word :
    (bus dev func reg : ℕ)
    → bus < 256
    → dev < 32
    → func < 8
    → reg < 256
    → config_address (pci_make_id bus dev func) reg ≡ double_word bus dev func (reg / 4)
config_address-double_word bus dev func reg hb hd hf hr =
    let n : ℕ = (bus * 32 + dev) * 8 + func in
    let id = pci_make_id-eq bus dev func hd hf in
    let low : bit_and reg 0xfc ≡ reg / 4 * 4 = bit_and_high 2 6 reg (omega arith) in
    let top : bit_or 0x80000000 (n * 256) ≡ 1 * 2 ^ 31 + n * 256 =
      bit_or-add 31 1 (n * 256) (omega arith) in
    let shifted : 1 * 2 ^ 31 + n * 256 ≡ (2 ^ 23 + n) <<< 8 = omega arith in
    ap (λ (x : ℕ). bit_or (bit_or 0x80000000 x) (bit_and reg 0xfc)) id
    ∙ ap (λ (x : ℕ). bit_or x (bit_and reg 0xfc)) (top ∙ shifted)
    ∙ ap (bit_or ((2 ^ 23 + n) <<< 8)) low
    ∙ bit_or-add 8 (2 ^ 23 + n) (reg / 4 * 4) (omega arith)
    ∙ omega arith

module _ (hw : Hardware) (space : ConfigSpace hw) where
  read_selected :
      (s : hw.Device) (id reg : ℕ) (w : Width) (k : ℕ)
      → config_address id reg < 2 ^ 32
      → k + bytes_of w ≤ 4
      → (hw.input (pci_select hw s id reg) w (u16 (0xcfc + k))).1
        ≡ field (space.config s (config_address id reg)) k (bytes_of w)
  read_selected s id reg w k fit h =
      let addr : ℕ = config_address id reg in
      let whole : u32 addr ≡ addr = omega arith in
      let port : u16 (0xcfc + k) ≡ 0xcfc + k = omega arith in
      let t = hw.output s long 0xcf8 addr in
      let told : pci_select hw s id reg ≡ t = ap (hw.output s long 0xcf8) whole in
      rw port (
        ap (λ d. (hw.input d w (0xcfc + k)).1) told
        ∙ space.read_field t w k h
        ∙ ap (λ (a : ℕ). field (space.config t a) k (bytes_of w)) (space.select_sets s addr)
        ∙ ap (λ (c : ℕ). field c k (bytes_of w)) (space.select_keeps s addr addr))

  reads_selected :
      (s : hw.Device) (id reg : ℕ)
      → config_address id reg < 2 ^ 32
      → let old = space.config s (config_address id reg) in
        old < 2 ^ 32
        → ((pci_read8 hw s id reg).1 ≡ field old (reg % 4) 1)
          × ((pci_read16 hw s id reg).1 ≡ field old (reg / 2 % 2 * 2) 2)
          × ((pci_read32 hw s id reg).1 ≡ old)
  unfolding pci_read8 pci_read16 pci_read32
  reads_selected s id reg fit small =
      let old : ℕ = space.config s (config_address id reg) in
      let low : bit_and reg 3 ≡ reg % 4 = bit_and-mod 2 reg in
      let half : bit_and reg 2 ≡ reg / 2 % 2 * 2 = bit_and-bit 1 reg in
      let k : ℕ = reg % 4 in
      let k2 : ℕ = reg / 2 % 2 * 2 in
      (
        rw (low, read_selected s id reg byte k fit (omega arith)) (omega arith),
        rw (half, read_selected s id reg word k2 fit (omega arith)) (omega arith),
        rw (read_selected s id reg long 0 fit (omega arith)) (omega arith),
      )

  -- For a device by its bus, number and function, and a register below 256: each of the three reads
  -- returns the byte, the aligned half or the whole of the double word that the register lies in, at
  -- its place in the configuration space.
  pub pci_read-field :
      (s : hw.Device) (bus dev func reg : ℕ)
      → bus < 256
      → dev < 32
      → func < 8
      → reg < 256
      → space.config s (double_word bus dev func (reg / 4)) < 2 ^ 32
      → let old = space.config s (double_word bus dev func (reg / 4)) in
        let id = pci_make_id bus dev func in
        ((pci_read8 hw s id reg).1 ≡ field old (reg % 4) 1)
        × ((pci_read16 hw s id reg).1 ≡ field old (reg / 2 % 2 * 2) 2)
        × ((pci_read32 hw s id reg).1 ≡ old)
  pci_read-field s bus dev func reg hb hd hf hr small =
      let place = config_address-double_word bus dev func reg hb hd hf hr in
      let id = pci_make_id bus dev func in
      subst
        (λ (a : ℕ).
          ((pci_read8 hw s id reg).1 ≡ field (space.config s a) (reg % 4) 1)
          × ((pci_read16 hw s id reg).1 ≡ field (space.config s a) (reg / 2 % 2 * 2) 2)
          × ((pci_read32 hw s id reg).1 ≡ space.config s a))
        place
        (reads_selected s id reg (omega (arith, place))
          (subst (λ (a : ℕ). space.config s a < 2 ^ 32) (sym place) small))

  write_selected :
      (s : hw.Device) (id reg : ℕ) (k v : ℕ)
      → config_address id reg < 2 ^ 32
      → space.Kept (config_address id reg)
      → k + 2 ≤ 4
      → let addr = config_address id reg in
        space.config (hw.output (pci_select hw s id reg) word (u16 (0xcfc + k)) v) addr
        ≡ replaced (space.config s addr) k 2 v
  write_selected s id reg k v fit kept h =
      let addr : ℕ = config_address id reg in
      let whole : u32 addr ≡ addr = omega arith in
      let port : u16 (0xcfc + k) ≡ 0xcfc + k = omega arith in
      let t = hw.output s long 0xcf8 addr in
      let at = space.select_sets s addr in
      let self : (addr == space.selected t) ≡ true = ground (arith, at) in
      let told : pci_select hw s id reg ≡ t = ap (hw.output s long 0xcf8) whole in
      rw port (
        ap (λ d. space.config (hw.output d word (0xcfc + k) v) addr) told
        ∙ space.write_field t word k v addr h (subst space.Kept (sym at) kept)
        ∙ rw self (ap (λ (c : ℕ). replaced c k 2 v) (space.select_keeps s addr addr)))

  -- `pci_write16` replaces the aligned half of the double word, which `pci_read16` then returns.
  pub pci_read16-pci_write16 :
      (s : hw.Device) (id reg value : ℕ)
      → config_address id reg < 2 ^ 32
      → space.Kept (config_address id reg)
      → value < 2 ^ 16
      → (pci_read16 hw (pci_write16 hw s id reg value) id reg).1 ≡ value
  unfolding pci_read16 pci_write16
  pci_read16-pci_write16 s id reg value fit kept small =
      let half : bit_and reg 2 ≡ reg / 2 % 2 * 2 = bit_and-bit 1 reg in
      let k : ℕ = reg / 2 % 2 * 2 in
      let t = hw.output (pci_select hw s id reg) word (u16 (0xcfc + k)) (u16 value) in
      let old : ℕ = space.config s (config_address id reg) in
      let wrote = write_selected s id reg k (u16 value) fit kept (omega arith) in
      rw half (
        ap u16 (read_selected t id reg word k fit (omega arith) ∙ ap (λ (c : ℕ). field c k 2) wrote)
        ∙ field-replaced old k value small (halves reg))

  -- `pci_write32` writes the low half of its value alone, as it goes through `outportw`: the upper
  -- half of the double word stays.
  pub pci_write32-low_half :
      (s : hw.Device) (id reg value : ℕ)
      → config_address id reg < 2 ^ 32
      → space.Kept (config_address id reg)
      → let old = space.config s (config_address id reg) in
        old < 2 ^ 32
        → (pci_read32 hw (pci_write32 hw s id reg value) id reg).1
          ≡ old / 2 ^ 16 * 2 ^ 16 + value % 2 ^ 16
  unfolding pci_read32 pci_write32
  pci_write32-low_half s id reg value fit kept small =
      let old : ℕ = space.config s (config_address id reg) in
      let t = hw.output (pci_select hw s id reg) word 0xcfc (u16 value) in
      rw
        (
          read_selected t id reg long 0 fit (omega arith),
          write_selected s id reg 0 (u16 value) fit kept (omega arith),
        )
        (omega arith)
