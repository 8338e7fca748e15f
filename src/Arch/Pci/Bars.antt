-- ===== src/Arch/Pci/Bars.antt =====
-- The base address registers that pci_init_dev reads, and the command word.
use mksd_old_archive.Base.{
  ℕ, ◌+◌, ◌*◌, ◌/◌, ◌%◌, ◌^◌, ◌<◌, bit_or, ◌≡◌, refl, ap, ◌∙◌, arith, List, ◌∷◌, [], max, inl, inr,
  Bool-cases, ==_iff, ◌==◌, ◌||◌, if◌then◌else◌, u16, u32, ◌<<<◌,
}
use mksd_old_archive.Base.Bits.{bit, bit-le, bit-bit_or, bit-two-pow_self, bit-two-pow_ne}
use mksd_old_archive.Base.Bits.Masks.{bit-mod, bit_or_fields}
use mksd_old_archive.Arch.Ports.{Access, Log, Device}
use mksd_old_archive.Arch.Pci.Address.{
  address, Mechanism, word, after_read, pci_get_cfg_addr_lem, pci_config_readw-word,
}
use mksd_old_archive.Arch.Pci.{
  PciDevice, config_addr, config_data, pci_config_writew, pci_enable_bus_mastering, read_bar,
  pci_init_dev,
}

abbrev pub dword : (ℕ → ℕ) → ℕ → ℕ → ℕ → ℕ → ℕ
dword space bus slot func offset = u32 (space (address bus slot func offset))

read_bar-words :
    (device : Device) (space : ℕ → ℕ) (lo hi bus slot func : ℕ) (log : Log)
    → Mechanism device space
    → bus < 256
    → slot < 32
    → func < 8
    → lo < 128
    → hi < 128
    → (log' : Log) × (read_bar device (2 * lo) (2 * hi) bus slot func log
        ≡ (word space bus slot func (2 * lo) + 2 ^ 16 * word space bus slot func (2 * hi), log'))
unfolding read_bar
read_bar-words device space lo hi bus slot func log mech h k l a b =
    let x = word space bus slot func (2 * lo) in
    let y = word space bus slot func (2 * hi) in
    let log₁ = after_read bus slot func (2 * lo) log in
    let log₂ = after_read bus slot func (2 * hi) log₁ in
    (
      log₂,
      rw
          (
            pci_config_readw-word device space bus slot func lo log mech h k l a,
            pci_config_readw-word device space bus slot func hi log₁ mech h k l b,
          )
          (ap (λ (t : ℕ). (t, log₂))
            (ap (λ (t : ℕ). bit_or t x) {x = u32 (y <<< 16)} {y = y * 2 ^ 16} (omega arith)
              ∙ bit_or_fields 16 y x (omega arith)
              ∙ omega arith)),
    )

-- A base address register that is read from its own two words is its dword.
words_of_dword :
    (space : ℕ → ℕ) (bus slot func quarter : ℕ)
    → word space bus slot func (2 * (2 * quarter))
        + 2 ^ 16 * word space bus slot func (2 * (2 * quarter + 1))
      ≡ dword space bus slot func (4 * quarter)
words_of_dword space bus slot func quarter =
    let a = address bus slot func (4 * quarter) in
    let low : word space bus slot func (2 * (2 * quarter)) ≡ u16 (space a) =
      ap
        (λ (t : ℕ). u16 (
          space (2 ^ 31 + bus * 2 ^ 16 + slot * 2 ^ 11 + func * 2 ^ 8 + t)
          / 2 ^ (2 * (2 * quarter) % 4 * 8)))
        {x = 2 * (2 * quarter) / 4 * 4} {y = 4 * quarter / 4 * 4} (omega arith)
      ∙ ap (λ (t : ℕ). u16 (space a / 2 ^ (t * 8))) {x = 2 * (2 * quarter) % 4} {y = 0}
          (omega arith)
      ∙ omega arith in
    let high : word space bus slot func (2 * (2 * quarter + 1)) ≡ u16 (space a / 2 ^ 16) =
      ap
        (λ (t : ℕ). u16 (
          space (2 ^ 31 + bus * 2 ^ 16 + slot * 2 ^ 11 + func * 2 ^ 8 + t)
          / 2 ^ (2 * (2 * quarter + 1) % 4 * 8)))
        {x = 2 * (2 * quarter + 1) / 4 * 4} {y = 4 * quarter / 4 * 4} (omega arith)
      ∙ ap (λ (t : ℕ). u16 (space a / 2 ^ (t * 8))) {x = 2 * (2 * quarter + 1) % 4} {y = 2}
          (omega arith) in
    rw (low, high) (omega arith)

read_bar-dword :
    (device : Device) (space : ℕ → ℕ) (quarter bus slot func : ℕ) (log : Log)
    → Mechanism device space
    → bus < 256
    → slot < 32
    → func < 8
    → quarter < 32
    → (log' : Log) × (read_bar device (2 * (2 * quarter)) (2 * (2 * quarter + 1)) bus slot func log
        ≡ (dword space bus slot func (4 * quarter), log'))
read_bar-dword device space quarter bus slot func log mech h k l q =
    let (log', run) =
      read_bar-words device space (2 * quarter) (2 * quarter + 1) bus slot func log mech h k l
        (omega arith) (omega arith) in
    (log', run ∙ ap (λ (t : ℕ). (t, log')) (words_of_dword space bus slot func quarter))

-- What `pci_init_dev` enters for the six base address registers.
abbrev pub bars_of : (ℕ → ℕ) → ℕ → ℕ → ℕ → List ℕ
bars_of space bus slot func =
    dword space bus slot func 0x10
    ∷ dword space bus slot func 0x14
    ∷ dword space bus slot func 0x18
    ∷ (word space bus slot func 0x1C + 2 ^ 16 * word space bus slot func 0xE)
    ∷ dword space bus slot func 0x20
    ∷ dword space bus slot func 0x24
    ∷ []

-- Where the bus follows configuration mechanism 1, `pci_init_dev` enters the address of the
-- function and its base address registers, save that the upper half of register 3 is the word at
-- offset 0xE.
pub pci_init_dev-bars_of :
    (device : Device) (space : ℕ → ℕ) (irq_line bus slot func : ℕ) (log : Log)
    → Mechanism device space
    → bus < 256
    → slot < 32
    → func < 8
    → (log' : Log) × (pci_init_dev device irq_line bus slot func log ≡ (
      record {
        bars = bars_of space bus slot func;
        bus = bus;
        slot = slot;
        func = func;
        irq_line = irq_line;
      },
      log',
    ))
unfolding pci_init_dev
pci_init_dev-bars_of device space irq_line bus slot func log mech h k l =
    let (log₁, bar0) = read_bar-dword device space 4 bus slot func log mech h k l (omega arith) in
    let (log₂, bar1) = read_bar-dword device space 5 bus slot func log₁ mech h k l (omega arith) in
    let (log₃, bar2) = read_bar-dword device space 6 bus slot func log₂ mech h k l (omega arith) in
    let (log₄, bar3) =
      read_bar-words device space 14 7 bus slot func log₃ mech h k l (omega arith) (omega arith) in
    let (log₅, bar4) = read_bar-dword device space 8 bus slot func log₄ mech h k l (omega arith) in
    let (log₆, bar5) = read_bar-dword device space 9 bus slot func log₅ mech h k l (omega arith) in
    (log₆, rw (bar0, bar1, bar2, bar3, bar4, bar5) refl)

-- Where the bus follows configuration mechanism 1, `pci_enable_bus_mastering` reads the command
-- word of the device and writes it back as a dword, with bits 0 and 2 set and each other bit of
-- the word as it was.
pub pci_enable_bus_mastering_lem :
    (device : Device) (space : ℕ → ℕ) (dev : PciDevice) (k : ℕ) (log : Log)
    → Mechanism device space
    → dev.bus < 256
    → dev.slot < 32
    → dev.func < 8
    → k < 16
    → (value : ℕ) × (pci_enable_bus_mastering device dev log
        ≡ Access.outl config_data value
          ∷ Access.outl config_addr (address dev.bus dev.slot dev.func 4)
          ∷ after_read dev.bus dev.slot dev.func 4 log)
      × (value < 2 ^ 16)
      × (bit value k
          ≡ (if (k == 0) || (k == 2) then 1 else bit (word space dev.bus dev.slot dev.func 4) k))
unfolding pci_enable_bus_mastering pci_config_writew
pci_enable_bus_mastering_lem device space dev k log mech h l r small =
    let w = word space dev.bus dev.slot dev.func 4 in
    (
      u16 (bit_or (bit_or w (2 ^ 2)) (2 ^ 0)),
      rw
          (
            pci_config_readw-word device space dev.bus dev.slot dev.func 2 log mech h l r
                (omega arith),
            pci_get_cfg_addr_lem dev.bus dev.slot dev.func 4 h l r (omega arith),
          )
          refl,
      omega arith,
      bit-mod k 16 (bit_or (bit_or w (2 ^ 2)) (2 ^ 0)) small
          ∙ bit-bit_or k (bit_or w (2 ^ 2)) (2 ^ 0)
          ∙ ap (λ (t : ℕ). max t (bit (2 ^ 0) k)) (bit-bit_or k w (2 ^ 2))
          ∙ elim (Bool-cases (k == 0)) [
            | inl e ↦
                rw ((==_iff k 0).0 e)
                  (ground (arith, bit-le 0 w, bit-two-pow_ne 2 0, bit-two-pow_self 0))
            | inr e ↦ elim (Bool-cases (k == 2)) [
              | inl f ↦
                  rw ((==_iff k 2).0 f)
                    (ground (arith, bit-le 2 w, bit-two-pow_ne 0 2, bit-two-pow_self 2))
              | inr f ↦ ground (arith, bit-two-pow_ne 0 k, bit-two-pow_ne 2 k)
            ]
          ],
    )
