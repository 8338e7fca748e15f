-- ===== src/Arch/Pci/Address.antt =====
-- The fields of a configuration address, and reads of configuration space.
use mksd_old_archive.Base.{
  ℕ, ◌+◌, ◌*◌, ◌/◌, ◌%◌, ◌^◌, ◌<◌, bit_and, bit_or, ◌≡◌, ap, ◌∙◌, arith, ◌∷◌, u16, u32, ◌<<<◌,
}
use mksd_old_archive.Base.Bits.Masks.{
  bit_or_fields, bit_and-high_mask, bit_and-low_mask, bit_and-two-pow, bit_eq_div,
}
use mksd_old_archive.Arch.Ports.{Access, Log, Device}
use mksd_old_archive.Arch.Pci.{config_addr, config_data, pci_get_cfg_addr, pci_config_readw}

-- The address of the dword that holds byte `offset` of a function's configuration space.
abbrev pub address : ℕ → ℕ → ℕ → ℕ → ℕ
address bus slot func offset = 2 ^ 31 + bus * 2 ^ 16 + slot * 2 ^ 11 + func * 2 ^ 8 + offset / 4 * 4

-- For a bus, slot, function and offset in range, `pci_get_cfg_addr` puts the enable bit and the
-- fields side by side, and rounds the offset down to a dword.
pub pci_get_cfg_addr_lem :
    (bus slot func offset : ℕ)
    → bus < 256
    → slot < 32
    → func < 8
    → offset < 256
    → pci_get_cfg_addr bus slot func offset ≡ address bus slot func offset
unfolding pci_get_cfg_addr
pci_get_cfg_addr_lem bus slot func offset h k l r =
    let with_bus : bit_or (2 ^ 31) (u32 (bus <<< 16)) ≡ (2 ^ 15 + bus) * 2 ^ 16 =
      ap (λ (t : ℕ). bit_or (2 ^ 31) t) {x = u32 (bus <<< 16)} {y = bus * 2 ^ 16} (omega arith)
      ∙ bit_or_fields 31 1 (bus * 2 ^ 16) (omega arith)
      ∙ omega arith in
    let with_slot : bit_or ((2 ^ 15 + bus) * 2 ^ 16) (u32 (slot <<< 11))
        ≡ ((2 ^ 15 + bus) * 32 + slot) * 2 ^ 11 =
      ap (λ (t : ℕ). bit_or ((2 ^ 15 + bus) * 2 ^ 16) t) {x = u32 (slot <<< 11)} {y = slot * 2 ^ 11}
        (omega arith)
      ∙ bit_or_fields 16 (2 ^ 15 + bus) (slot * 2 ^ 11) (omega arith)
      ∙ omega arith in
    let with_func : bit_or (((2 ^ 15 + bus) * 32 + slot) * 2 ^ 11) (u32 (func <<< 8))
        ≡ (((2 ^ 15 + bus) * 32 + slot) * 8 + func) * 2 ^ 8 =
      ap (λ (t : ℕ). bit_or (((2 ^ 15 + bus) * 32 + slot) * 2 ^ 11) t) {x = u32 (func <<< 8)}
        {y = func * 2 ^ 8} (omega arith)
      ∙ bit_or_fields 11 ((2 ^ 15 + bus) * 32 + slot) (func * 2 ^ 8) (omega arith)
      ∙ omega arith in
    let dword : bit_and offset 0xFC ≡ offset / 4 * 4 = bit_and-high_mask 2 6 offset (omega arith) in
    rw (with_bus, with_slot, with_func, dword)
      (ap u32
          (bit_or_fields 8 (((2 ^ 15 + bus) * 32 + slot) * 8 + func) (offset / 4 * 4) (omega arith))
        ∙ omega arith)

-- Configuration mechanism 1 of the PCI bus: after a write of an address to 0xCF8, a read of 0xCFC
-- gives the dword of configuration space at that address.
abbrev pub Mechanism : Device → (ℕ → ℕ) → Type 0
Mechanism device space =
    (log : Log) (a : ℕ) → device (Access.outl config_addr a ∷ log) config_data ≡ space a

-- The word at an even offset of a function's configuration space.
abbrev pub word : (ℕ → ℕ) → ℕ → ℕ → ℕ → ℕ → ℕ
word space bus slot func offset = u16 (space (address bus slot func offset) / 2 ^ (offset % 4 * 8))

abbrev pub after_read : ℕ → ℕ → ℕ → ℕ → Log → Log
after_read bus slot func offset log =
    Access.inl config_data ∷ Access.outl config_addr (address bus slot func offset) ∷ log

-- Where the bus follows configuration mechanism 1, `pci_config_readw` reads the word at an even
-- offset, by one write of the address and one read of the data.
pub pci_config_readw-word :
    (device : Device) (space : ℕ → ℕ) (bus slot func half : ℕ) (log : Log)
    → Mechanism device space
    → bus < 256
    → slot < 32
    → func < 8
    → half < 128
    → pci_config_readw device bus slot func (2 * half) log
      ≡ (word space bus slot func (2 * half), after_read bus slot func (2 * half) log)
unfolding pci_config_readw
pci_config_readw-word device space bus slot func half log mech h k l r =
    let two : bit_and (2 * half) 2 ≡ 2 * half % 4 =
      omega (arith, bit_and-two-pow 1 (2 * half), bit_eq_div 1 (2 * half)) in
    rw
      (
        pci_get_cfg_addr_lem bus slot func (2 * half) h k l (omega arith),
        mech log (address bus slot func (2 * half)),
        two,
      )
      (ap (λ (t : ℕ). (u16 t, after_read bus slot func (2 * half) log))
          (bit_and-low_mask 16 (space (address bus slot func (2 * half)) / 2 ^ (2 * half % 4 * 8)))
        ∙ ap (λ (t : ℕ). (t, after_read bus slot func (2 * half) log)) (omega arith))
