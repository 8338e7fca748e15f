-- ===== src/Arch/Pci/Find.antt =====
-- What pci_find and pci_find_any return.
use mksd_old_archive.Base.{
  ℕ, ◌/◌, ◌%◌, ◌<◌, bit_and, ◌≡◌, ◌⊎◌, inl, inr, refl, sym, ap, ◌∙◌, arith, Bool, true, false, ◌&&◌,
  ◌||◌, Option, none, some, ltb, ◌==◌, Bool-cases, subst, u8,
}
use mksd_old_archive.Base.Bits.Masks.{bit_and-low_mask}
use mksd_old_archive.Arch.Ports.{Log, Device}
use mksd_old_archive.Arch.Pci.{
  PciDevice, scan_buses, is_device, is_class, found_device, pci_find, pci_find_any,
}
use mksd_old_archive.Arch.Pci.Scan.{At, Answers, First, good_at, scan_buses-First}
use mksd_old_archive.Arch.Pci.Address.{Mechanism, word, after_read, pci_config_readw-word}
use mksd_old_archive.Arch.Pci.Bars.{bars_of, pci_init_dev-bars_of}

-- A function of the bus with these ids.
abbrev pub has_ids : (ℕ → ℕ) → ℕ → ℕ → ℕ → ℕ → ℕ → Bool
has_ids space vendor_id device_id bus slot func =
    (word space bus slot func 0 == vendor_id) && (word space bus slot func 2 == device_id)

-- A function of the bus with this class and subclass and, unless that is -1, this interface.
abbrev pub has_class : (ℕ → ℕ) → ℕ → ℕ → ℕ → ℕ → ℕ → ℕ → Bool
has_class space class subclass interface bus slot func =
    (word space bus slot func 0xA / 256 == class)
    && ((word space bus slot func 0xA % 256 == subclass)
        && ((interface == 0xFF)
            || ((word space bus slot func 0x8 / 256 == interface) && ltb interface 0x80)))

is_device-Answers :
    (device : Device) (space : ℕ → ℕ) (vendor_id device_id : ℕ)
    → Mechanism device space
    → Answers (is_device device vendor_id device_id) (has_ids space vendor_id device_id)
unfolding is_device
is_device-Answers device space vendor_id device_id mech bus slot func log h k l =
    let log₁ = after_read bus slot func 0 log in
    rw
      (
        pci_config_readw-word device space bus slot func 0 log mech h k l (omega arith),
        pci_config_readw-word device space bus slot func 1 log₁ mech h k l (omega arith),
      )
      (elim (Bool-cases (word space bus slot func 0 == vendor_id)) [
        | inl e ↦ rw e (after_read bus slot func 2 log₁, refl)
        | inr e ↦ rw e (log₁, refl)
      ])

is_class-Answers :
    (device : Device) (space : ℕ → ℕ) (class subclass interface : ℕ)
    → Mechanism device space
    → Answers (is_class device class subclass interface) (has_class space class subclass interface)
unfolding is_class
is_class-Answers device space class subclass interface mech bus slot func log h k l =
    let log₁ = after_read bus slot func 0xA log in
    let log₂ = after_read bus slot func 0xA log₁ in
    let log₃ = after_read bus slot func 0x8 log₂ in
    let w = word space bus slot func 0xA in
    let p = word space bus slot func 0x8 in
    let high : u8 (w / 256) ≡ w / 256 = omega arith in
    let low : u8 (bit_and w 0xFF) ≡ w % 256 = ap u8 (bit_and-low_mask 8 w) ∙ omega arith in
    let prog : u8 (p / 256) ≡ p / 256 = omega arith in
    rw
      (
        pci_config_readw-word device space bus slot func 5 log mech h k l (omega arith),
        pci_config_readw-word device space bus slot func 5 log₁ mech h k l (omega arith),
        pci_config_readw-word device space bus slot func 4 log₂ mech h k l (omega arith),
        high,
        low,
        prog,
      )
      (elim (Bool-cases (w / 256 == class)) [
        | inr e ↦ rw e (log₁, refl)
        | inl e ↦ elim (Bool-cases (w % 256 == subclass)) [
          | inr f ↦ rw (e, f) (log₂, refl)
          | inl f ↦ rw (e, f) (log₃, ap (λ (b : Bool). (b, log₃)) (ground arith))
        ]
      ])

-- The device that stands for function number `k` of the bus.
abbrev pub device_at : (ℕ → ℕ) → ℕ → ℕ → PciDevice
device_at space irq_line k = record {
  bars = bars_of space (k / 256) (k / 8 % 32) (k % 8);
  bus = k / 256;
  slot = k / 8 % 32;
  func = k % 8;
  irq_line = irq_line;
}

-- The first good function of the five buses that are searched, or nothing if there is none.
abbrev pub Finds : (ℕ → ℕ) → ℕ → (ℕ → ℕ → ℕ → Bool) → Option PciDevice → Type 0
Finds space irq_line good out =
    ((out ≡ none) × ((k : ℕ) → k < 1280 → good_at good k ≡ false))
    ⊎ ((k : ℕ) × (k < 1280)
        × (good_at good k ≡ true)
        × ((j : ℕ) → j < k → good_at good j ≡ false)
        × (out ≡ some (device_at space irq_line k)))

found_device-Finds :
    (device : Device) (space : ℕ → ℕ) (irq_line : ℕ) (good : ℕ → ℕ → ℕ → Bool)
    (out : Option At × Log)
    → Mechanism device space
    → First good 0 1280 (out.0)
    → Finds space irq_line good ((found_device device irq_line out).0)
unfolding found_device
found_device-Finds device space irq_line good (none, log) mech (inl (e, none_good)) =
    inl (refl, λ k l. none_good k (omega arith) (omega arith))
found_device-Finds device space irq_line good (none, log) mech (inr (k, lo, hi, hit, before, e)) =
    absurd (ground arith)
found_device-Finds device space irq_line good (some at, log) mech (inl (e, none_good)) =
    absurd (ground arith)
found_device-Finds device space irq_line good (some at, log) mech
      (inr (k, lo, hi, hit, before, e)) =
    let (log', run) =
      pci_init_dev-bars_of device space irq_line (k / 256) (k / 8 % 32) (k % 8) log mech
        (omega arith) (omega arith) (omega arith) in
    subst (λ o. Finds space irq_line good ((found_device device irq_line (o, log)).0)) (sym e)
      (inr (
        k,
        hi,
        hit,
        (λ j l. before j (omega arith) l),
        ap (λ (r : PciDevice × Log). some (r.0)) run,
      ))

-- Where the bus follows configuration mechanism 1, `pci_find` returns the first function of buses
-- 0 to 4 that has both ids, in the order of bus, slot and function, with the registers that
-- `pci_init_dev` enters, or NULL if there is none.
pub pci_find-Finds :
    (device : Device) (space : ℕ → ℕ) (irq_line vendor_id device_id : ℕ) (log : Log)
    → Mechanism device space
    → Finds space irq_line
        (has_ids space vendor_id device_id)
        ((pci_find device irq_line vendor_id device_id log).0)
unfolding pci_find
pci_find-Finds device space irq_line vendor_id device_id log mech =
    let good = has_ids space vendor_id device_id in
    let test = is_device device vendor_id device_id in
    found_device-Finds device space irq_line good (scan_buses test 5 0 log) mech (
      scan_buses-First test good 5 0 log (is_device-Answers device space vendor_id device_id mech)
        (omega arith))

-- Where the bus follows configuration mechanism 1, `pci_find_any` returns the first function of
-- buses 0 to 4 that has the class, the subclass and, unless it is -1, the interface, in the order
-- of bus, slot and function, with the registers that `pci_init_dev` enters, or NULL if there is
-- none. No function has a negative interface other than -1.
pub pci_find_any-Finds :
    (device : Device) (space : ℕ → ℕ) (irq_line class subclass interface : ℕ) (log : Log)
    → Mechanism device space
    → Finds space irq_line
        (has_class space class subclass interface)
        ((pci_find_any device irq_line class subclass interface log).0)
unfolding pci_find_any
pci_find_any-Finds device space irq_line class subclass interface log mech =
    let good = has_class space class subclass interface in
    let test = is_class device class subclass interface in
    found_device-Finds device space irq_line good (scan_buses test 5 0 log) mech (
      scan_buses-First test good 5 0 log
        (is_class-Answers device space class subclass interface mech) (omega arith))
