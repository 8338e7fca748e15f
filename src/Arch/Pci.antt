-- ===== src/Arch/Pci.antt =====
-- sys/src/arch/bus/pci.c. `device` answers the reads of ports. A device that is found is a record: the
-- kmalloc of its block and the stores into the block are left out of the heap and of memory.
pub mod Address
pub mod Bars
pub mod Scan
pub mod Find
mod Tests
use mksd_old_archive.Base.{
  ℕ, zero, suc, ◌+◌, ◌*◌, ◌/◌, ◌%◌, ◌^◌, bit_and, bit_or, Bool, true, false, ◌&&◌, ◌||◌, not,
  Option, none, some, List, [], ◌∷◌, ltb, ◌==◌, if◌then◌else◌, u8, u16, u32, ◌<<<◌, ◌>>>◌,
}
use mksd_old_archive.Arch.Ports.{Access, Log, Device}

-- `pci_device_t`
pub record PciDevice : Type 0 where
  pub bars : List ℕ
  pub bus : ℕ
  pub slot : ℕ
  pub func : ℕ
  pub irq_line : ℕ

abbrev pub config_addr : ℕ
config_addr = 0xCF8

abbrev pub config_data : ℕ
config_data = 0xCFC

unfoldable pub pci_get_cfg_addr : ℕ → ℕ → ℕ → ℕ → ℕ
pci_get_cfg_addr bus slot func offset = u32 (
    bit_or
      (bit_or (bit_or (bit_or (2 ^ 31) (u32 (bus <<< 16))) (u32 (slot <<< 11))) (u32 (func <<< 8)))
      (bit_and offset 0xFC))

unfoldable pub pci_config_readw : Device → ℕ → ℕ → ℕ → ℕ → Log → ℕ × Log
pci_config_readw device bus slot func offset log =
    let log₁ = Access.outl config_addr (pci_get_cfg_addr bus slot func offset) ∷ log in
    (
      u16 (bit_and (device log₁ config_data >>> (bit_and offset 2 * 8)) 0xFFFF),
      Access.inl config_data ∷ log₁,
    )

unfoldable pub pci_config_writew : ℕ → ℕ → ℕ → ℕ → ℕ → Log → Log
pci_config_writew bus slot func offset value log =
    Access.outl config_data value
    ∷ Access.outl config_addr (pci_get_cfg_addr bus slot func offset)
    ∷ log

unfoldable pub pci_enable_bus_mastering : Device → PciDevice → Log → Log
pci_enable_bus_mastering device dev log =
    let (val, log₁) = pci_config_readw device dev.bus dev.slot dev.func 0x4 log in
    pci_config_writew dev.bus dev.slot dev.func 0x4 (u16 (bit_or (bit_or val (2 ^ 2)) (2 ^ 0))) log₁

abbrev pub pci_read_vendor : Device → ℕ → ℕ → ℕ → Log → ℕ × Log
pci_read_vendor device bus slot func log = pci_config_readw device bus slot func 0x0 log

abbrev pub pci_read_device_id : Device → ℕ → ℕ → ℕ → Log → ℕ × Log
pci_read_device_id device bus slot func log = pci_config_readw device bus slot func 0x2 log

abbrev pub pci_read_device_class : Device → ℕ → ℕ → ℕ → Log → ℕ × Log
pci_read_device_class device bus slot func log =
    let (w, log₁) = pci_config_readw device bus slot func 0xA log in (u8 (w >>> 8), log₁)

abbrev pub pci_read_device_subclass : Device → ℕ → ℕ → ℕ → Log → ℕ × Log
pci_read_device_subclass device bus slot func log =
    let (w, log₁) = pci_config_readw device bus slot func 0xA log in (u8 (bit_and w 0xFF), log₁)

abbrev pub pci_read_progif : Device → ℕ → ℕ → ℕ → Log → ℕ × Log
pci_read_progif device bus slot func log =
    let (w, log₁) = pci_config_readw device bus slot func 0x8 log in (u8 (w >>> 8), log₁)

-- The body that `get_bar0` to `get_bar5` share.
unfoldable pub read_bar : Device → ℕ → ℕ → ℕ → ℕ → ℕ → Log → ℕ × Log
read_bar device lo_offset hi_offset bus slot func log =
    let (lo, log₁) = pci_config_readw device bus slot func lo_offset log in
    let (hi, log₂) = pci_config_readw device bus slot func hi_offset log₁ in
    (bit_or (u32 (hi <<< 16)) lo, log₂)

abbrev pub get_bar0 : Device → ℕ → ℕ → ℕ → Log → ℕ × Log
get_bar0 device = read_bar device 0x10 0x12

abbrev pub get_bar1 : Device → ℕ → ℕ → ℕ → Log → ℕ × Log
get_bar1 device = read_bar device 0x14 0x16

abbrev pub get_bar2 : Device → ℕ → ℕ → ℕ → Log → ℕ × Log
get_bar2 device = read_bar device 0x18 0x1A

abbrev pub get_bar3 : Device → ℕ → ℕ → ℕ → Log → ℕ × Log
get_bar3 device = read_bar device 0x1C 0xE

abbrev pub get_bar4 : Device → ℕ → ℕ → ℕ → Log → ℕ × Log
get_bar4 device = read_bar device 0x20 0x22

abbrev pub get_bar5 : Device → ℕ → ℕ → ℕ → Log → ℕ × Log
get_bar5 device = read_bar device 0x24 0x26

-- `irq_line` is what the block from kmalloc held: nothing sets that field.
unfoldable pub pci_init_dev : Device → ℕ → ℕ → ℕ → ℕ → Log → PciDevice × Log
pci_init_dev device irq_line bus slot func log =
    let (bar0, log₁) = get_bar0 device bus slot func log in
    let (bar1, log₂) = get_bar1 device bus slot func log₁ in
    let (bar2, log₃) = get_bar2 device bus slot func log₂ in
    let (bar3, log₄) = get_bar3 device bus slot func log₃ in
    let (bar4, log₅) = get_bar4 device bus slot func log₄ in
    let (bar5, log₆) = get_bar5 device bus slot func log₅ in
    (
      record {
        bars = bar0 ∷ bar1 ∷ bar2 ∷ bar3 ∷ bar4 ∷ bar5 ∷ [];
        bus = bus;
        slot = slot;
        func = func;
        irq_line = irq_line;
      },
      log₆,
    )

-- A test of one function of the bus, with the accesses that it makes.
abbrev pub Test : Type 0
Test = ℕ → ℕ → ℕ → Log → Bool × Log

-- The three loops of `pci_find` and `pci_find_any`, each with `n` rounds left.
unfoldable pub scan_funcs : Test → ℕ → ℕ → ℕ → ℕ → Log → Option (ℕ × ℕ × ℕ) × Log
scan_funcs test zero bus slot func log = (none, log)
scan_funcs test (suc n) bus slot func log =
    let (hit, log') = test bus slot func log in
    let rest = scan_funcs test n bus slot (func + 1) log' in
    if hit then (some (bus, slot, func), log') else rest

-- An inner loop returns from the function where it finds something; else the next round runs.
unfoldable pub or_next :
    Option (ℕ × ℕ × ℕ) × Log → (Log → Option (ℕ × ℕ × ℕ) × Log) → Option (ℕ × ℕ × ℕ) × Log
or_next (none, log) next = next log
or_next (some at, log) next = (some at, log)

unfoldable pub scan_slots : Test → ℕ → ℕ → ℕ → Log → Option (ℕ × ℕ × ℕ) × Log
scan_slots test zero bus slot log = (none, log)
scan_slots test (suc n) bus slot log =
    or_next (scan_funcs test 8 bus slot 0 log) (scan_slots test n bus (slot + 1))

unfoldable pub scan_buses : Test → ℕ → ℕ → Log → Option (ℕ × ℕ × ℕ) × Log
scan_buses test zero bus log = (none, log)
scan_buses test (suc n) bus log =
    or_next (scan_slots test 32 bus 0 log) (scan_buses test n (bus + 1))

-- `pci_read_vendor(...) == vendor_id && pci_read_device_id(...) == device_id`
unfoldable pub is_device : Device → ℕ → ℕ → Test
is_device device vendor_id device_id bus slot func log =
    let (vendor, log₁) = pci_read_vendor device bus slot func log in
    let (id, log₂) = pci_read_device_id device bus slot func log₁ in
    if vendor == vendor_id then (id == device_id, log₂) else (false, log₁)

-- The tests of `pci_find_any`. `interface` is the byte of an `int8_t`: 0xFF is -1, and the other
-- bytes from 0x80 on are negative, so no `uint8_t` equals them.
unfoldable pub is_class : Device → ℕ → ℕ → ℕ → Test
is_class device class subclass interface bus slot func log =
    let (c, log₁) = pci_read_device_class device bus slot func log in
    let (d, log₂) = pci_read_device_subclass device bus slot func log₁ in
    let (p, log₃) = pci_read_progif device bus slot func log₂ in
    if c == class
    then (if d == subclass
        then (not (not ((p == interface) && ltb interface 0x80) && not (interface == 0xFF)), log₃)
        else (false, log₂))
    else (false, log₁)

-- The device that a scan found, as `pci_init_dev` fills it in.
unfoldable pub found_device : Device → ℕ → Option (ℕ × ℕ × ℕ) × Log → Option PciDevice × Log
found_device device irq_line (none, log) = (none, log)
found_device device irq_line (some (bus, slot, func), log) =
    let (dev, log') = pci_init_dev device irq_line bus slot func log in (some dev, log')

unfoldable pub pci_find : Device → ℕ → ℕ → ℕ → Log → Option PciDevice × Log
pci_find device irq_line vendor_id device_id log =
    found_device device irq_line (scan_buses (is_device device vendor_id device_id) 5 0 log)

unfoldable pub pci_find_any : Device → ℕ → ℕ → ℕ → ℕ → Log → Option PciDevice × Log
pci_find_any device irq_line class subclass interface log =
    found_device device irq_line (scan_buses (is_class device class subclass interface) 5 0 log)
