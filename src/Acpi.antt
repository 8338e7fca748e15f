-- ===== src/Acpi.antt =====
-- sys/src/acpi/acpi.c. The tables are read from memory at their addresses. `none` is a failed
-- ASSERT, or a loop whose fuel ran out.
pub mod Structs
pub mod Madt
mod Tests
use mksd_old_archive.Base.{
  ℕ, zero, suc, ◌+◌, ◌-◌, ◌*◌, ◌/◌, ◌%◌, ◌^◌, bit_and, bit_or, Bool, true, false, ◌&&◌, ◌||◌,
  Option, none, some, List, [], ◌∷◌, ltb, ◌==◌, if◌then◌else◌, u8, u16, u32, sub64, ◌<<<◌, ◌>>>◌,
  Memory, load,
}
use mksd_old_archive.Base.Layout.{member, sizeof}
use mksd_old_archive.Arch.Ports.{Access, Log}
use mksd_old_archive.Acpi.Structs.{
  acpi_rsdp_t, acpi_header_t, acpi_rsdt_t, acpi_fadt_t, acpi_madt_t, apic_header_t, io_apic_t,
  apic_interrupt_override_t,
}

infixl 5 ◌>>=◌
abbrev pub ◌>>=◌ {ℓ κ} : {A : Type ℓ} {B : Type κ} → Option A → (A → Option B) → Option B
none >>= f = none
some a >>= f = f a

-- The static variables of acpi.c; an address 0 is NULL.
pub record Acpi : Type 0 where
  pub rsdt : ℕ
  pub fadt : ℕ
  pub madt : ℕ
  pub slp_en : ℕ
  pub sci_en : ℕ
  pub slp_typa : ℕ
  pub slp_typb : ℕ
  pub rsdt_entry_count : ℕ
  pub lapic_mmio_base : ℕ
  pub ioapic_mmio_base : ℕ

-- `memcmp(p, literal, n) == 0`, where the literal holds these bytes.
unfoldable pub same_bytes : Memory → ℕ → List ℕ → Bool
same_bytes m p [] = true
same_bytes m p (c ∷ s) = (m p == c) && same_bytes m (p + 1) s

-- The loop of `locate_fadt` and `locate_madt`, with `n` rounds left before table number `i`.
unfoldable pub locate_from : List ℕ → ℕ → ℕ → Memory → ℕ → Option ℕ
locate_from signature zero i m rsdt = none
locate_from signature (suc n) i m rsdt =
    let current = load 4 m (member acpi_rsdt_t "tables" m rsdt + 4 * i) in
    let rest = locate_from signature n (i + 1) m rsdt in
    if same_bytes m current signature then some current else rest

abbrev or_old : Option ℕ → ℕ → ℕ
or_old none old = old
or_old (some new) old = new

unfoldable pub locate_fadt : Memory → Acpi → Acpi
locate_fadt m s = record s {
  fadt = or_old (locate_from (b'F' ∷ b'A' ∷ b'C' ∷ b'P' ∷ []) s.rsdt_entry_count 0 m s.rsdt) s.fadt;
}

unfoldable pub locate_madt : Memory → Acpi → Acpi
locate_madt m s = record s {
  madt = or_old (locate_from (b'A' ∷ b'P' ∷ b'I' ∷ b'C' ∷ []) s.rsdt_entry_count 0 m s.rsdt) s.madt;
}

abbrev pub entry_type : Memory → ℕ → ℕ
entry_type m cur = member apic_header_t "type" m cur

abbrev pub entry_length : Memory → ℕ → ℕ
entry_length m cur = member apic_header_t "length" m cur

-- The loop of `parse_madt`.
unfoldable pub parse_from : ℕ → Memory → ℕ → ℕ → ℕ → Option ℕ
parse_from zero m cur end ioapic = none
parse_from (suc fuel) m cur end ioapic =
    let rest =
      parse_from fuel m (cur + entry_length m cur) end
        (if entry_type m cur == 1 then member io_apic_t "io_apic_addr" m cur else ioapic) in
    if ltb cur end then rest else some ioapic

unfoldable pub parse_madt : ℕ → Memory → Acpi → Option Acpi
parse_madt fuel m s = do
  ioapic ←
      parse_from fuel m (s.madt + sizeof acpi_madt_t)
        (s.madt + member acpi_header_t "length" m s.madt) s.ioapic_mmio_base
  some (record s {
    lapic_mmio_base = member acpi_madt_t "lapic_addr" m s.madt;
    ioapic_mmio_base = ioapic;
  })

-- The loop of `do_checksum` with `n` bytes left.
unfoldable pub sum_bytes : ℕ → Memory → ℕ → ℕ → ℕ
sum_bytes zero m p sum = sum
sum_bytes (suc n) m p sum = sum_bytes n m (p + 1) (u8 (sum + m p))

unfoldable pub do_checksum : Memory → ℕ → Bool
do_checksum m header = sum_bytes (member acpi_header_t "length" m header) m header 0 % 0x100 == 0

-- The loop of `parse_dsdt_s5`: it counts nothing down.
unfoldable pub find_s5 : ℕ → Memory → ℕ → Option ℕ
find_s5 zero m s5 = none
find_s5 (suc fuel) m s5 =
    let rest = find_s5 fuel m (s5 + 1) in
    if same_bytes m s5 (b'_' ∷ b'S' ∷ b'5' ∷ b'_' ∷ []) then some s5 else rest

abbrev skip_prefix : Memory → ℕ → ℕ
skip_prefix m s5 = if m s5 == 0xA then s5 + 1 else s5

-- The sleep types behind `\_S5` at `s5`.
unfoldable pub read_s5 : Memory → ℕ → Acpi → Acpi
read_s5 m s5 s =
    let is_name =
      ((m (s5 - 1) == 0x08) || ((m (s5 - 2) == 0x08) && (m (s5 - 1) == 0x5C)))
      && (m (s5 + 4) == 0x12) in
    let a = skip_prefix m (s5 + 5 + ((bit_and (m (s5 + 5)) 0xC0 >>> 16) + 2)) in
    let b = skip_prefix m (a + 1) in
    if is_name
    then record s {
      slp_typa = u16 (m a <<< 10);
      slp_typb = u16 (m b <<< 10);
      slp_en = 2 ^ 13;
      sci_en = 1;
    }
    else s

unfoldable pub parse_dsdt_s5 : ℕ → Memory → Acpi → Option Acpi
parse_dsdt_s5 fuel m s =
    let dsdt = member acpi_fadt_t "dsdt" m s.fadt in
    let dsdt_length = u32 (load 4 m (dsdt + 4) + (2 ^ 32 - 36)) in
    if dsdt_length == 0 then some s else (do s5 ← find_s5 fuel m (dsdt + 36); some (read_s5 m s5 s))

-- What `acpi_power_off` writes to ports before it halts.
unfoldable pub acpi_power_off : Memory → Acpi → Log → Log
acpi_power_off m s log =
    let pm1b = member acpi_fadt_t "pm1b_control_block" m s.fadt in
    let log₁ =
      Access.outw (u16 (member acpi_fadt_t "pm1a_control_block" m s.fadt))
        (bit_or s.slp_typa s.slp_en)
      ∷ log in
    if pm1b == 0 then log₁ else Access.outw (u16 pm1b) (bit_or s.slp_typb s.slp_en) ∷ log₁

-- The loop of `acpi_remap_irq`.
unfoldable pub remap_from : ℕ → Memory → ℕ → ℕ → ℕ → Option ℕ
remap_from zero m cur end irq = none
remap_from (suc fuel) m cur end irq =
    let rest = remap_from fuel m (cur + entry_length m cur) end irq in
    if ltb cur end
    then (if (entry_type m cur == 2) && (member apic_interrupt_override_t "source" m cur == irq)
        then some (u16 (member apic_interrupt_override_t "interrupt" m cur))
        else rest)
    else some irq

unfoldable pub acpi_remap_irq : ℕ → Memory → Acpi → ℕ → Option ℕ
acpi_remap_irq fuel m s irq =
    remap_from fuel m (s.madt + sizeof acpi_madt_t)
      (s.madt + member acpi_header_t "length" m s.madt) irq

-- `ASSERT(condition, ...)`
abbrev pub assert : Bool → Acpi → Option Acpi
assert condition s = if condition then some s else none

abbrev pub is_set : ℕ → Bool
is_set p = if p == 0 then false else true

-- `rsdp` is what the boot loader answered.
unfoldable pub acpi_init : ℕ → Memory → ℕ → Acpi → Option Acpi
acpi_init fuel m rsdp s = do
  s₁ ←
      assert (do_checksum m (member acpi_rsdp_t "rsdtaddr" m rsdp))
        (record s { rsdt = member acpi_rsdp_t "rsdtaddr" m rsdp })
  s₂ ← some (
      locate_fadt m (record s₁ {
        rsdt_entry_count =
            sub64 (member acpi_header_t "length" m s₁.rsdt) (sizeof acpi_header_t) / 4;
      }))
  s₃ ← assert (is_set s₂.fadt) s₂
  s₄ ← assert (do_checksum m s₃.fadt) s₃
  s₅ ← parse_dsdt_s5 fuel m s₄
  s₆ ← some (locate_madt m s₅)
  s₇ ← assert (is_set s₆.madt) s₆
  s₈ ← assert (do_checksum m s₇.madt) s₇
  parse_madt fuel m s₈
