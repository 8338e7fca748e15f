-- ===== src/Acpi/Tests.antt =====
-- A MADT of two entries, and the theorems on acpi.c applied there.
use mksd_old_archive.Base.{◌+◌, ◌≡◌, refl, arith, some, [], ◌∷◌, ◌==◌, if◌then◌else◌, Memory, load}
use mksd_old_archive.Acpi.{Acpi, acpi_remap_irq}
use mksd_old_archive.Acpi.Madt.{Walk, first_override, acpi_remap_irq-first_override}

-- The table at 0 is 66 bytes long: an I/O APIC at 44, and at 56 the override of IRQ 0 by 2.
abbrev table : Memory
table a =
    if a == 4
    then 66
    else if a == 44
    then 1
    else if a == 45
    then 12
    else if a == 50
    then 0xC0
    else if a == 51
    then 0xFE
    else if a == 56
    then 2
    else if a == 57
    then 10
    else if a == 60
    then 2
    else 0

abbrev acpi : Acpi
acpi = record {
  rsdt = 0;
  fadt = 0;
  madt = 0;
  slp_en = 0;
  sci_en = 0;
  slp_typa = 0;
  slp_typb = 0;
  rsdt_entry_count = 0;
  lapic_mmio_base = 0;
  ioapic_mmio_base = 0;
}

table-Walk : Walk table (acpi.madt + 44) (acpi.madt + load 4 table (acpi.madt + 4)) (44 ∷ 56 ∷ [])
unfolding load
table-Walk = (refl, omega arith, (refl, omega arith, omega arith))

acpi_remap_irq-first_override_example :
    acpi_remap_irq 3 table acpi 0 ≡ some (first_override table 0 (44 ∷ 56 ∷ []))
acpi_remap_irq-first_override_example =
    acpi_remap_irq-first_override 3 table acpi 0 (44 ∷ 56 ∷ []) table-Walk (omega arith)
