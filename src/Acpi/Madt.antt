-- ===== src/Acpi/Madt.antt =====
-- The walks over the entries of the MADT, and the checksum of a table.
use mksd_old_archive.Base.{
  ℕ, zero, suc, ◌+◌, ◌%◌, ◌≤◌, ◌<◌, ◌≡◌, refl, ap, ◌∙◌, arith, Bool, ◌&&◌, some, List, [], ◌∷◌,
  length, ◌==◌, if◌then◌else◌, u8, u16, Memory, load,
}
use mksd_old_archive.Base.Layout.{member, sizeof}
use mksd_old_archive.Acpi.Structs.{acpi_header_t, acpi_madt_t, io_apic_t, apic_interrupt_override_t}
use mksd_old_archive.Acpi.{
  Acpi, entry_type, entry_length, parse_from, parse_madt, sum_bytes, do_checksum, remap_from,
  acpi_remap_irq,
}

-- The entries from `cur` to `end` stand at these addresses, each where the one before it ends.
abbrev pub Walk : Memory → ℕ → ℕ → List ℕ → Type 0
Walk m cur end [] = end ≤ cur
Walk m cur end (p ∷ ps) = (p ≡ cur) × (cur < end) × Walk m (cur + entry_length m cur) end ps

abbrev pub overrides : Memory → ℕ → ℕ → Bool
overrides m irq p = (entry_type m p == 2) && (member apic_interrupt_override_t "source" m p == irq)

-- The interrupt of the first override of an IRQ, or the IRQ itself.
unfoldable pub first_override : Memory → ℕ → List ℕ → ℕ
first_override m irq [] = irq
first_override m irq (p ∷ ps) =
    if overrides m irq p
    then u16 (member apic_interrupt_override_t "interrupt" m p)
    else first_override m irq ps

-- The address in the last I/O APIC entry, or the old one.
unfoldable pub last_io_apic : Memory → ℕ → List ℕ → ℕ
last_io_apic m old [] = old
last_io_apic m old (p ∷ ps) =
    last_io_apic m (if entry_type m p == 1 then member io_apic_t "io_apic_addr" m p else old) ps

remap_from-Walk :
    (fuel : ℕ) (m : Memory) (cur end irq : ℕ) (ps : List ℕ)
    → Walk m cur end ps
    → length ps < fuel
    → remap_from fuel m cur end irq ≡ some (first_override m irq ps)
unfolding remap_from first_override
remap_from-Walk zero m cur end irq ps w l = absurd (omega arith)
remap_from-Walk (suc fuel) m cur end irq [] w l = ground arith
remap_from-Walk (suc fuel) m cur end irq (p ∷ ps) (e, more, rest) l = rw e (
    ground (arith, remap_from-Walk fuel m (cur + entry_length m cur) end irq ps rest (omega arith)))

-- Where the MADT is a sequence of fewer entries than the fuel, `acpi_remap_irq` ends with the
-- interrupt of the first override of the IRQ, or with the IRQ itself if there is none.
pub acpi_remap_irq-first_override :
    (fuel : ℕ) (m : Memory) (s : Acpi) (irq : ℕ) (ps : List ℕ)
    → Walk m (s.madt + sizeof acpi_madt_t) (s.madt + member acpi_header_t "length" m s.madt) ps
    → length ps < fuel
    → acpi_remap_irq fuel m s irq ≡ some (first_override m irq ps)
unfolding acpi_remap_irq
acpi_remap_irq-first_override fuel m s irq ps w l =
    remap_from-Walk fuel m (s.madt + sizeof acpi_madt_t)
      (s.madt + member acpi_header_t "length" m s.madt) irq ps w l

parse_from-Walk :
    (fuel : ℕ) (m : Memory) (cur end old : ℕ) (ps : List ℕ)
    → Walk m cur end ps
    → length ps < fuel
    → parse_from fuel m cur end old ≡ some (last_io_apic m old ps)
unfolding parse_from last_io_apic
parse_from-Walk zero m cur end old ps w l = absurd (omega arith)
parse_from-Walk (suc fuel) m cur end old [] w l = ground arith
parse_from-Walk (suc fuel) m cur end old (p ∷ ps) (e, more, rest) l = rw e (
    ground (
      arith,
      parse_from-Walk fuel m (cur + entry_length m cur) end
          (if entry_type m cur == 1 then load 4 m (cur + 4) else old) ps rest (omega arith),
    ))

-- Where the MADT is a sequence of fewer entries than the fuel, `parse_madt` ends, and enters the
-- address of the local APIC and that of the last I/O APIC of the table, if there is one.
pub parse_madt-last_io_apic :
    (fuel : ℕ) (m : Memory) (s : Acpi) (ps : List ℕ)
    → Walk m (s.madt + sizeof acpi_madt_t) (s.madt + member acpi_header_t "length" m s.madt) ps
    → length ps < fuel
    → parse_madt fuel m s
      ≡ some (record s {
        lapic_mmio_base = load 4 m (s.madt + 36);
        ioapic_mmio_base = last_io_apic m s.ioapic_mmio_base ps;
      })
unfolding parse_madt
parse_madt-last_io_apic fuel m s ps w l =
    rw
      (
        parse_from-Walk fuel m (s.madt + sizeof acpi_madt_t)
            (s.madt + member acpi_header_t "length" m s.madt) s.ioapic_mmio_base ps w l,
        parse_madt,
      )
      refl

-- The sum of the bytes of a block.
unfoldable pub total : ℕ → Memory → ℕ → ℕ
total zero m p = 0
total (suc n) m p = m p + total n m (p + 1)

sum_bytes-total :
    (n : ℕ) (m : Memory) (p sum : ℕ) → sum_bytes n m p sum % 256 ≡ (sum + total n m p) % 256
unfolding sum_bytes total
sum_bytes-total zero m p sum = omega arith
sum_bytes-total (suc n) m p sum = omega (arith, sum_bytes-total n m (p + 1) (u8 (sum + m p)))

-- `do_checksum` accepts a table exactly if the bytes of its stated length add up to a multiple of
-- 256.
pub do_checksum-total :
    (m : Memory) (header : ℕ)
    → do_checksum m header ≡ (total (load 4 m (header + 4)) m header % 256 == 0)
unfolding do_checksum
do_checksum-total m header =
    ap (λ (t : ℕ). t == 0) (sum_bytes-total (load 4 m (header + 4)) m header 0 ∙ omega arith)
