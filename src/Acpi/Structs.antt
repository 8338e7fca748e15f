-- ===== src/Acpi/Structs.antt =====
-- The tables of sys/include/acpi/def.h that acpi.c reads.
use mksd_old_archive.Base.{true, [], ◌∷◌}
use mksd_old_archive.Base.Layout.{Struct, Field, sizeof, align}

-- `acpi_rsdp_t`
abbrev pub acpi_rsdp_t : Struct
acpi_rsdp_t = record {
  packed = true;
  fields =
      Field.array "signature" 1 8
      ∷ Field.scalar "checksum" 1
      ∷ Field.array "OEMID" 1 6
      ∷ Field.scalar "rev" 1
      ∷ Field.scalar "rsdtaddr" 4
      ∷ [];
}

-- `acpi_header_t`
abbrev pub acpi_header_t : Struct
acpi_header_t = record {
  packed = true;
  fields =
      Field.array "signature" 1 4
      ∷ Field.scalar "length" 4
      ∷ Field.scalar "revision" 1
      ∷ Field.scalar "checksum" 1
      ∷ Field.array "oem" 1 6
      ∷ Field.array "oem_table" 1 8
      ∷ Field.scalar "oem_revision" 4
      ∷ Field.scalar "creator_id" 4
      ∷ Field.scalar "creator_revision" 4
      ∷ [];
}

-- `acpi_rsdt_t`
abbrev pub acpi_rsdt_t : Struct
acpi_rsdt_t = record {
  packed = true;
  fields =
      Field.nested "header" (sizeof acpi_header_t) (align acpi_header_t) 1
      ∷ Field.array "tables" 4 0
      ∷ [];
}

-- `acpi_gas_t`
abbrev pub acpi_gas_t : Struct
acpi_gas_t = record {
  packed = true;
  fields =
      Field.scalar "address_space" 1
      ∷ Field.scalar "bit_width" 1
      ∷ Field.scalar "bit_offset" 1
      ∷ Field.scalar "access_size" 1
      ∷ Field.scalar "base" 8
      ∷ [];
}

-- `acpi_fadt_t`
abbrev pub acpi_fadt_t : Struct
acpi_fadt_t = record {
  packed = true;
  fields =
      Field.nested "header" (sizeof acpi_header_t) (align acpi_header_t) 1
      ∷ Field.scalar "firmware_control" 4
      ∷ Field.scalar "dsdt" 4
      ∷ Field.scalar "reserved" 1
      ∷ Field.scalar "profile" 1
      ∷ Field.scalar "sci_irq" 2
      ∷ Field.scalar "smi_command_port" 4
      ∷ Field.scalar "acpi_enable" 1
      ∷ Field.scalar "acpi_disable" 1
      ∷ Field.scalar "s4bios_req" 1
      ∷ Field.scalar "pstate_control" 1
      ∷ Field.scalar "pm1a_event_block" 4
      ∷ Field.scalar "pm1b_event_block" 4
      ∷ Field.scalar "pm1a_control_block" 4
      ∷ Field.scalar "pm1b_control_block" 4
      ∷ Field.scalar "pm2_control_block" 4
      ∷ Field.scalar "pm_timer_block" 4
      ∷ Field.scalar "gpe0_block" 4
      ∷ Field.scalar "gpe1_block" 4
      ∷ Field.scalar "pm1_event_length" 1
      ∷ Field.scalar "pm1_control_length" 1
      ∷ Field.scalar "pm2_control_length" 1
      ∷ Field.scalar "pm_timer_length" 1
      ∷ Field.scalar "gpe0_length" 1
      ∷ Field.scalar "gpe1_length" 1
      ∷ Field.scalar "gpe1_base" 1
      ∷ Field.scalar "cstate_control" 1
      ∷ Field.scalar "worst_c2_latency" 2
      ∷ Field.scalar "worst_c3_latency" 2
      ∷ Field.scalar "flush_size" 2
      ∷ Field.scalar "flush_stride" 2
      ∷ Field.scalar "duty_offset" 1
      ∷ Field.scalar "duty_width" 1
      ∷ Field.scalar "day_alarm" 1
      ∷ Field.scalar "month_alarm" 1
      ∷ Field.scalar "century" 1
      ∷ Field.scalar "iapc_boot_flags" 2
      ∷ Field.scalar "reserved2" 1
      ∷ Field.scalar "flags" 4
      ∷ Field.nested "reset_register" (sizeof acpi_gas_t) (align acpi_gas_t) 1
      ∷ Field.scalar "reset_command" 1
      ∷ Field.scalar "arm_boot_flags" 2
      ∷ Field.scalar "minor_version" 1
      ∷ Field.scalar "x_firmware_control" 8
      ∷ Field.scalar "x_dsdt" 8
      ∷ Field.nested "x_pm1a_event_block" (sizeof acpi_gas_t) (align acpi_gas_t) 1
      ∷ Field.nested "x_pm1b_event_block" (sizeof acpi_gas_t) (align acpi_gas_t) 1
      ∷ Field.nested "x_pm1a_control_block" (sizeof acpi_gas_t) (align acpi_gas_t) 1
      ∷ Field.nested "x_pm1b_control_block" (sizeof acpi_gas_t) (align acpi_gas_t) 1
      ∷ Field.nested "x_pm2_control_block" (sizeof acpi_gas_t) (align acpi_gas_t) 1
      ∷ Field.nested "x_pm_timer_block" (sizeof acpi_gas_t) (align acpi_gas_t) 1
      ∷ Field.nested "x_gpe0_block" (sizeof acpi_gas_t) (align acpi_gas_t) 1
      ∷ Field.nested "x_gpe1_block" (sizeof acpi_gas_t) (align acpi_gas_t) 1
      ∷ [];
}

-- `acpi_madt_t`
abbrev pub acpi_madt_t : Struct
acpi_madt_t = record {
  packed = true;
  fields =
      Field.nested "header" (sizeof acpi_header_t) (align acpi_header_t) 1
      ∷ Field.scalar "lapic_addr" 4
      ∷ Field.scalar "flags" 4
      ∷ [];
}

-- `apic_header_t`
abbrev pub apic_header_t : Struct
apic_header_t = record {
  packed = true;
  fields = Field.scalar "type" 1 ∷ Field.scalar "length" 1 ∷ [];
}

-- `io_apic_t`
abbrev pub io_apic_t : Struct
io_apic_t = record {
  packed = true;
  fields =
      Field.nested "header" (sizeof apic_header_t) (align apic_header_t) 1
      ∷ Field.scalar "io_apic_id" 1
      ∷ Field.scalar "reserved" 1
      ∷ Field.scalar "io_apic_addr" 4
      ∷ Field.scalar "global_system_interrupt_base" 4
      ∷ [];
}

-- `apic_interrupt_override_t`
abbrev pub apic_interrupt_override_t : Struct
apic_interrupt_override_t = record {
  packed = true;
  fields =
      Field.nested "header" (sizeof apic_header_t) (align apic_header_t) 1
      ∷ Field.scalar "bus" 1
      ∷ Field.scalar "source" 1
      ∷ Field.scalar "interrupt" 4
      ∷ Field.scalar "flags" 2
      ∷ [];
}
