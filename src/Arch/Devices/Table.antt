-- ===== src/Arch/Devices/Table.antt =====
-- The interrupt descriptor table as the processor is told of it, in idt.c and sys/include/arch/x64/idt.h.
use mksd_old_archive.Base.{ℕ, ◌*◌, ◌-◌, ◌≡◌, refl, false, [], ◌∷◌}
use mksd_old_archive.Base.Layout.{Struct, Field, sizeof, offsetof}

-- `idt_gate_desc_t`
abbrev pub idt_gate_desc_t : Struct
idt_gate_desc_t = record {
  packed = false;
  fields =
      Field.scalar "isr_low16" 2
      ∷ Field.scalar "cs" 2
      ∷ Field.bit_field "ist" 1 2
      ∷ Field.bit_field "zero" 1 4
      ∷ Field.bit_field "attr" 1 4
      ∷ Field.bit_field "zero1" 1 1
      ∷ Field.bit_field "dpl" 1 2
      ∷ Field.bit_field "p" 1 1
      ∷ Field.scalar "isr_mid16" 2
      ∷ Field.scalar "isr_high32" 4
      ∷ Field.scalar "reserved" 4
      ∷ [];
}

-- `idtr_t`
pub record Idtr : Type 0 where
  pub limit : ℕ
  pub base : ℕ

-- The variable `idtr`, for the address of `idt`.
abbrev pub idtr : ℕ → Idtr
idtr idt = record { limit = sizeof idt_gate_desc_t * 256 - 1; base = idt }

-- The register of the processor after `lidt`.
abbrev pub load_idt : ℕ → Idtr
load_idt idt = idtr idt

-- A gate has the 16 bytes of the processor, with the present bit as the last of byte 5.
gate-layout : (sizeof idt_gate_desc_t ≡ 16) × (offsetof idt_gate_desc_t "p" ≡ 5)
gate-layout = (refl, refl)
