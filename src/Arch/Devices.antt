-- ===== src/Arch/Devices.antt =====
-- sys/src/arch/x64/idt.c, ioapic.c and lapic.c, sys/src/intr/irq.c, and sys/src/drivers/timer/pit.c.
-- Ports and memory-mapped registers are one log of accesses. The functions that wait are in Sleep.
pub mod Gates
pub mod Table
pub mod Sleep
pub mod Timing
mod Tests
use mksd_old_archive.Base.{
  ℕ, zero, suc, ◌+◌, ◌-◌, ◌*◌, ◌/◌, ◌%◌, ◌^◌, bit_and, bit_or, ltb, ◌==◌, if◌then◌else◌, u8, u16,
  u32, u64, ◌<<<◌, ◌>>>◌, List, ◌∷◌,
}
use mksd_old_archive.Arch.Ports.{Access, Log, Device}

-- What the files below use of the rest: the registers, how devices answer reads of ports and of
-- memory, and acpi_remap_irq.
pub record Board : Type 0 where
  pub ioapic_mmio_base : ℕ
  pub lapic_mmio_base : ℕ
  pub ports : Device
  pub mmio : Device
  pub remap_irq : ℕ → ℕ

-- `idt_gate_desc_t`, less its reserved word.
pub record Gate : Type 0 where
  pub isr_low16 : ℕ
  pub cs : ℕ
  pub ist : ℕ
  pub attr : ℕ
  pub zero_bits : ℕ
  pub zero1 : ℕ
  pub dpl : ℕ
  pub p : ℕ
  pub isr_mid16 : ℕ
  pub isr_high32 : ℕ

-- `vec` is the next vector of `alloc_idt_vector`.
pub record Intr : Type 0 where
  pub idt : ℕ → Gate
  pub vec : ℕ
  pub timer_vector : ℕ
  pub lapic_freq : ℕ
  pub ticks : ℕ
  pub log : Log

abbrev pub trap_gate_flags : ℕ
trap_gate_flags = 0x8F

abbrev pub int_gate_flags : ℕ
int_gate_flags = 0x8E

-- `attr` is a field of 4 bits.
unfoldable pub set_desc : ℕ → ℕ → ℕ → Intr → Intr
set_desc vector isr flags s =
    let gate : Gate = record {
      isr_low16 = u16 (bit_and isr 0xFFFF);
      cs = 0x28;
      ist = 0;
      attr = flags % 2 ^ 4;
      zero_bits = 0;
      zero1 = 0;
      dpl = 3;
      p = 1;
      isr_mid16 = u16 (bit_and (isr >>> 16) 0xFFFF);
      isr_high32 = u32 (isr >>> 32);
    } in
    record s { idt = λ v. if v == vector then gate else s.idt v }

unfoldable pub register_exception_handler : ℕ → ℕ → Intr → Intr
register_exception_handler vector isr s = set_desc vector isr trap_gate_flags s

unfoldable pub register_interrupt : ℕ → ℕ → Intr → Intr
register_interrupt vector isr s = set_desc vector isr int_gate_flags s

-- The result -1 is that of a 32-bit int.
unfoldable pub alloc_idt_vector : Intr → ℕ × Intr
alloc_idt_vector s =
    if ltb s.vec 255 then (s.vec, record s { vec = u8 (s.vec + 1) }) else (2 ^ 32 - 1, s)

abbrev pub log_access : Access → Intr → Intr
log_access a s = record s { log = a ∷ s.log }

-- `read_mmio` and `write_mmio` of ioapic.c.
unfoldable pub ioapic_read : Board → ℕ → Intr → ℕ × Intr
ioapic_read board reg s =
    let s₁ = log_access (Access.write32 board.ioapic_mmio_base reg) s in
    (
      u32 (board.mmio s₁.log (board.ioapic_mmio_base + 0x10)),
      log_access (Access.read32 (board.ioapic_mmio_base + 0x10)) s₁,
    )

unfoldable pub ioapic_write : Board → ℕ → ℕ → Intr → Intr
ioapic_write board reg value s =
    log_access (Access.write32 (board.ioapic_mmio_base + 0x10) value)
      (log_access (Access.write32 board.ioapic_mmio_base reg) s)

unfoldable pub ioapic_set_entry : Board → ℕ → ℕ → Intr → Intr
ioapic_set_entry board index entry s =
    ioapic_write board (u8 (0x10 + index * 2 + 1)) (u32 (entry >>> 32))
      (ioapic_write board (u8 (0x10 + index * 2)) (u32 entry) s)

-- The loop of `ioapic_init` from entry `i` with `n` rounds left.
unfoldable pub mask_entries : Board → ℕ → ℕ → Intr → Intr
mask_entries board zero i s = s
mask_entries board (suc n) i s =
    mask_entries board n (i + 1) (ioapic_set_entry board (u8 i) (2 ^ 16) s)

unfoldable pub ioapic_init : Board → Intr → Intr
ioapic_init board s =
    let (version, s₁) = ioapic_read board 0x01 s in
    mask_entries board (bit_and (version >>> 16) 0xFF + 1) 0 s₁

unfoldable pub mask_irq : Board → ℕ → Intr → Intr
mask_irq board irq_line s = ioapic_set_entry board (u8 (board.remap_irq irq_line)) (2 ^ 16) s

unfoldable pub unmask_irq : Board → ℕ → Intr → Intr
unmask_irq board irq_line s =
    ioapic_set_entry board (u8 (board.remap_irq irq_line)) (0x20 + irq_line) s

unfoldable pub register_irq : Board → ℕ → ℕ → Intr → Intr
register_irq board irq isr s =
    ioapic_set_entry board (u8 (board.remap_irq irq)) (0x20 + irq)
      (set_desc (u8 (0x20 + irq)) isr int_gate_flags s)

unfoldable pub set_pit_count : ℕ → Intr → Intr
set_pit_count count s =
    log_access (Access.outb 0x40 (u8 (count >>> 8)))
      (log_access (Access.outb 0x40 (u8 count)) (log_access (Access.outb 0x43 0x34) s))

-- `hi` is a `uint8_t`.
unfoldable pub pit_get_count : Board → Intr → ℕ × Intr
pit_get_count board s =
    let s₁ = log_access (Access.outb 0x43 0x34) s in
    let lo = u8 (board.ports s₁.log 0x40) in
    let s₂ = log_access (Access.inb 0x40) s₁ in
    let hi = u8 (u8 (board.ports s₂.log 0x40) <<< 8) in
    (bit_or (u16 hi <<< 8) lo, log_access (Access.inb 0x40) s₂)

-- For a frequency above 0.
unfoldable pub pit_set_freq : ℕ → Intr → Intr
pit_set_freq freq s =
    let divisor = 1193180 / freq in
    set_pit_count (u16 (if ltb (freq / 2) (1193180 % freq) then divisor + 1 else divisor)) s

unfoldable pub init_pit : Board → ℕ → Intr → Intr
init_pit board pit_isr s = register_irq board 0 pit_isr (set_pit_count 100 s)

abbrev pub lapic_write : Board → ℕ → ℕ → Intr → Intr
lapic_write board reg value s = log_access (Access.write32 (board.lapic_mmio_base + reg) value) s

unfoldable pub lapic_send_eoi : Board → Intr → Intr
lapic_send_eoi board s = lapic_write board 0x00B0 0 s

unfoldable pub pit_isr : Board → Intr → Intr
pit_isr board s = lapic_send_eoi board (record s { ticks = u64 (s.ticks + 1) })

unfoldable pub lapic_read_id : Board → Intr → ℕ × Intr
lapic_read_id board s = (
  u32 (board.mmio s.log (board.lapic_mmio_base + 0x0020)) >>> 24,
  log_access (Access.read32 (board.lapic_mmio_base + 0x0020)) s,
)

unfoldable pub lapic_timer_stop : Board → Intr → Intr
lapic_timer_stop board s = lapic_write board 0x0320 (2 ^ 16) (lapic_write board 0x0380 0 s)

unfoldable pub lapic_timer_oneshot : Board → ℕ → Intr → Intr
lapic_timer_oneshot board micro_seconds s =
    let ticks = u32 (micro_seconds * (s.lapic_freq / 1000000)) in
    lapic_write board 0x0380 ticks (
      lapic_write board 0x03E0 0
        (lapic_write board 0x0320 s.timer_vector (lapic_timer_stop board s)))

-- `lapic_timer_handler` is the address of the handler.
unfoldable pub lapic_init : Board → ℕ → Intr → Intr
lapic_init board lapic_timer_handler s =
    let s₁ = lapic_write board 0x00E0 0xFFFFFFFF s in
    let s₂ = lapic_write board 0x00D0 0x01000000 s₁ in
    let s₃ = lapic_write board 0x00F0 (bit_or (2 ^ 8) 0xFF) s₂ in
    let (vector, s₄) = alloc_idt_vector s₃ in
    register_interrupt (u8 vector) lapic_timer_handler (record s₄ { timer_vector = vector })
