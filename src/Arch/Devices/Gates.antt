-- ===== src/Arch/Devices/Gates.antt =====
-- Interrupt gates and the routes of IRQs, and the counter of the PIT.
use mksd_old_archive.Base.{
  ℕ, ◌+◌, ◌*◌, ◌^◌, ◌<◌, ◌≡◌, ◌≢◌, refl, true, false, ap, ◌∙◌, arith, bit_or, ◌==◌, u8, u16, u32,
  ◌>>>◌, ◌<<<◌, ◌∷◌,
}
use mksd_old_archive.Base.Bits.Masks.{bit_and-low_mask, bit_or_fields}
use mksd_old_archive.Arch.Ports.{Access, Log}
use mksd_old_archive.Arch.Devices.{
  Board, Gate, Intr, set_desc, register_irq, ioapic_set_entry, ioapic_write, pit_get_count,
}

-- The address that a gate leads to.
abbrev pub target : Gate → ℕ
target g = g.isr_low16 + g.isr_mid16 * 2 ^ 16 + g.isr_high32 * 2 ^ 32

-- What a registered IRQ comes to: its gate leads to the handler, each other gate is as it was, and
-- entry `index` of the I/O APIC holds the vector, written in two halves.
pub record Routed (board : Board) (irq isr index : ℕ) (s s' : Intr) : Type 0 where
  pub gate : target (s'.idt (0x20 + irq)) ≡ isr
  pub others : (v : ℕ) → v ≢ 0x20 + irq → s'.idt v ≡ s.idt v
  pub route :
      s'.log
      ≡ Access.write32 (board.ioapic_mmio_base + 0x10) 0
        ∷ Access.write32 board.ioapic_mmio_base (0x10 + 2 * index + 1)
        ∷ Access.write32 (board.ioapic_mmio_base + 0x10) (0x20 + irq)
        ∷ Access.write32 board.ioapic_mmio_base (0x10 + 2 * index)
        ∷ s.log

abbrev entry_log : Board → ℕ → ℕ → ℕ → ℕ → Log → Log
entry_log board a b c d log =
    Access.write32 (board.ioapic_mmio_base + 0x10) a
    ∷ Access.write32 board.ioapic_mmio_base b
    ∷ Access.write32 (board.ioapic_mmio_base + 0x10) c
    ∷ Access.write32 board.ioapic_mmio_base d
    ∷ log

entry_log_eq :
    (board : Board) (a a' b b' c c' d d' : ℕ) (log : Log)
    → a ≡ a'
    → b ≡ b'
    → c ≡ c'
    → d ≡ d'
    → entry_log board a b c d log ≡ entry_log board a' b' c' d' log
entry_log_eq board a a' b b' c c' d d' log h k l r = rw (h, k, l, r) refl

-- For an IRQ whose vector fits a byte and whose entry is one of the I/O APIC's 120 at most,
-- `register_irq` points the gate 0x20 above the IRQ to the handler, leaves each other gate, and
-- writes that vector to the entry.
pub register_irq-Routed :
    (board : Board) (irq isr index : ℕ) (s : Intr)
    → irq < 0xE0
    → isr < 2 ^ 64
    → board.remap_irq irq ≡ index
    → index < 120
    → Routed board irq isr index s (register_irq board irq isr s)
unfolding register_irq set_desc ioapic_set_entry ioapic_write
register_irq-Routed board irq isr index s h k e l =
    let hit : (0x20 + irq == u8 (0x20 + irq)) ≡ true = ground arith in
    record {
      gate =
          rw (hit, register_irq)
            (omega (arith, bit_and-low_mask 16 isr, bit_and-low_mask 16 (isr >>> 16)));
      others = λ v ne.
          let miss : (v == u8 (0x20 + irq)) ≡ false = ground arith in rw (miss, register_irq) refl;
      route =
          entry_log_eq board (u32 ((0x20 + irq) >>> 32)) 0
            (u8 (0x10 + u8 (board.remap_irq irq) * 2 + 1)) (0x10 + 2 * index + 1) (u32 (0x20 + irq))
            (0x20 + irq) (u8 (0x10 + u8 (board.remap_irq irq) * 2)) (0x10 + 2 * index) s.log
            (omega arith) (omega arith) (omega arith) (omega arith);
    }

-- `pit_get_count` returns the first byte that it reads, whatever the second one is.
pub pit_get_count-low :
    (board : Board) (s : Intr)
    → (pit_get_count board s).0 ≡ u8 (board.ports (Access.outb 0x43 0x34 ∷ s.log) 0x40)
unfolding pit_get_count
pit_get_count-low board s =
    let lo = u8 (board.ports (Access.outb 0x43 0x34 ∷ s.log) 0x40) in
    ap (λ (t : ℕ). bit_or t lo)
      {x = u16 (u8 (u8 (board.ports (Access.inb 0x40 ∷ Access.outb 0x43 0x34 ∷ s.log) 0x40) <<< 8))
        <<< 8}
      {y = 0 * 2 ^ 8} (omega arith)
    ∙ bit_or_fields 8 0 lo (omega arith)
    ∙ omega arith
