-- ===== src/Arch/Devices/Tests.antt =====
-- A board, and the theorems on its devices applied there.
use mksd_old_archive.Base.{◌+◌, ◌≡◌, some, refl, arith, [], if◌then◌else◌, ◌==◌}
use mksd_old_archive.Arch.Devices.{Board, Gate, Intr, register_irq}
use mksd_old_archive.Base.Outcome.{Outcome}
use mksd_old_archive.Arch.Devices.Sleep.{pit_sleep, lapic_timer_calibrate}
use mksd_old_archive.Arch.Devices.Timing.{Slept, pit_sleep-Slept, lapic_timer_calibrate-undefined}
use mksd_old_archive.Arch.Devices.Gates.{Routed, register_irq-Routed}

-- IRQ 0 is entry 2 of the I/O APIC.
abbrev board : Board
board = record {
  ioapic_mmio_base = 0xFEC00000;
  lapic_mmio_base = 0xFEE00000;
  ports = λ log port. 0x1FF;
  mmio = λ log address. 0;
  remap_irq = λ irq. if irq == 0 then 2 else irq;
}

abbrev no_gate : Gate
no_gate = record {
  isr_low16 = 0;
  cs = 0;
  ist = 0;
  attr = 0;
  zero_bits = 0;
  zero1 = 0;
  dpl = 0;
  p = 0;
  isr_mid16 = 0;
  isr_high32 = 0;
}

abbrev intr : Intr
intr = record {
  idt = λ v. no_gate;
  vec = 0x81;
  timer_vector = 0;
  lapic_freq = 0;
  ticks = 0;
  log = [];
}

register_irq-Routed_example :
    Routed board 0 0xFFFFFFFF80001234 2 intr (register_irq board 0 0xFFFFFFFF80001234 intr)
register_irq-Routed_example =
    register_irq-Routed board 0 0xFFFFFFFF80001234 2 intr (omega arith) (omega arith) refl
      (omega arith)

-- An interrupt in front of each test.
pit_sleep-Slept_example :
    (s' : Intr) × (pit_sleep 10 board (λ i. 1) 3 intr ≡ some s') × Slept (λ i. 1) 0 (0 + 3) intr s'
pit_sleep-Slept_example =
    pit_sleep-Slept 2 10 3 board (λ i. 1) intr (omega arith) (omega arith) (omega arith)
      (omega arith)

lapic_timer_calibrate-undefined_example : lapic_timer_calibrate 5 board intr ≡ Outcome.undefined
lapic_timer_calibrate-undefined_example =
    lapic_timer_calibrate-undefined 0 5 board intr (omega arith) refl
