-- ===== src/Kernel.antt =====
-- sys/src/init.c: the functions of the other parts in their order. The bitmap, the strings of the
-- file system, the disk and the network card each have a memory of their own, as in these parts; the
-- accesses to devices are one log, in `nic.intr.log` between two calls. What is printed is left out.
pub mod Gates
mod Tests
use mksd_old_archive.Base.{ℕ, Option, none, some, List, Memory}
use mksd_old_archive.Base.Outcome.{Outcome, ◌>>=◌}
use mksd_old_archive.Arch.Ports.{Log, Device}
use mksd_old_archive.Arch.Devices.{Board, Intr, lapic_init, ioapic_init}
use mksd_old_archive.Arch.Devices.Table.{Idtr, load_idt}
use mksd_old_archive.Arch.Exceptions.{init_exceptions}
use mksd_old_archive.Mm.Pmm.{Entry, Pmm, pmm_init}
use mksd_old_archive.Acpi.{Acpi, acpi_init, acpi_remap_irq}
use mksd_old_archive.Fs.{HashMap, vfs_init, devfs_init}
use mksd_old_archive.Fs.Ext2.{Ext2, ext2_init}
use mksd_old_archive.Fs.Block.{Context}
use mksd_old_archive.Drivers.Ahci.Init.{System, set_log, ahci_init}
use mksd_old_archive.Drivers.Rtl8139.{Card, Nic}
use mksd_old_archive.Drivers.Rtl8139.Boot.{rtl8139_init}

-- What the boot loader answered, the addresses of the tables, handlers, literals and blocks, the
-- devices, and the fuel of the loops.
pub record Machine : Type 0 where
  pub response : List Entry
  pub rsdp : ℕ
  pub idt : ℕ
  pub vec : ℕ → ℕ
  pub lapic_timer_handler : ℕ
  pub rtl8139_isr : ℕ
  pub root : ℕ
  pub devfs : ℕ
  pub empty_literal : ℕ
  pub dev_literal : ℕ
  pub packet_buf : ℕ
  pub irq_line : ℕ
  pub fuel : ℕ
  pub ports : Device
  pub mmio : Device
  pub dma : Log → Memory → Memory
  pub ahci : mksd_old_archive.Drivers.Ahci.Init.Context
  pub block : Context
  pub card : Card

pub record Kernel (H : HashMap) : Type 0 where
  pub idtr : Idtr
  pub acpi : Acpi
  pub tables : Memory
  pub disks : System H
  pub superblock : ℕ
  pub nic : Nic

-- The log that a function leaves, for the next one.
abbrev pub take_log : {H : HashMap} → Log → Kernel H → Kernel H
take_log log s =
    let intr : Intr = record s.nic.intr { log = log } in
    let nic : Nic = record s.nic { intr = intr } in record s { nic = nic }

-- A walk over the MADT that parse_madt ends does so for acpi_remap_irq.
abbrev pub board_of : {H : HashMap} → Machine → Kernel H → Board
board_of m s = record {
  ioapic_mmio_base = s.acpi.ioapic_mmio_base;
  lapic_mmio_base = s.acpi.lapic_mmio_base;
  ports = m.ports;
  mmio = m.mmio;
  remap_irq = λ irq. elim (acpi_remap_irq m.fuel s.tables s.acpi irq) [
    | none ↦ irq
    | some interrupt ↦ interrupt
  ];
}

abbrev pub set_intr : {H : HashMap} → Intr → Kernel H → Kernel H
set_intr intr s = let nic : Nic = record s.nic { intr = intr } in record s { nic = nic }

unfoldable pub init_mm : (H : HashMap) → Machine → Kernel H → Outcome (Kernel H)
init_mm H m s = elim (pmm_init m.block.higher_half m.response s.disks.pmm.memory) [
  | none ↦ Outcome.undefined
  | some pmm ↦
      let disks : System H = record s.disks { pmm = pmm } in
      Outcome.done (record s { disks = disks })
]

-- `acpi_init()`, where a failed assertion halts.
unfoldable pub find_tables : (H : HashMap) → Machine → Kernel H → Outcome (Kernel H)
find_tables H m s = elim (acpi_init m.fuel s.tables m.rsdp s.acpi) [
  | none ↦ Outcome.waits
  | some acpi ↦ Outcome.done (record s { acpi = acpi })
]

unfoldable pub pre_fs_init : (H : HashMap) → Machine → Kernel H → Outcome (Kernel H)
pre_fs_init H m s =
    vfs_init H m.fuel m.root m.empty_literal s.disks.vfs
    >>= devfs_init H m.fuel m.devfs m.dev_literal
    >>= (λ vfs.
        let disks : System H = record s.disks { vfs = vfs } in
        Outcome.done (record s { disks = disks }))

unfoldable pub init_drivers : (H : HashMap) → Machine → Kernel H → Outcome (Kernel H)
init_drivers H m s =
    ahci_init H m.ahci (set_log s.nic.intr.log s.disks)
    >>= (λ disks. Outcome.done (take_log disks.hba.log (record s { disks = disks })))

unfoldable pub post_fs_init : (H : HashMap) → Machine → Kernel H → Outcome (Kernel H)
post_fs_init H m s =
    let disks = set_log s.nic.intr.log s.disks in
    ext2_init H m.block m.dma (record {
      superblock = s.superblock;
      system = record { vfs = disks.vfs; hba = disks.hba };
      pmm = disks.pmm;
    })
    >>= (λ e.
        let after : System H = record disks {
          vfs = e.system.vfs;
          hba = e.system.hba;
          pmm = e.pmm;
        } in
        Outcome.done
          (take_log e.system.hba.log (record s { disks = after; superblock = e.superblock })))

unfoldable pub net_init : (H : HashMap) → Machine → Kernel H → Outcome (Kernel H)
net_init H m s =
    let card : Card = record m.card { board = board_of m s } in
    rtl8139_init card m.fuel m.irq_line m.rtl8139_isr m.packet_buf s.nic s.disks.pmm
    >>= (λ (nic, pmm).
        let disks : System H = record s.disks { pmm = pmm } in
        Outcome.done (record s { nic = nic; disks = disks }))

-- `_start` up to its last loop; `done` is the state in which it halts for interrupts.
unfoldable pub _start : (H : HashMap) → Machine → Kernel H → Outcome (Kernel H)
_start H m s =
    init_mm H m (set_intr (init_exceptions m.vec s.nic.intr) (record s { idtr = load_idt m.idt }))
    >>= find_tables H m
    >>= pre_fs_init H m
    >>= init_drivers H m
    >>= post_fs_init H m
    >>= (λ s'.
        let board = board_of m s' in
        net_init H m
          (set_intr (ioapic_init board (lapic_init board m.lapic_timer_handler s'.nic.intr)) s'))
