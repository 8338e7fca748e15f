-- ===== src/Kernel/Gates.antt =====
-- The interrupt gates after _start.
use mksd_old_archive.Base.{
  ℕ, zero, suc, ◌+◌, ◌^◌, ◌<◌, ◌≤◌, ◌≡◌, ◌≢◌, refl, ap, ◌∙◌, arith, true, ltb, ◌==◌, Bool-cases,
  Option-cases, inl, inr, u8, ◌>>>◌,
}
use mksd_old_archive.Base.Bits.Masks.{bit_and-low_mask}
use mksd_old_archive.Base.Outcome.{Outcome, ◌>>=◌, Ends, bind-Ends}
use mksd_old_archive.Arch.Devices.{
  Board, Gate, Intr, set_desc, register_exception_handler, register_interrupt, alloc_idt_vector,
  ioapic_init, mask_entries, lapic_init, ioapic_set_entry, ioapic_write, ioapic_read,
}
use mksd_old_archive.Arch.Devices.Table.{load_idt}
use mksd_old_archive.Arch.Devices.Gates.{target}
use mksd_old_archive.Arch.Exceptions.{handled, init_exceptions, init_exceptions-handled}
use mksd_old_archive.Mm.Pmm.{pmm_init}
use mksd_old_archive.Acpi.{acpi_init}
use mksd_old_archive.Fs.{HashMap, vfs_init, devfs_init}
use mksd_old_archive.Fs.Ext2.{ext2_init}
use mksd_old_archive.Drivers.Ahci.Init.{set_log, ahci_init}
use mksd_old_archive.Drivers.Rtl8139.Gates.{Kept, rtl8139_init-Kept}
use mksd_old_archive.Kernel.{
  Machine, Kernel, board_of, set_intr, init_mm, find_tables, pre_fs_init, init_drivers,
  post_fs_init, net_init, _start,
}

mask_entries-idt : (board : Board) (n i : ℕ) (s : Intr) → (mask_entries board n i s).idt ≡ s.idt
unfolding mask_entries ioapic_set_entry ioapic_write
mask_entries-idt board zero i s = refl
mask_entries-idt board (suc n) i s = mask_entries-idt board n (i + 1) _

-- Masking the entries of the I/O APIC sets no gate.
ioapic_init-idt : (board : Board) (s : Intr) → (ioapic_init board s).idt ≡ s.idt
unfolding ioapic_init ioapic_read
ioapic_init-idt board s = mask_entries-idt board _ 0 _

-- The gate of the timer is above those of the exceptions.
lapic_init-idt :
    (board : Board) (handler v : ℕ) (s : Intr)
    → 0x81 ≤ s.vec
    → v < 0x81
    → (lapic_init board handler s).idt v ≡ s.idt v
unfolding lapic_init alloc_idt_vector register_interrupt set_desc
lapic_init-idt board handler v s h l = elim (Bool-cases (ltb s.vec 255)) [
  | inl few ↦ rw few (ground arith)
  | inr many ↦ rw many (ground arith)
]

-- The gates and the next vector are those of `intr`.
abbrev Untouched : {H : HashMap} → Intr → Kernel H → Type 0
Untouched intr s = (s.nic.intr.idt ≡ intr.idt) × (s.nic.intr.vec ≡ intr.vec)

-- A step that sets no gate, whatever it computes.
after-Ends {ℓ κ} :
    {A : Type ℓ} {B : Type κ} (P : B → Type 0) (o : Outcome A) (f : A → Outcome B)
    → ((a : A) → Ends P (f a))
    → Ends P (o >>= f)
after-Ends P (Outcome.done a) f h = h a
after-Ends P Outcome.undefined f h = tt
after-Ends P Outcome.waits f h = tt

init_mm-Untouched :
    (H : HashMap) (m : Machine) (intr : Intr) (s : Kernel H)
    → Untouched intr s
    → Ends (Untouched intr) (init_mm H m s)
unfolding init_mm
init_mm-Untouched H m intr s h =
    elim (Option-cases (pmm_init m.block.higher_half m.response s.disks.pmm.memory)) [
      | inl e ↦ rw (e, init_mm, Ends) tt
      | inr (pmm, e) ↦ rw (e, init_mm) h
    ]

find_tables-Untouched :
    (H : HashMap) (m : Machine) (intr : Intr) (s : Kernel H)
    → Untouched intr s
    → Ends (Untouched intr) (find_tables H m s)
unfolding find_tables
find_tables-Untouched H m intr s h = elim (Option-cases (acpi_init m.fuel s.tables m.rsdp s.acpi)) [
  | inl e ↦ rw (e, find_tables, Ends) tt
  | inr (acpi, e) ↦ rw (e, find_tables) h
]

pre_fs_init-Untouched :
    (H : HashMap) (m : Machine) (intr : Intr) (s : Kernel H)
    → Untouched intr s
    → Ends (Untouched intr) (pre_fs_init H m s)
unfolding pre_fs_init
pre_fs_init-Untouched H m intr s h =
    after-Ends (Untouched intr)
      (vfs_init H m.fuel m.root m.empty_literal s.disks.vfs
        >>= devfs_init H m.fuel m.devfs m.dev_literal)
      _ (λ vfs. h)

init_drivers-Untouched :
    (H : HashMap) (m : Machine) (intr : Intr) (s : Kernel H)
    → Untouched intr s
    → Ends (Untouched intr) (init_drivers H m s)
unfolding init_drivers
init_drivers-Untouched H m intr s h =
    after-Ends (Untouched intr) (ahci_init H m.ahci (set_log s.nic.intr.log s.disks)) _ (λ disks. h)

post_fs_init-Untouched :
    (H : HashMap) (m : Machine) (intr : Intr) (s : Kernel H)
    → Untouched intr s
    → Ends (Untouched intr) (post_fs_init H m s)
unfolding post_fs_init
post_fs_init-Untouched H m intr s h =
    let disks = set_log s.nic.intr.log s.disks in
    after-Ends (Untouched intr)
      (ext2_init H m.block m.dma (record {
        superblock = s.superblock;
        system = record { vfs = disks.vfs; hba = disks.hba };
        pmm = disks.pmm;
      }))
      _ (λ e. h)

-- The gate of `v` leads to `isr`.
abbrev pub Leads : {H : HashMap} → ℕ → ℕ → Kernel H → Type 0
Leads v isr s = target (s.nic.intr.idt v) ≡ isr

net_init-Leads :
    (H : HashMap) (m : Machine) (v isr : ℕ) (s : Kernel H)
    → v ≢ u8 (0x20 + m.irq_line)
    → Leads v isr s
    → Ends (Leads v isr) (net_init H m s)
unfolding net_init
net_init-Leads H m v isr s ne h =
    bind-Ends (Kept v (s.nic.intr.idt v)) (Leads v isr) _ _
      (rtl8139_init-Kept (record m.card { board = board_of m s }) m.fuel m.irq_line m.rtl8139_isr
        m.packet_buf v s.nic s.disks.pmm ne)
      (λ out kept. ap target kept ∙ h)

-- An exception gate leads to the handler that it was set to.
register_exception_handler-target :
    (v isr : ℕ) (s : Intr)
    → isr < 2 ^ 64
    → target ((register_exception_handler v isr s).idt v) ≡ isr
unfolding register_exception_handler set_desc
register_exception_handler-target v isr s l =
    let hit : (v == v) ≡ true = ground arith in
    rw hit (omega (arith, bit_and-low_mask 16 isr, bit_and-low_mask 16 (isr >>> 16)))

init_exceptions-target :
    (vec : ℕ → ℕ) (s : Intr) (v : ℕ)
    → handled v ≡ true
    → vec v < 2 ^ 64
    → target ((init_exceptions vec s).idt v) ≡ vec v
init_exceptions-target vec s v h l =
    ap target (init_exceptions-handled vec s v h) ∙ register_exception_handler-target v (vec v) s l

init_exceptions-vec : (vec : ℕ → ℕ) (s : Intr) → (init_exceptions vec s).vec ≡ s.vec
unfolding init_exceptions register_exception_handler set_desc
init_exceptions-vec vec s = refl

handled-below : (v : ℕ) → handled v ≡ true → v < 0x0F
handled-below v h = ground arith

-- Where `_start` reaches its last loop, with handlers at 64-bit addresses, an IRQ line below 0xE0 in
-- the block of the PCI device, and no vector below 0x81 to give out: the gate of each exception that
-- has a handler leads to that handler, whatever the boot loader, the disks and the network card
-- answered.
pub _start-gates :
    (H : HashMap) (m : Machine) (v : ℕ) (s : Kernel H)
    → handled v ≡ true
    → m.vec v < 2 ^ 64
    → m.irq_line < 0xE0
    → 0x81 ≤ s.nic.intr.vec
    → Ends (Leads v (m.vec v)) (_start H m s)
unfolding _start
_start-gates H m v s exception small line next =
    let set = init_exceptions m.vec s.nic.intr in
    let low = handled-below v exception in
    let leads = init_exceptions-target m.vec s.nic.intr v exception small in
    let booted =
      bind-Ends (Untouched set) (Untouched set) _ (post_fs_init H m)
        (bind-Ends (Untouched set) (Untouched set) _ (init_drivers H m)
          (bind-Ends (Untouched set) (Untouched set) _ (pre_fs_init H m)
            (bind-Ends (Untouched set) (Untouched set) _ (find_tables H m)
              (init_mm-Untouched H m set (set_intr set (record s { idtr = load_idt m.idt }))
                (refl, refl))
              (find_tables-Untouched H m set))
            (pre_fs_init-Untouched H m set))
          (init_drivers-Untouched H m set))
        (post_fs_init-Untouched H m set) in
    bind-Ends (Untouched set) (Leads v (m.vec v)) _ _ booted (λ s' (gates, vec).
      let board = board_of m s' in
      let timer = lapic_init board m.lapic_timer_handler s'.nic.intr in
      net_init-Leads H m v (m.vec v) (set_intr (ioapic_init board timer) s') (omega arith) (
        ap (λ (idt : ℕ → Gate). target (idt v)) (ioapic_init-idt board timer)
        ∙ ap target (
            lapic_init-idt board m.lapic_timer_handler v s'.nic.intr
              (omega (arith, vec, init_exceptions-vec m.vec s.nic.intr)) (omega arith))
        ∙ ap (λ (idt : ℕ → Gate). target (idt v)) gates
        ∙ leads))
