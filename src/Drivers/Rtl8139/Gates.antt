-- ===== src/Drivers/Rtl8139/Gates.antt =====
-- The interrupt gates that rtl8139_init of rtl8139.c sets.
use mksd_old_archive.Base.{
  ℕ, zero, suc, ◌+◌, ◌/◌, ◌≡◌, ◌≢◌, refl, ap, subst, ◌∙◌, arith, Bool, true, false, Bool-cases,
  Option, Option-cases, none, some, bit_and, ◌==◌, if◌then◌else◌, u8, u64, inl, inr,
}
use mksd_old_archive.Arch.Ports.{Log, Device}
use mksd_old_archive.Mm.Pmm.{Pmm, pmm_alloc}
use mksd_old_archive.Base.Outcome.{Ends, bind-Ends}
use mksd_old_archive.Arch.Pci.{
  PciDevice, found_device, pci_find, pci_init_dev, scan_buses, is_device,
}
use mksd_old_archive.Arch.Devices.{
  Board, Gate, Intr, register_irq, set_desc, ioapic_set_entry, ioapic_write,
}
use mksd_old_archive.Drivers.Rtl8139.{
  Card, Nic, in8, is_link_up, get_speed_mbps, update_mac_addr, rx_buffer_size,
}
use mksd_old_archive.Drivers.Rtl8139.Boot.{
  wait_reset, alloc_txbufs, enable_card, configure_rings, start_card, set_up, rtl8139_init,
}

-- The gates are those of `s`.
abbrev Same : (ℕ → Gate) → Nic → Type 0
Same idt s = s.intr.idt ≡ idt

register_irq-others :
    (board : Board) (irq isr v : ℕ) (s : Intr)
    → v ≢ u8 (0x20 + irq)
    → (register_irq board irq isr s).idt v ≡ s.idt v
unfolding register_irq set_desc ioapic_set_entry ioapic_write
register_irq-others board irq isr v s ne =
    let miss : (v == u8 (0x20 + irq)) ≡ false = ground arith in rw miss refl

update_mac_addr-idt :
    (card : Card) (n i : ℕ) (s : Nic) → (update_mac_addr card n i s).intr.idt ≡ s.intr.idt
unfolding update_mac_addr
update_mac_addr-idt card zero i s = refl
update_mac_addr-idt card (suc n) i s = update_mac_addr-idt card n (i + 1) _

if-Same :
    (b : Bool) (idt : ℕ → Gate) (s s' : Nic)
    → Same idt s
    → Same idt s'
    → Same idt (if b then s else s')
if-Same true idt s s' h h' = h
if-Same false idt s s' h h' = h'

start_card-idt : (card : Card) (s : Nic) → (start_card card s).intr.idt ≡ s.intr.idt
unfolding is_link_up get_speed_mbps
start_card-idt card s = update_mac_addr-idt card 6 0 _ ∙ if-Same _ s.intr.idt _ _ refl refl

-- What the loop that fills `txbufs` leaves.
abbrev SameOf : (ℕ → Gate) → Option (Nic × Pmm) → Type 0
SameOf idt none = Unit
SameOf idt (some (s, pmm)) = Same idt s

alloc_txbufs-idt :
    (n i : ℕ) (idt : ℕ → Gate) (s : Nic) (pmm : Pmm)
    → Same idt s
    → SameOf idt (alloc_txbufs n i s pmm)
unfolding alloc_txbufs
alloc_txbufs-idt zero i idt s pmm h = h
alloc_txbufs-idt (suc n) i idt s pmm h = elim (Option-cases (pmm_alloc 1 pmm)) [
  | inl e ↦ rw (e, alloc_txbufs, SameOf) tt
  | inr ((p, pmm'), e) ↦
      rw (e, alloc_txbufs)
        (alloc_txbufs-idt n (i + 1) idt
          (record s { txbufs = λ j. if j == i then u8 p else s.txbufs j }) pmm' h)
]

wait_reset-idt :
    (card : Card) (fuel : ℕ) (idt : ℕ → Gate) (s : Nic)
    → Same idt s
    → Ends (Same idt) (wait_reset card fuel s)
unfolding wait_reset
wait_reset-idt card zero idt s h = tt
wait_reset-idt card (suc fuel) idt s h =
    let (command, s₁) = in8 card 0x37 s in
    elim (Bool-cases (bit_and command 0x10 == 0)) [
      | inl e ↦ rw e h
      | inr e ↦ rw e (wait_reset-idt card fuel idt s₁ h)
    ]

-- The gate of `v` is that of `s`.
abbrev pub Kept : ℕ → Gate → Nic × Pmm → Type 0
Kept v gate (s, pmm) = s.intr.idt v ≡ gate

set_up-Kept :
    (card : Card) (dev : PciDevice) (isr packet_buf v : ℕ) (s : Nic) (pmm : Pmm)
    → v ≢ u8 (0x20 + dev.irq_line)
    → Ends (Kept v (s.intr.idt v)) (set_up card dev isr packet_buf s pmm)
unfolding set_up
set_up-Kept card dev isr packet_buf v s pmm ne =
    elim (Option-cases (pmm_alloc (rx_buffer_size / 4096) pmm)) [
      | inl none_left ↦ rw (none_left, set_up, Ends) tt
      | inr ((p, pmm₁), taken) ↦
          let s₁ : Nic = record (enable_card s) { rxbuf = u64 (p + card.higher_half) } in
          let s₂ = configure_rings card s₁ in
          elim (Option-cases (alloc_txbufs 4 0 s₂ pmm₁)) [
            | inl none_left ↦ rw (taken, set_up, none_left, Ends) tt
            | inr ((s₃, pmm₂), filled) ↦
                let same =
                  subst (SameOf s.intr.idt) filled (alloc_txbufs-idt 4 0 s.intr.idt s₂ pmm₁ refl) in
                rw (taken, set_up, filled)
                  (register_irq-others card.board dev.irq_line isr v (start_card card s₃).intr ne
                    ∙ ap (λ (idt : ℕ → Gate). idt v) (start_card-idt card s₃ ∙ same))
          ]
    ]

-- A device that is found has the line that its block held.
abbrev HasLine : ℕ → Option PciDevice × Log → Type 0
HasLine irq_line (none, log) = Unit
HasLine irq_line (some dev, log) = dev.irq_line ≡ irq_line

found_device-HasLine :
    (device : Device) (irq_line : ℕ) (found : Option (ℕ × ℕ × ℕ)) (log : Log)
    → HasLine irq_line (found_device device irq_line (found, log))
unfolding found_device pci_init_dev
found_device-HasLine device irq_line none log = tt
found_device-HasLine device irq_line (some at) log = refl

-- Whatever the card answers, `rtl8139_init` sets no gate but that of its interrupt.
pub rtl8139_init-Kept :
    (card : Card) (fuel irq_line isr packet_buf v : ℕ) (s : Nic) (pmm : Pmm)
    → v ≢ u8 (0x20 + irq_line)
    → Ends (Kept v (s.intr.idt v)) (rtl8139_init card fuel irq_line isr packet_buf s pmm)
unfolding rtl8139_init pci_find
rtl8139_init-Kept card fuel irq_line isr packet_buf v s pmm ne =
    let found = pci_find card.board.ports irq_line 0x10EC 0x8139 s.intr.log in
    elim (Option-cases found.0) [
      | inl missing ↦ rw (missing, rtl8139_init, Ends) refl
      | inr (dev, e) ↦
          let scan = scan_buses (is_device card.board.ports 0x10EC 0x8139) 5 0 s.intr.log in
          let line = found_device-HasLine card.board.ports irq_line scan.0 scan.1 in
          let same : dev.irq_line ≡ irq_line =
            subst (λ (o : Option PciDevice). HasLine irq_line (o, found.1)) e line in
          rw (e, rtl8139_init)
            (bind-Ends (Same s.intr.idt) (Kept v (s.intr.idt v)) (wait_reset card fuel _)
              (λ s₃. set_up card dev isr packet_buf s₃ pmm)
              (wait_reset-idt card fuel s.intr.idt _ refl)
              (λ s₃ h.
                subst
                  (λ (idt : ℕ → Gate).
                    Ends (Kept v (idt v)) (set_up card dev isr packet_buf s₃ pmm))
                  h
                  (set_up-Kept card dev isr packet_buf v s₃ pmm
                    (λ hit. ne (hit ∙ ap (λ (l : ℕ). u8 (0x20 + l)) same)))))
    ]
