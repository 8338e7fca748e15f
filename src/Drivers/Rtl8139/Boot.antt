-- ===== src/Drivers/Rtl8139/Boot.antt =====
-- rtl8139_init of rtl8139.c.
use mksd_old_archive.Base.{
  ℕ, zero, suc, ◌+◌, ◌/◌, bit_and, Option, none, some, get_or, ◌==◌, if◌then◌else◌, u8, u32, u64,
  sub64,
}
use mksd_old_archive.Arch.Pci.{PciDevice, pci_find, pci_enable_bus_mastering}
use mksd_old_archive.Arch.Devices.{register_irq}
use mksd_old_archive.Mm.Pmm.{Pmm, pmm_alloc}
use mksd_old_archive.Base.Outcome.{Outcome, ◌>>=◌}
use mksd_old_archive.Drivers.Rtl8139.{
  Card, Nic, in8, out8, out16, out32, is_link_up, get_speed_mbps, update_mac_addr, rx_buffer_size,
}
use mksd_old_archive.Drivers.Rtl8139.Interrupt.{stat}

-- `while (inb(iobase + REG_COMMAND) & CMD_RESET);`
unfoldable pub wait_reset : Card → ℕ → Nic → Outcome Nic
wait_reset card zero s = Outcome.waits
wait_reset card (suc fuel) s =
    let (command, s₁) = in8 card 0x37 s in
    let rest = wait_reset card fuel s₁ in
    if bit_and command 0x10 == 0 then Outcome.done s₁ else rest

-- The loop that fills `txbufs` from `i` with `n` rounds left: an entry is a `uint8_t`.
unfoldable pub alloc_txbufs : ℕ → ℕ → Nic → Pmm → Option (Nic × Pmm)
alloc_txbufs zero i s pmm = some (s, pmm)
alloc_txbufs (suc n) i s pmm = elim (pmm_alloc 1 pmm) [
  | none ↦ none
  | some (p, pmm') ↦
      alloc_txbufs n (i + 1) (record s { txbufs = λ j. if j == i then u8 p else s.txbufs j }) pmm'
]

-- From the reset to the write of REG_CONFIG1.
abbrev pub enable_card : Nic → Nic
enable_card s =
    out32 0x52 0 (out8 0x37 0x0C (out32 0x12 0xFFFFFFFF (out32 0x08 0xFFFFFFFF (out8 0x50 0xC0 s))))

-- From the write of REG_RXBUF to that of REG_TXCFG.
abbrev pub configure_rings : Card → Nic → Nic
configure_rings card s = out32 0x40 (0x600 + 0x3000000) (
    out32 0x44 0xF78E
      (out8 0x58 0x40 (out32 0x62 0x3100 (out32 0x30 (sub64 s.rxbuf card.higher_half) s))))

-- From the write of REG_CFG9346 to the end of `update_mac_addr`.
abbrev pub start_card : Card → Nic → Nic
start_card card s =
    let (up, s₁) = is_link_up card (out16 0x3E 0xFFFF (out16 0x3C stat (out8 0x50 0 s))) in
    update_mac_addr card 6 0 (if up then (get_speed_mbps card s₁).1 else s₁)

-- The part that follows the reset, once the device is found.
unfoldable pub set_up : Card → PciDevice → ℕ → ℕ → Nic → Pmm → Outcome (Nic × Pmm)
set_up card dev isr packet_buf s pmm = elim (pmm_alloc (rx_buffer_size / 4096) pmm) [
  | none ↦ Outcome.undefined
  | some (p, pmm₁) ↦
      let s₁ : Nic = record (enable_card s) { rxbuf = u64 (p + card.higher_half) } in
      elim (alloc_txbufs 4 0 (configure_rings card s₁) pmm₁) [
        | none ↦ Outcome.undefined
        | some (s₂, pmm₂) ↦
            let s₃ : Nic = record (start_card card s₂) { packet_buf = packet_buf } in
            Outcome.done
              (record s₃ { intr = register_irq card.board dev.irq_line isr s₃.intr }, pmm₂)
      ]
]

-- `irq_line` is what the device's block held, `isr` the address of `rtl8139_isr`, and `packet_buf`
-- the block from the last kmalloc.
unfoldable pub rtl8139_init : Card → ℕ → ℕ → ℕ → ℕ → Nic → Pmm → Outcome (Nic × Pmm)
rtl8139_init card fuel irq_line isr packet_buf s pmm =
    let (found, log₁) = pci_find card.board.ports irq_line 0x10EC 0x8139 s.intr.log in
    let s₁ : Nic = record s { intr = record s.intr { log = log₁ } } in
    elim found [
      | none ↦ Outcome.done (s₁, pmm)
      | some dev ↦
          let log₂ = pci_enable_bus_mastering card.board.ports dev log₁ in
          let s₂ : Nic = record s {
            intr = record s.intr { log = log₂ };
            iobase = u32 (bit_and (get_or dev.bars 0 0) 0xFFFFFFFC);
          } in
          wait_reset card fuel (out8 0x37 0x10 s₂) >>= (λ s₃. set_up card dev isr packet_buf s₃ pmm)
    ]
