-- ===== src/Drivers/Rtl8139/Interrupt.antt =====
-- rtl8139_isr of rtl8139.c, and the two functions that read what it received.
use mksd_old_archive.Base.{ℕ, zero, suc, bit_and, ◌==◌, if◌then◌else◌}
use mksd_old_archive.Arch.Devices.{lapic_send_eoi}
use mksd_old_archive.Base.Outcome.{Outcome, ◌>>=◌}
use mksd_old_archive.Drivers.Rtl8139.{Card, Nic, in16, out16, is_link_up, recieve_packet}

-- INT_RXOK to INT_SYSTEM_ERROR
abbrev pub stat : ℕ
stat = 0xA07F

-- What a round of the loop does with a status that is not empty; the rest of it prints.
unfoldable pub serve : Card → ℕ → Nic → Outcome Nic
serve card status s =
    (if bit_and status 0x01 == 0 then Outcome.done s else recieve_packet card s)
    >>= (λ s₁. Outcome.done (if bit_and status 0x20 == 0 then s₁ else (is_link_up card s₁).1))

unfoldable pub isr_loop : Card → ℕ → Nic → Outcome Nic
isr_loop card zero s = Outcome.waits
isr_loop card (suc fuel) s =
    let (status, s₁) = in16 card 0x3E (record s { memory = card.dma s.intr.log s.memory }) in
    let s₂ = out16 0x3E status s₁ in
    let rest = serve card status s₂ >>= isr_loop card fuel in
    if bit_and status stat == 0 then Outcome.done s₂ else rest

unfoldable pub rtl8139_isr : Card → ℕ → Nic → Outcome Nic
rtl8139_isr card fuel s = isr_loop card fuel s >>= (λ s₁.
    let s₂ = out16 0x3E 0x5 s₁ in
    Outcome.done (record s₂ { intr = lapic_send_eoi card.board s₂.intr }))

unfoldable pub rtl8139_got_packet : Nic → ℕ
rtl8139_got_packet s = if s.got_packet == 0 then 0 else 1

unfoldable pub rtl8139_read_packet : Nic → ℕ × Nic
rtl8139_read_packet s = (s.packet_buf, record s { got_packet = 0 })
