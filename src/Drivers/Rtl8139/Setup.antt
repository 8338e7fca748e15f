-- ===== src/Drivers/Rtl8139/Setup.antt =====
-- The state that rtl8139_init of rtl8139.c leaves.
use mksd_old_archive.Base.{
  ℕ, zero, suc, ◌+◌, ◌/◌, ◌<◌, ◌≡◌, inl, inr, refl, ap, sym, subst, arith, true, Bool, false,
  Bool-cases, Option, Option-cases, none, some, bit_and, ◌==◌, if◌then◌else◌, u8, u64,
}
use mksd_old_archive.Arch.Pci.{PciDevice, pci_find}
use mksd_old_archive.Mm.Pmm.{Pmm, get_bitmap_size, pmm_alloc, pmm_alloc_inner}
use mksd_old_archive.Mm.Pmm.Alloc.{pmm_alloc_inner-Scanned, pmm_alloc-suc}
use mksd_old_archive.Base.Outcome.{Outcome, ◌>>=◌}
use mksd_old_archive.Drivers.Rtl8139.{
  Card, Nic, in8, is_link_up, get_speed_mbps, update_mac_addr, rx_buffer_size,
}
use mksd_old_archive.Drivers.Rtl8139.Boot.{
  wait_reset, alloc_txbufs, enable_card, configure_rings, start_card, set_up, rtl8139_init,
}

-- Whatever frame the allocator returns, the low byte of its address is 0.
abbrev LowByte : Option (ℕ × Pmm) → Type 0
LowByte none = Unit
LowByte (some (p, pmm)) = u8 p ≡ 0

pmm_alloc-LowByte : (pmm : Pmm) → LowByte (pmm_alloc 1 pmm)
unfolding pmm_alloc_inner
pmm_alloc-LowByte pmm =
    rw (pmm_alloc-suc 0 pmm) (elim (Option-cases (get_bitmap_size pmm.entries)) [
      | inl h ↦ rw (h, pmm_alloc_inner, LowByte) tt
      | inr (size, h) ↦
          let (out, run, scan) = pmm_alloc_inner-Scanned pmm h in
          subst LowByte (sym run) (elim scan [
            | inl (none_free, _) ↦ ground (arith, ap (λ (o : ℕ × Pmm). o.0) none_free)
            | inr (f, _, _, _, _, taken) ↦ omega (arith, ap (λ (o : ℕ × Pmm). o.0) taken)
          ])
    ])

-- The first `n` transmit buffers have address 0, and the places in both rings are those of `s`.
pub record AtZero (n : ℕ) (s s' : Nic) : Type 0 where
  pub zero_address : (j : ℕ) → j < n → s'.txbufs j ≡ 0
  pub next : s'.next_txbuf ≡ s.next_txbuf
  pub off : s'.rxbuf_off ≡ s.rxbuf_off

abbrev AllAtZero : ℕ → Nic → Option (Nic × Pmm) → Type 0
AllAtZero n s none = Unit
AllAtZero n s (some (s', pmm)) = AtZero n s s'

alloc_txbufs-AllAtZero :
    (n i : ℕ) (s₀ s : Nic) (pmm : Pmm)
    → AtZero i s₀ s
    → AllAtZero (i + n) s₀ (alloc_txbufs n i s pmm)
unfolding alloc_txbufs
alloc_txbufs-AllAtZero zero i s₀ s pmm h = record {
  zero_address = λ j l. h.zero_address j (omega arith);
  next = h.next;
  off = h.off;
}
alloc_txbufs-AllAtZero (suc n) i s₀ s pmm h = elim (Option-cases (pmm_alloc 1 pmm)) [
  | inl e ↦ rw (e, alloc_txbufs, AllAtZero) tt
  | inr ((p, pmm'), e) ↦
      let s₁ : Nic = record s { txbufs = λ j. if j == i then u8 p else s.txbufs j } in
      let low : u8 p ≡ 0 = subst LowByte e (pmm_alloc-LowByte pmm) in
      rw (e, alloc_txbufs)
        (subst (λ (t : ℕ). AllAtZero t s₀ (alloc_txbufs n (i + 1) s₁ pmm')) {x = i + 1 + n}
          {y = i + suc n} (omega arith)
          (alloc_txbufs-AllAtZero n (i + 1) s₀ s₁ pmm' (record {
            zero_address = λ j l. ground (arith, low, h.zero_address j);
            next = h.next;
            off = h.off;
          })))
]

update_mac_addr-AtZero :
    (card : Card) (n i : ℕ) (s₀ s : Nic) → AtZero 4 s₀ s → AtZero 4 s₀ (update_mac_addr card n i s)
unfolding update_mac_addr
update_mac_addr-AtZero card zero i s₀ s h = h
update_mac_addr-AtZero card (suc n) i s₀ s h =
    update_mac_addr-AtZero card n (i + 1) s₀ _
      (record { zero_address = h.zero_address; next = h.next; off = h.off })

if-AtZero :
    (b : Bool) (n : ℕ) (s₀ s s' : Nic)
    → AtZero n s₀ s
    → AtZero n s₀ s'
    → AtZero n s₀ (if b then s else s')
if-AtZero true n s₀ s s' h h' = h
if-AtZero false n s₀ s s' h h' = h'

start_card-AtZero : (card : Card) (s₀ s : Nic) → AtZero 4 s₀ s → AtZero 4 s₀ (start_card card s)
unfolding is_link_up get_speed_mbps
start_card-AtZero card s₀ s h = update_mac_addr-AtZero card 6 0 s₀ _ (
    if-AtZero _ 4 s₀ _ _ (record { zero_address = h.zero_address; next = h.next; off = h.off })
      (record { zero_address = h.zero_address; next = h.next; off = h.off }))

-- A call that returns has set all four buffers up.
abbrev pub SetUp : Nic → Outcome (Nic × Pmm) → Type 0
SetUp s₀ (Outcome.done (s, pmm)) = AtZero 4 s₀ s
SetUp s₀ Outcome.undefined = Unit
SetUp s₀ Outcome.waits = Unit

set_up-SetUp :
    (card : Card) (dev : PciDevice) (isr packet_buf : ℕ) (s₀ s : Nic) (pmm : Pmm)
    → s.next_txbuf ≡ s₀.next_txbuf
    → s.rxbuf_off ≡ s₀.rxbuf_off
    → SetUp s₀ (set_up card dev isr packet_buf s pmm)
unfolding set_up
set_up-SetUp card dev isr packet_buf s₀ s pmm e f =
    elim (Option-cases (pmm_alloc (rx_buffer_size / 4096) pmm)) [
      | inl none_left ↦ rw (none_left, set_up, SetUp) tt
      | inr ((p, pmm₁), taken) ↦
          let s₁ : Nic = record (enable_card s) { rxbuf = u64 (p + card.higher_half) } in
          let s₂ = configure_rings card s₁ in
          let all =
            alloc_txbufs-AllAtZero 4 0 s₀ s₂ pmm₁
              (record { zero_address = λ j l. absurd (omega arith); next = e; off = f }) in
          elim (Option-cases (alloc_txbufs 4 0 s₂ pmm₁)) [
            | inl none_left ↦ rw (taken, set_up, none_left, SetUp) tt
            | inr ((s₃, pmm₂), filled) ↦
                let h = start_card-AtZero card s₀ s₃ (subst (AllAtZero 4 s₀) filled all) in
                rw (taken, set_up, filled)
                  (record { zero_address = h.zero_address; next = h.next; off = h.off })
          ]
    ]

wait_reset-SetUp :
    (card : Card) (fuel : ℕ) (s₀ s : Nic) (next : Nic → Outcome (Nic × Pmm))
    → s.next_txbuf ≡ s₀.next_txbuf
    → s.rxbuf_off ≡ s₀.rxbuf_off
    → ((s' : Nic)
        → s'.next_txbuf ≡ s₀.next_txbuf
        → s'.rxbuf_off ≡ s₀.rxbuf_off
        → SetUp s₀ (next s'))
    → SetUp s₀ (wait_reset card fuel s >>= next)
unfolding wait_reset
wait_reset-SetUp card zero s₀ s next e f next_ok = tt
wait_reset-SetUp card (suc fuel) s₀ s next e f next_ok =
    let (command, s₁) = in8 card 0x37 s in
    elim (Bool-cases (bit_and command 0x10 == 0)) [
      | inl h ↦ rw h (next_ok s₁ e f)
      | inr h ↦ rw h (wait_reset-SetUp card fuel s₀ s₁ next e f next_ok)
    ]

-- Once the card is found, `rtl8139_init`, where it returns, has given all four transmit buffers the
-- physical address 0, and leaves the places in both rings as they were.
pub rtl8139_init-SetUp :
    (card : Card) (fuel irq_line isr packet_buf : ℕ) (dev : PciDevice) (s : Nic) (pmm : Pmm)
    → (pci_find card.board.ports irq_line 0x10EC 0x8139 s.intr.log).0 ≡ some dev
    → SetUp s (rtl8139_init card fuel irq_line isr packet_buf s pmm)
unfolding rtl8139_init
rtl8139_init-SetUp card fuel irq_line isr packet_buf dev s pmm found =
    rw (found, rtl8139_init)
      (wait_reset-SetUp card fuel s _ (λ s'. set_up card dev isr packet_buf s' pmm) refl refl
        (λ s' e f. set_up-SetUp card dev isr packet_buf s s' pmm e f))
