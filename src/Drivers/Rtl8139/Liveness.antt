-- ===== src/Drivers/Rtl8139/Liveness.antt =====
-- rtl8139_isr of rtl8139.c returns once the card has no more interrupts to report.
use mksd_old_archive.Base.{
  ℕ, zero, suc, ◌+◌, ◌-◌, ◌*◌, ◌%◌, ◌<◌, ◌≡◌, inl, inr, refl, ap, ◌∙◌, sym, arith, Bool-cases,
  Option-cases, bit_and, ◌==◌, if◌then◌else◌, u16, u32, u64, load, [], ◌∷◌,
}
use mksd_old_archive.Arch.Ports.{Access, Log}
use mksd_old_archive.Net.{big_endian, ethertype_arp}
use mksd_old_archive.Base.Outcome.{Outcome, ◌>>=◌}
use mksd_old_archive.Drivers.Rtl8139.{
  Card, Nic, in16, in32, out16, find_txbuf, fill_txbuf, rtl8139_send_packet, arp_respond, id_packet,
  is_link_up, is_bad_packet, packet_at, take_packet, recieve_packet,
}
use mksd_old_archive.Drivers.Rtl8139.Interrupt.{stat, serve, isr_loop, rtl8139_isr}

-- The code does not wait for ever, and where it returns, the state it returns has the property.
abbrev pub Halts : (Nic → Type 0) → Outcome Nic → Type 0
Halts P (Outcome.done s) = P s
Halts P Outcome.undefined = Unit
Halts P Outcome.waits = ⊥

bind-Halts :
    (P Q : Nic → Type 0) (o : Outcome Nic) (f : Nic → Outcome Nic)
    → Halts P o
    → ((s : Nic) → P s → Halts Q (f s))
    → Halts Q (o >>= f)
bind-Halts P Q (Outcome.done s) f h step = step s h
bind-Halts P Q Outcome.undefined f h step = tt
bind-Halts P Q Outcome.waits f h step = h

-- How many times a port was read as a word.
abbrev pub reads : ℕ → Log → ℕ
reads p [] = 0
reads p (Access.inw q ∷ log) = if q == p then reads p log + 1 else reads p log
reads p (_ ∷ log) = reads p log

-- The registers stand where they stood, and port `p` was read `n` times.
abbrev Counts : ℕ → ℕ → ℕ → Nic → Type 0
Counts p n base s = (reads p s.intr.log ≡ n) × (s.iobase ≡ base)

find_txbuf-reads :
    (card : Card) (n i p : ℕ) (s : Nic)
    → Counts p (reads p s.intr.log) s.iobase (find_txbuf card n i s).1
unfolding find_txbuf
find_txbuf-reads card zero i p s = (refl, refl)
find_txbuf-reads card (suc n) i p s =
    let canidate = u64 (s.next_txbuf + i) % 4 in
    let (status, s₁) = in32 card (0x10 + canidate * 4) s in
    elim (Bool-cases (bit_and status 0x2000 == 0)) [
      | inl e ↦ rw e (find_txbuf-reads card n (i + 1) p s₁)
      | inr e ↦ rw e (refl, refl)
    ]

send-Counts :
    (card : Card) (packet size p : ℕ) (s : Nic)
    → Halts (Counts p (reads p s.intr.log) s.iobase) (rtl8139_send_packet card packet size s)
unfolding rtl8139_send_packet fill_txbuf
send-Counts card packet size p s = elim (Bool-cases (s.iobase == 0)) [
  | inl e ↦ rw e (refl, refl)
  | inr e ↦ elim (Option-cases (find_txbuf card 4 0 s).0) [
    | inl none_found ↦ rw (e, none_found) tt
    | inr (hwbuf, found) ↦ rw (e, found) (find_txbuf-reads card 4 0 p s)
  ]
]

recieve_packet-Counts :
    (card : Card) (p : ℕ) (s : Nic)
    → Halts (Counts p (reads p s.intr.log) s.iobase) (recieve_packet card s)
unfolding recieve_packet id_packet arp_respond
recieve_packet-Counts card p s =
    let packet = packet_at s in
    let length = load 2 s.memory (packet + 2) in
    let s₁ = take_packet packet length s in
    elim (Bool-cases (is_bad_packet (load 2 s.memory packet) length)) [
      | inl e ↦ rw e (refl, refl)
      | inr e ↦
          rw e
            (elim (Bool-cases (load 2 s₁.memory (s₁.packet_buf + 12) == big_endian ethertype_arp)) [
              | inl e' ↦ rw e' (unfold take_packet in send-Counts card _ _ p _)
              | inr e' ↦ rw e' (unfold take_packet in (refl, refl))
            ])
    ]

serve-Counts :
    (card : Card) (status p n base : ℕ) (s : Nic)
    → Counts p n base s
    → Halts (Counts p n base) (serve card status s)
unfolding serve is_link_up
serve-Counts card status p n base s (e₁, e₂) =
    bind-Halts (Counts p n base) (Counts p n base)
      (if bit_and status 0x01 == 0 then Outcome.done s else recieve_packet card s)
      (λ s₁. Outcome.done (if bit_and status 0x20 == 0 then s₁ else (is_link_up card s₁).1))
      (elim (Bool-cases (bit_and status 0x01 == 0)) [
        | inl e ↦ rw e (e₁, e₂)
        | inr e ↦ rw (e, sym e₁, sym e₂) (recieve_packet-Counts card p s)
      ])
      (λ s₁ h. elim (Bool-cases (bit_and status 0x20 == 0)) [ inl e ↦ rw e h | inr e ↦ rw e h ])

-- The port of the interrupt status.
abbrev pub isr_port : ℕ → ℕ
isr_port base = u16 (u32 (base + 0x3E))

-- The card's answer to a read of the interrupt status depends on how often it was read before.
abbrev pub Reports : Card → ℕ → (ℕ → ℕ) → Type 0
Reports card base status =
    (log : Log) → u16 (card.board.ports log (isr_port base)) ≡ status (reads (isr_port base) log)

isr_loop-Halts :
    (card : Card) (status : ℕ → ℕ) (k fuel base : ℕ) (s : Nic)
    → Reports card base status
    → s.iobase ≡ base
    → k < fuel
    → bit_and (status (reads (isr_port base) s.intr.log + k)) stat ≡ 0
    → Halts (λ s'. Unit) (isr_loop card fuel s)
unfolding isr_loop
isr_loop-Halts card status k zero base s law at l quiet = absurd (omega arith)
isr_loop-Halts card status k (suc fuel) base s law at l quiet =
    let n = reads (isr_port base) s.intr.log in
    let (value, s₁) = in16 card 0x3E (record s { memory = card.dma s.intr.log s.memory }) in
    let s₂ = out16 0x3E value s₁ in
    let read : value ≡ status n = rw at (law s.intr.log) in
    let counted : reads (isr_port base) s₂.intr.log ≡ n + 1 = rw at (ground arith) in
    elim (Bool-cases (bit_and value stat == 0)) [
      | inl e ↦ rw e tt
      | inr e ↦ rw e (
          bind-Halts (Counts (isr_port base) (n + 1) base) (λ s'. Unit) (serve card value s₂)
            (isr_loop card fuel)
            (serve-Counts card value (isr_port base) (n + 1) base s₂ (counted, at))
            (λ s' (c, b). elim (Bool-cases (k == 0)) [
              | inl z ↦ absurd (
                  ground (
                    arith,
                    ap (λ (t : ℕ). bit_and t stat) read,
                    ap (λ (t : ℕ). bit_and (status t) stat) {x = n} {y = n + k} (ground arith),
                    quiet,
                  ))
              | inr z ↦ isr_loop-Halts card status (k - 1) fuel base s' law b (ground arith) (
                  ap (λ (t : ℕ). bit_and (status t) stat)
                    {x = reads (isr_port base) s'.intr.log + (k - 1)} {y = n + k} (ground arith)
                  ∙ quiet)
            ]))
    ]

-- Where the answers of the card to reads of its interrupt status are `status`, in turn, and the
-- answer number `k` from now on names no interrupt: fuel above `k` is enough for `rtl8139_isr` not
-- to wait for ever, whatever the packets are and whatever else the card answers.
pub rtl8139_isr-Halts :
    (card : Card) (status : ℕ → ℕ) (k fuel : ℕ) (s : Nic)
    → Reports card s.iobase status
    → k < fuel
    → bit_and (status (reads (isr_port s.iobase) s.intr.log + k)) stat ≡ 0
    → Halts (λ s'. Unit) (rtl8139_isr card fuel s)
unfolding rtl8139_isr
rtl8139_isr-Halts card status k fuel s law l quiet =
    bind-Halts (λ s'. Unit) (λ s'. Unit) (isr_loop card fuel s) _
      (isr_loop-Halts card status k fuel s.iobase s law refl l quiet) (λ s' h. tt)
