-- ===== src/Drivers/Rtl8139/Invariant.antt =====
-- What holds of the driver's state after every history of calls and interrupts.
use mksd_old_archive.Base.{
  ℕ, zero, suc, ◌+◌, ◌*◌, ◌/◌, ◌%◌, ◌^◌, ◌<◌, ◌≡◌, inl, inr, refl, arith, Bool-cases, Option, some,
  bit_and, ◌==◌, if◌then◌else◌, u64, load, load-lt, Option-cases, subst,
}
use mksd_old_archive.Base.Bits.Masks.{bit_and-high_mask}
use mksd_old_archive.Arch.Devices.{Intr}
use mksd_old_archive.Net.{big_endian, ethertype_arp}
use mksd_old_archive.Base.Outcome.{Ends, bind-Ends, Outcome}
use mksd_old_archive.Drivers.Rtl8139.{
  Card, Nic, find_txbuf, fill_txbuf, rtl8139_send_packet, arp_respond, id_packet, is_link_up,
  is_bad_packet, packet_at, take_packet, recieve_packet, in32, in16, out16,
}
use mksd_old_archive.Drivers.Rtl8139.Interrupt.{
  stat, serve, isr_loop, rtl8139_isr, rtl8139_read_packet,
}

-- The next transmit buffer is one of four, and the place in the ring is a multiple of four below
-- the size of the ring.
pub record IsSettled (s : Nic) : Type 0 where
  pub next_below : s.next_txbuf < 4
  pub off_below : s.rxbuf_off < 32768
  pub off_aligned : s.rxbuf_off % 4 ≡ 0

-- The two fields are all that counts.
pub IsSettled-same :
    (s s' : Nic)
    → s'.next_txbuf ≡ s.next_txbuf
    → s'.rxbuf_off ≡ s.rxbuf_off
    → IsSettled s
    → IsSettled s'
IsSettled-same s s' e f h = record {
  next_below = omega (arith, e, h.next_below);
  off_below = omega (arith, f, h.off_below);
  off_aligned = omega (arith, f, h.off_aligned);
}

abbrev pub Settles : Outcome Nic → Type 0
Settles = Ends IsSettled

-- The scan only reads registers, and what it finds is one of the four buffers.
abbrev pub IsFound : Nic → Option ℕ × Nic → Type 0
IsFound s r = (log : Intr) × (r.1 ≡ record s { intr = log }) × ((h : ℕ) → r.0 ≡ some h → h < 4)

pub find_txbuf-IsFound : (card : Card) (n i : ℕ) (s : Nic) → IsFound s (find_txbuf card n i s)
unfolding find_txbuf
find_txbuf-IsFound card zero i s = (s.intr, refl, λ h e. absurd (ground arith))
find_txbuf-IsFound card (suc n) i s =
    let canidate = u64 (s.next_txbuf + i) % 4 in
    let (status, s₁) = in32 card (0x10 + canidate * 4) s in
    elim (Bool-cases (bit_and status 0x2000 == 0)) [
      | inl e ↦ rw e (find_txbuf-IsFound card n (i + 1) s₁)
      | inr e ↦ rw e (s₁.intr, refl, λ h same. ground arith)
    ]

pub rtl8139_send_packet-Settles :
    (card : Card) (packet size : ℕ) (s : Nic)
    → IsSettled s
    → Settles (rtl8139_send_packet card packet size s)
unfolding rtl8139_send_packet fill_txbuf
rtl8139_send_packet-Settles card packet size s h = elim (Bool-cases (s.iobase == 0)) [
  | inl e ↦ rw e h
  | inr e ↦
      let (intr, same, below) = find_txbuf-IsFound card 4 0 s in
      elim (Option-cases (find_txbuf card 4 0 s).0) [
        | inl none_found ↦ rw (e, none_found) tt
        | inr (hwbuf, found) ↦
            rw (e, found, same)
              (record {
                next_below = omega arith;
                off_below = h.off_below;
                off_aligned = h.off_aligned;
              })
      ]
]

id_packet-Settles : (card : Card) (s : Nic) → IsSettled s → Settles (id_packet card s)
unfolding id_packet arp_respond
id_packet-Settles card s h =
    elim (Bool-cases (load 2 s.memory (s.packet_buf + 12) == big_endian ethertype_arp)) [
      | inl e ↦ rw e (rtl8139_send_packet-Settles card _ _ _ (IsSettled-same s _ refl refl h))
      | inr e ↦ rw e h
    ]

-- The place in the ring after a packet: behind its header and its bytes, rounded up.
pub take_packet-rxbuf_off :
    (packet length : ℕ) (s : Nic)
    → s.rxbuf_off < 32768
    → length < 2 ^ 16
    → (take_packet packet length s).rxbuf_off ≡ (s.rxbuf_off + length + 7) / 4 * 4 % 32768
unfolding take_packet
take_packet-rxbuf_off packet length s h l =
    let x = (s.rxbuf_off + length + 4 + 3) % 2 ^ 64 in
    omega (arith, bit_and-high_mask 2 62 x (omega arith))

take_packet-IsSettled :
    (packet length : ℕ) (s : Nic)
    → IsSettled s
    → length < 2 ^ 16
    → IsSettled (take_packet packet length s)
take_packet-IsSettled packet length s h l =
    let e = take_packet-rxbuf_off packet length s h.off_below l in
    record {
      next_below = unfold take_packet in h.next_below;
      off_below = omega (arith, e);
      off_aligned = omega (arith, e);
    }

pub recieve_packet-Settles : (card : Card) (s : Nic) → IsSettled s → Settles (recieve_packet card s)
unfolding recieve_packet
recieve_packet-Settles card s h =
    let packet = packet_at s in
    let length = load 2 s.memory (packet + 2) in
    elim (Bool-cases (is_bad_packet (load 2 s.memory packet) length)) [
      | inl e ↦ rw e h
      | inr e ↦ rw e (
          id_packet-Settles card _ (
            take_packet-IsSettled packet length s h
              (omega (arith, load-lt 2 s.memory (packet + 2)))))
    ]

serve-Settles : (card : Card) (status : ℕ) (s : Nic) → IsSettled s → Settles (serve card status s)
unfolding serve is_link_up
serve-Settles card status s h =
    bind-Ends IsSettled IsSettled
      (if bit_and status 0x01 == 0 then Outcome.done s else recieve_packet card s)
      (λ s₁. Outcome.done (if bit_and status 0x20 == 0 then s₁ else (is_link_up card s₁).1))
      (elim (Bool-cases (bit_and status 0x01 == 0)) [
        | inl e ↦ rw e h
        | inr e ↦ rw e (recieve_packet-Settles card s h)
      ])
      (λ s₁ h₁. elim (Bool-cases (bit_and status 0x20 == 0)) [
        | inl e ↦ rw e h₁
        | inr e ↦ rw e (IsSettled-same s₁ _ refl refl h₁)
      ])

isr_loop-Settles : (card : Card) (fuel : ℕ) (s : Nic) → IsSettled s → Settles (isr_loop card fuel s)
unfolding isr_loop
isr_loop-Settles card zero s h = tt
isr_loop-Settles card (suc fuel) s h =
    let (status, s₁) = in16 card 0x3E (record s { memory = card.dma s.intr.log s.memory }) in
    let s₂ = out16 0x3E status s₁ in
    let h₂ : IsSettled s₂ = IsSettled-same s s₂ refl refl h in
    elim (Bool-cases (bit_and status stat == 0)) [
      | inl e ↦ rw e h₂
      | inr e ↦ rw e (
          bind-Ends IsSettled IsSettled (serve card status s₂) (isr_loop card fuel)
            (serve-Settles card status s₂ h₂) (isr_loop-Settles card fuel))
    ]

pub rtl8139_isr-Settles :
    (card : Card) (fuel : ℕ) (s : Nic) → IsSettled s → Settles (rtl8139_isr card fuel s)
unfolding rtl8139_isr
rtl8139_isr-Settles card fuel s h =
    bind-Ends IsSettled IsSettled (isr_loop card fuel s) _ (isr_loop-Settles card fuel s h)
      (λ s₁ h₁. IsSettled-same s₁ _ refl refl h₁)

-- What can happen to the driver: an interrupt, or a call of one of its functions.
pub data Step (card : Card) : Nic → Nic → Type 0 where
  interrupt : (fuel : ℕ) {s s' : Nic} → rtl8139_isr card fuel s ≡ Outcome.done s' → Step card s s'
  send :
      (packet size : ℕ) {s s' : Nic}
      → rtl8139_send_packet card packet size s ≡ Outcome.done s'
      → Step card s s'
  read : (s : Nic) → Step card s (rtl8139_read_packet s).1

pub data Reaches (card : Card) : Nic → Nic → Type 0 where
  start : {s : Nic} → Reaches card s s
  next : {s s' s'' : Nic} → Reaches card s s' → Step card s' s'' → Reaches card s s''

Step-IsSettled : (card : Card) {s s' : Nic} → Step card s s' → IsSettled s → IsSettled s'
unfolding rtl8139_read_packet
Step-IsSettled card (Step.interrupt fuel {s} e) h =
    subst Settles e (rtl8139_isr-Settles card fuel s h)
Step-IsSettled card (Step.send packet size {s} e) h =
    subst Settles e (rtl8139_send_packet-Settles card packet size s h)
Step-IsSettled card (Step.read s) h = IsSettled-same s _ refl refl h

-- From a settled state, every history of interrupts, of packets sent and of packets read leads to a
-- settled state, whatever the card answers and whatever it writes to memory: the next transmit
-- buffer is one of the four, and the place in the ring is a multiple of 4 below 32768.
pub Reaches-IsSettled : (card : Card) {s s' : Nic} → IsSettled s → Reaches card s s' → IsSettled s'
Reaches-IsSettled card h Reaches.start = h
Reaches-IsSettled card h (Reaches.next before step) =
    Step-IsSettled card step (Reaches-IsSettled card h before)
