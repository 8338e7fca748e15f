-- ===== src/Drivers/Rtl8139/Receive.antt =====
-- recieve_packet of rtl8139.c: the packet at the head of the ring.
use mksd_old_archive.Base.{
  ℕ, zero, suc, ◌+◌, ◌-◌, ◌*◌, ◌/◌, ◌%◌, ◌^◌, ◌≤◌, ◌<◌, ◌≡◌, ◌⊎◌, inl, inr, refl, ap, ap₂, ◌∙◌,
  arith, true, false, Bool-cases, bit_and, ◌==◌, if◌then◌else◌, u16, u64, load, Disjoint,
  memcpy_lem, sub64, complement, ◌∷◌, Memory, load-ext,
}
use mksd_old_archive.Arch.Ports.{Access, Log}
use mksd_old_archive.Net.{bytes_of}
use mksd_old_archive.Net.Frame.{bytes_of-memcpy}
use mksd_old_archive.Base.Outcome.{Outcome, ◌>>=◌}
use mksd_old_archive.Drivers.Rtl8139.{
  Card, Nic, port, in16, out16, id_packet, is_link_up, is_bad_packet, packet_at, take_packet,
  recieve_packet,
}
use mksd_old_archive.Drivers.Rtl8139.Interrupt.{stat, serve, isr_loop, rtl8139_isr}
use mksd_old_archive.Drivers.Rtl8139.Invariant.{IsSettled, take_packet-rxbuf_off}

-- The header of the packet at the head of the ring.
abbrev pub status_of : Nic → ℕ
status_of s = load 2 s.memory (packet_at s)

abbrev pub length_of : Nic → ℕ
length_of s = load 2 s.memory (packet_at s + 2)

-- The ring, with the packet that runs past its end, lies below the top of memory and apart from the
-- block for packets.
pub record RingApart (s : Nic) : Type 0 where
  pub below : s.rxbuf + 32768 + 0x600 < 2 ^ 64
  pub apart : Disjoint s.packet_buf 0x600 s.rxbuf (32768 + 0x600)

-- The packet is copied, without its header and its checksum, from at most 0x600 bytes behind the
-- ring; the ring moves on by the padded packet, and the card is told.
pub record Taken (s s' : Nic) : Type 0 where
  pub bytes :
      bytes_of (length_of s - 4) s'.memory s.packet_buf
      ≡ bytes_of (length_of s - 4) s.memory (s.rxbuf + s.rxbuf_off + 4)
  pub outside : (a : ℕ) → (a < s.packet_buf) ⊎ (s.packet_buf + 0x600 ≤ a) → s'.memory a ≡ s.memory a
  pub inside : s.rxbuf_off + length_of s < 32768 + 0x600
  pub moved : s'.rxbuf_off ≡ (s.rxbuf_off + (length_of s + 7) / 4 * 4) % 32768
  pub got : s'.got_packet ≡ 1
  pub told : s'.intr.log ≡ Access.outw (port 0x38 s) (u16 (sub64 s'.rxbuf_off 0x10)) ∷ s.intr.log

good_length :
    (status length : ℕ) → is_bad_packet status length ≡ false → (0x16 ≤ length) × (length < 0x600)
unfolding is_bad_packet
good_length status length h = (ground arith, ground arith)

-- Where the state is settled and the ring lies apart: `recieve_packet` copies a good packet as
-- `Taken` says and hands the state to `id_packet`.
pub recieve_packet-Taken :
    (card : Card) (s : Nic)
    → IsSettled s
    → RingApart s
    → is_bad_packet (status_of s) (length_of s) ≡ false
    → (s' : Nic) × (recieve_packet card s ≡ id_packet card s') × Taken s s'
unfolding recieve_packet
recieve_packet-Taken card s h ring good =
    let packet = packet_at s in
    let length = length_of s in
    let s' = take_packet packet length s in
    let at : packet ≡ s.rxbuf + s.rxbuf_off = omega (arith, ring.below, h.off_below) in
    let sized = good_length (status_of s) length good in
    let moved = take_packet-rxbuf_off packet length s h.off_below (omega (arith, sized)) in
    let src : u64 (packet + 4) ≡ s.rxbuf + s.rxbuf_off + 4 =
      omega (arith, at, ring.below, h.off_below) in
    let apart : Disjoint s.packet_buf (length - 4) (s.rxbuf + s.rxbuf_off + 4) (length - 4) =
      ground (arith, ring.apart, h.off_below, sized) in
    (
      s',
      rw good refl,
      record {
        bytes =
            unfold take_packet in
            rw src (
              bytes_of-memcpy (length - 4) s.packet_buf (s.rxbuf + s.rxbuf_off + 4) s.memory apart);
        outside = λ a o.
            unfold take_packet in
            rw src (
              memcpy_lem (length - 4) s.packet_buf (s.rxbuf + s.rxbuf_off + 4) s.memory a apart
              ∙ ground (arith, sized));
        inside = omega (arith, h.off_below, sized);
        moved = moved ∙ omega (arith, h.off_aligned);
        got = unfold take_packet in refl;
        told =
            unfold take_packet in
            ap (λ (v : ℕ). Access.outw (port 0x38 s) (u16 (sub64 v 0x10)) ∷ s.intr.log)
              {x = bit_and (u64 (s.rxbuf_off + length + 4 + 3)) (complement 64 3) % 32768}
              (omega arith);
      },
    )

-- A bad packet stands at the head of the ring, and stays there: the driver's place in the ring, the
-- packet that it has and what it has to send are as in `s₀`.
pub record Stuck (s₀ s : Nic) : Type 0 where
  pub bad : is_bad_packet (status_of s) (length_of s) ≡ true
  pub ring : s.rxbuf ≡ s₀.rxbuf
  pub place : s.rxbuf_off ≡ s₀.rxbuf_off
  pub got : s.got_packet ≡ s₀.got_packet
  pub next : s.next_txbuf ≡ s₀.next_txbuf

-- The code does nothing undefined, and where it returns, the state it returns has the property.
abbrev pub Sound : (Nic → Type 0) → Outcome Nic → Type 0
Sound P (Outcome.done s) = P s
Sound P Outcome.undefined = ⊥
Sound P Outcome.waits = Unit

bind-Sound :
    (P Q : Nic → Type 0) (o : Outcome Nic) (f : Nic → Outcome Nic)
    → Sound P o
    → ((s : Nic) → P s → Sound Q (f s))
    → Sound Q (o >>= f)
bind-Sound P Q (Outcome.done s) f h step = step s h
bind-Sound P Q Outcome.undefined f h step = h
bind-Sound P Q Outcome.waits f h step = tt

-- The card does not write to the header at `p`.
abbrev pub Leaves : Card → ℕ → Type 0
Leaves card p = (log : Log) (m : Memory) (a : ℕ) → p ≤ a → a < p + 4 → card.dma log m a ≡ m a

serve-Stuck :
    (card : Card) (status : ℕ) (s₀ s : Nic) → Stuck s₀ s → Sound (Stuck s₀) (serve card status s)
unfolding serve is_link_up recieve_packet
serve-Stuck card status s₀ s h =
    bind-Sound (Stuck s₀) (Stuck s₀)
      (if bit_and status 0x01 == 0 then Outcome.done s else recieve_packet card s)
      (λ s₁. Outcome.done (if bit_and status 0x20 == 0 then s₁ else (is_link_up card s₁).1))
      (elim (Bool-cases (bit_and status 0x01 == 0)) [ inl e ↦ rw e h | inr e ↦ rw (e, h.bad) h ])
      (λ s₁ h₁. elim (Bool-cases (bit_and status 0x20 == 0)) [
        | inl e ↦ rw e h₁
        | inr e ↦ rw e (record {
          bad = h₁.bad;
          ring = h₁.ring;
          place = h₁.place;
          got = h₁.got;
          next = h₁.next;
        })
      ])

dma-Stuck :
    (card : Card) (s₀ s : Nic)
    → Leaves card (packet_at s₀)
    → Stuck s₀ s
    → Stuck s₀ (record s { memory = card.dma s.intr.log s.memory })
dma-Stuck card s₀ s leaves h =
    let same : packet_at s ≡ packet_at s₀ = ap₂ (λ (a b : ℕ). u64 (a + b)) h.ring h.place in
    let kept : (a : ℕ)
        → packet_at s ≤ a
        → a < packet_at s + 4
        → card.dma s.intr.log s.memory a ≡ s.memory a =
      λ a l u. leaves s.intr.log s.memory a (omega (arith, same, l)) (omega (arith, same, u)) in
    let m = card.dma s.intr.log s.memory in
    record {
      bad =
          ap₂ is_bad_packet (load-ext 2 s.memory m (packet_at s) (λ a l u. kept a l (omega arith)))
            (load-ext 2 s.memory m (packet_at s + 2) (λ a l u. kept a (omega arith) (omega arith)))
          ∙ h.bad;
      ring = h.ring;
      place = h.place;
      got = h.got;
      next = h.next;
    }

isr_loop-Stuck :
    (card : Card) (fuel : ℕ) (s₀ s : Nic)
    → Leaves card (packet_at s₀)
    → Stuck s₀ s
    → Sound (Stuck s₀) (isr_loop card fuel s)
unfolding isr_loop
isr_loop-Stuck card zero s₀ s leaves h = tt
isr_loop-Stuck card (suc fuel) s₀ s leaves h =
    let h₁ = dma-Stuck card s₀ s leaves h in
    let (status, s₁) = in16 card 0x3E (record s { memory = card.dma s.intr.log s.memory }) in
    let s₂ = out16 0x3E status s₁ in
    let h₂ : Stuck s₀ s₂ = record {
      bad = h₁.bad;
      ring = h₁.ring;
      place = h₁.place;
      got = h₁.got;
      next = h₁.next;
    } in
    elim (Bool-cases (bit_and status stat == 0)) [
      | inl e ↦ rw e h₂
      | inr e ↦ rw e (
          bind-Sound (Stuck s₀) (Stuck s₀) (serve card status s₂) (isr_loop card fuel)
            (serve-Stuck card status s₀ s₂ h₂) (λ s₃ h₃. isr_loop-Stuck card fuel s₀ s₃ leaves h₃))
    ]

-- A bad packet at the head of the ring stays there: while the card leaves its header as it is, an
-- interrupt ends, if it ends, with the place in the ring, the packet that was received and the next
-- transmit buffer as they were, whatever the card reports and however often.
pub rtl8139_isr-Stuck :
    (card : Card) (fuel : ℕ) (s : Nic)
    → Leaves card (packet_at s)
    → is_bad_packet (status_of s) (length_of s) ≡ true
    → Sound (Stuck s) (rtl8139_isr card fuel s)
unfolding rtl8139_isr
rtl8139_isr-Stuck card fuel s leaves bad =
    bind-Sound (Stuck s) (Stuck s) (isr_loop card fuel s) _
      (isr_loop-Stuck card fuel s s leaves
        (record { bad = bad; ring = refl; place = refl; got = refl; next = refl }))
      (λ s₁ h. record { bad = h.bad; ring = h.ring; place = h.place; got = h.got; next = h.next })
