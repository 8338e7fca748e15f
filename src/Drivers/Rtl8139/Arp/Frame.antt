-- ===== src/Drivers/Rtl8139/Arp/Frame.antt =====
-- The answer of rtl8139.c to an ARP packet, from the packet to the transmit buffer.
use mksd_old_archive.Base.{
  ℕ, zero, suc, ◌+◌, ◌%◌, ◌<◌, ◌≡◌, ◌≢◌, refl, ap, ap₂, ◌∙◌, sym, arith, false, ◌==◌, store_word,
  List, [], ◌∷◌, ◌++◌, Memory, take, get_or,
}
use mksd_old_archive.Net.{bytes_of, ethertype_arp, ethernet_frame, ethernet_send}
use mksd_old_archive.Net.Frame.{
  bytes_of-Holds, bytes_of-shift, bytes_of-add, Separate, ethernet_send-frame,
}
use mksd_old_archive.Base.Outcome.{Outcome}
use mksd_old_archive.Drivers.Rtl8139.{Card, Nic, arp_reply, arp_respond}
use mksd_old_archive.Drivers.Rtl8139.Send.{
  IsSteady, FirstOwn, Room, txbuf, rtl8139_send_packet-Filled,
}
use mksd_old_archive.Drivers.Rtl8139.Arp.{
  Answerable, fixed, answer_fixed, answer_mac, answer_sender, answer_hardware, answer_target,
  answer_outside,
}

-- An Ethernet ARP answer: hardware type 1, protocol 0x0800, sizes 6 and 4, operation 2.
abbrev pub arp_fixed : List ℕ
arp_fixed = 0 ∷ 1 ∷ 8 ∷ 0 ∷ 6 ∷ 4 ∷ 0 ∷ 2 ∷ []

fixed-bytes : (card : Card) (m : Memory) → bytes_of 8 (fixed card m) card.reply ≡ arp_fixed
fixed-bytes card m = bytes_of-Holds arp_fixed (fixed card m) card.reply (
    unfold store_word in
    (
      ground arith,
      (
        ground arith,
        (
          ground arith,
          (ground arith, (ground arith, (ground arith, (ground arith, (ground arith, tt))))),
        ),
      ),
    ))

-- The 28 bytes of the answer to the packet at `a`.
abbrev pub answer_bytes : Card → ℕ → Memory → List ℕ
answer_bytes card a m =
    arp_fixed
    ++ (bytes_of 6 m card.net.nic_mac
        ++ (bytes_of 4 m (a + 24) ++ (bytes_of 6 m (a + 8) ++ bytes_of 4 m (a + 14))))

arp_reply-bytes :
    (card : Card) (a : ℕ) (m : Memory)
    → Answerable card a m
    → bytes_of 28 (arp_reply card a m) card.reply ≡ answer_bytes card a m
arp_reply-bytes card a m ok =
    let r = card.reply in
    let m' = arp_reply card a m in
    bytes_of-add 8 20 m' r
    ∙ ap₂ (λ (x y : List ℕ). x ++ y)
        (bytes_of-shift 8 (fixed card m) m' r r (answer_fixed card a m ok) ∙ fixed-bytes card m)
        (bytes_of-add 6 14 m' (r + 8)
          ∙ ap₂ (λ (x y : List ℕ). x ++ y)
              (bytes_of-shift 6 m m' (r + 8) card.net.nic_mac (answer_mac card a m ok))
              (ap (bytes_of 14 m') {x = r + 8 + 6} {y = r + 14} (omega arith)
                ∙ bytes_of-add 4 10 m' (r + 14)
                ∙ ap₂ (λ (x y : List ℕ). x ++ y)
                    (bytes_of-shift 4 m m' (r + 14) (a + 24) (answer_sender card a m ok))
                    (ap (bytes_of 10 m') {x = r + 14 + 4} {y = r + 18} (omega arith)
                      ∙ bytes_of-add 6 4 m' (r + 18)
                      ∙ ap₂ (λ (x y : List ℕ). x ++ y)
                          (bytes_of-shift 6 m m' (r + 18) (a + 8) (answer_hardware card a m ok))
                          (ap (bytes_of 4 m') {x = r + 18 + 6} {y = r + 24} (omega arith)
                            ∙ bytes_of-shift 4 m m' (r + 24) (a + 14)
                                (answer_target card a m ok)))))

-- The first bytes of a run of bytes.
take-bytes_of : (n k : ℕ) (m : Memory) (p : ℕ) → take n (bytes_of (n + k) m p) ≡ bytes_of n m p
unfolding bytes_of
take-bytes_of zero k m p = refl
take-bytes_of (suc n) k m p =
    ap (λ (t : ℕ). take (suc n) (bytes_of t m p)) {x = suc n + k} {y = suc (n + k)} (omega arith)
    ∙ ap (λ (r : List ℕ). m p ∷ r) (take-bytes_of n k m (p + 1))

answered_frame :
    (card : Card) (a : ℕ) (m : Memory)
    → Answerable card a m
    → Separate card.net (card.reply + 18) card.reply 28
    → bytes_of 42
        (ethernet_frame card.net (card.reply + 18) ethertype_arp card.reply 28 (arp_reply card a m))
        card.net.frame
      ≡ bytes_of 6 m (a + 8)
        ++ (bytes_of 6 m card.net.nic_mac ++ ((8 ∷ 6 ∷ []) ++ answer_bytes card a m))
unfolding ethernet_send
answered_frame card a m ok sep =
    let m₁ = arp_reply card a m in
    let r = card.reply in
    let sent =
      ethernet_send-frame card.net (r + 18) ethertype_arp r 28 (record { memory = m₁; sent = [] })
        sep (omega arith) (omega arith) in
    let known : r + 18 == 0 ≡ false = ground arith in
    ap (λ (l : List (List ℕ)). get_or l 0 []) sent
    ∙ rw
        (
          known,
          arp_reply-bytes card a m ok,
          bytes_of-shift 6 m m₁ (r + 18) (a + 8) (answer_hardware card a m ok),
          bytes_of-shift 6 m m₁ card.net.nic_mac card.net.nic_mac (λ i l.
              answer_outside card a m ok (card.net.nic_mac + i) (ground (arith, ok.from_mac))),
        )
        refl

-- The answer to an ARP packet, whatever its operation is. Where the blocks that the driver uses lie
-- apart, memory holds bytes, and the card has given a buffer back: the first 42 bytes of that buffer
-- are an Ethernet frame from the card's address to the packet's sender, with an ARP answer that
-- gives the card's address for the protocol address that the packet asks for, to its sender.
pub arp_respond-bytes :
    (card : Card) (regs : ℕ → ℕ) (a k : ℕ) (s : Nic)
    → Answerable card a s.memory
    → Separate card.net (card.reply + 18) card.reply 28
    → IsSteady card regs
    → s.iobase ≢ 0
    → s.next_txbuf < 4
    → FirstOwn regs s k
    → Room card card.net.frame 60 ((s.next_txbuf + k) % 4) s
    → (s' : Nic) × (arp_respond card a s ≡ Outcome.done s')
      × (bytes_of 42 s'.memory (txbuf card ((s.next_txbuf + k) % 4) s)
          ≡ bytes_of 6 s.memory (a + 8)
            ++ (bytes_of 6 s.memory card.net.nic_mac
                ++ ((8 ∷ 6 ∷ []) ++ answer_bytes card a s.memory)))
unfolding arp_respond
arp_respond-bytes card regs a k s ok sep steady base next first room =
    let m₁ = arp_reply card a s.memory in
    let m₂ = ethernet_frame card.net (card.reply + 18) ethertype_arp card.reply 28 m₁ in
    let h = (s.next_txbuf + k) % 4 in
    let (s', e, _, filled) =
      rtl8139_send_packet-Filled card regs card.net.frame 42 k (record s { memory = m₂ }) steady
        base next (record { below = first.below; own = first.own; before = first.before })
        (record { below = room.below; fits = room.fits; apart = room.apart }) in
    (
      s',
      e,
      sym (take-bytes_of 42 18 s'.memory (txbuf card h s))
          ∙ ap (take 42) filled.bytes
          ∙ take-bytes_of 42 18 m₂ card.net.frame
          ∙ answered_frame card a s.memory ok sep,
    )
