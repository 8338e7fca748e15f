-- ===== src/Drivers/Rtl8139/Arp.antt =====
-- The writes of arp_respond of rtl8139.c, byte by byte.
pub mod Frame
use mksd_old_archive.Base.{
  ℕ, zero, suc, ◌+◌, ◌-◌, ◌*◌, ◌/◌, ◌%◌, ◌^◌, ◌≤◌, ◌<◌, ◌≡◌, ◌≢◌, ◌⊎◌, inl, inr, refl, ap, ap₂, ◌∙◌,
  sym, arith, true, false, Bool-cases, ◌==◌, leb, ltb, if◌then◌else◌, u8, u32, load, load-ext,
  store, store_word, store_word-outside, Disjoint, memcpy, memcpy_lem, List, [], ◌∷◌, ◌++◌, Memory,
  take, Holds, length, get_or,
}
use mksd_old_archive.Net.{
  Env, Net, bytes_of, big_endian, ethertype_arp, ethertype_ipv4, ethernet_frame, ethernet_send,
}
use mksd_old_archive.Net.Frame.{
  bytes_of-shift, bytes_of-add, big_endian_lem, Separate, ethernet_send-frame, dest_bytes,
}
use mksd_old_archive.Base.Outcome.{Outcome}
use mksd_old_archive.Drivers.Rtl8139.{Card, Nic, arp_reply, arp_respond, rtl8139_send_packet}
use mksd_old_archive.Drivers.Rtl8139.Send.{
  IsSteady, FirstOwn, Room, txbuf, padded, Filled, rtl8139_send_packet-Filled,
}

-- A word that was loaded is stored byte by byte.
store_word-load :
    (n p q i : ℕ) (m m' : Memory) → i < n → store_word n p (load n m q) m' (p + i) ≡ u8 (m (q + i))
unfolding store_word load
store_word-load zero p q i m m' l = absurd (omega arith)
store_word-load (suc n) p q zero m m' l =
    let v = u8 (m q) + 256 * load n m (q + 1) in
    ap (store_word n (p + 1) (v / 256) (store p (u8 v) m')) {x = p + 0} {y = p} (omega arith)
    ∙ store_word-outside n (p + 1) (v / 256) (store p (u8 v) m') p (inl (omega arith))
    ∙ ground (arith, ap m {x = q + 0} {y = q} (omega arith))
store_word-load (suc n) p q (suc i) m m' l =
    let v = u8 (m q) + 256 * load n m (q + 1) in
    let rest : v / 256 ≡ load n m (q + 1) = omega arith in
    rw rest (
      ap (store_word n (p + 1) (load n m (q + 1)) (store p (u8 v) m')) {x = p + suc i}
        {y = p + 1 + i} (omega arith)
      ∙ store_word-load n (p + 1) (q + 1) i m (store p (u8 v) m') (omega arith)
      ∙ ap (λ (t : ℕ). u8 (m t)) {x = q + 1 + i} {y = q + suc i} (omega arith))

-- The packet after each of the writes of `arp_respond`: the fixed fields, the target's address, its
-- hardware address, and the sender's address.
abbrev pub fixed : Card → Memory → Memory
fixed card m =
    let p = card.reply in
    store_word 2 (p + 6) (big_endian 2) (
      store (p + 5) 4 (
        store (p + 4) 6
          (store_word 2 (p + 2) (big_endian ethertype_ipv4) (store_word 2 p (big_endian 1) m))))

abbrev with_target : Card → ℕ → Memory → Memory
with_target card a m =
    store_word 4 (card.reply + 24) (load 4 (fixed card m) (a + 14)) (fixed card m)

abbrev with_hardware : Card → ℕ → Memory → Memory
with_hardware card a m = memcpy (card.reply + 18) (a + 8) 6 (with_target card a m)

abbrev with_sender : Card → ℕ → Memory → Memory
with_sender card a m =
    store_word 4 (card.reply + 14) (load 4 (with_hardware card a m) (a + 24))
      (with_hardware card a m)

-- The packet that is answered and the MAC address lie apart from the answer, and memory holds bytes.
pub record Answerable (card : Card) (a : ℕ) (m : Memory) : Type 0 where
  pub from_packet : Disjoint card.reply 28 a 28
  pub from_mac : Disjoint card.reply 28 card.net.nic_mac 6
  pub bytes : (x : ℕ) → m x < 256

abbrev Beyond : Card → ℕ → Type 0
Beyond card x = (x < card.reply) ⊎ (card.reply + 28 ≤ x)

fixed-outside :
    (card : Card) (m : Memory) (x : ℕ)
    → (x < card.reply) ⊎ (card.reply + 8 ≤ x)
    → fixed card m x ≡ m x
fixed-outside card m x h =
    let p = card.reply in
    let m₁ = store_word 2 p (big_endian 1) m in
    let m₂ = store_word 2 (p + 2) (big_endian ethertype_ipv4) m₁ in
    store_word-outside 2 (p + 6) (big_endian 2) (store (p + 5) 4 (store (p + 4) 6 m₂)) x
      (ground arith)
    ∙ ground (
      arith,
      store_word-outside 2 (p + 2) (big_endian ethertype_ipv4) m₁ x (ground arith),
      store_word-outside 2 p (big_endian 1) m x (ground arith),
    )

with_target-outside :
    (card : Card) (a : ℕ) (m : Memory) (x : ℕ)
    → (x < card.reply) ⊎ (card.reply + 28 ≤ x)
    → with_target card a m x ≡ m x
with_target-outside card a m x h =
    store_word-outside 4 (card.reply + 24) (load 4 (fixed card m) (a + 14)) (fixed card m) x
      (ground arith)
    ∙ fixed-outside card m x (ground arith)

with_hardware-outside :
    (card : Card) (a : ℕ) (m : Memory) (x : ℕ)
    → Answerable card a m
    → (x < card.reply) ⊎ (card.reply + 28 ≤ x)
    → with_hardware card a m x ≡ m x
with_hardware-outside card a m x ok h =
    memcpy_lem 6 (card.reply + 18) (a + 8) (with_target card a m) x (ground (arith, ok.from_packet))
    ∙ ground (arith, with_target-outside card a m x h)

with_sender-outside :
    (card : Card) (a : ℕ) (m : Memory) (x : ℕ)
    → Answerable card a m
    → (x < card.reply) ⊎ (card.reply + 28 ≤ x)
    → with_sender card a m x ≡ m x
with_sender-outside card a m x ok h =
    store_word-outside 4 (card.reply + 14) (load 4 (with_hardware card a m) (a + 24))
      (with_hardware card a m) x (ground arith)
    ∙ with_hardware-outside card a m x ok h

module _ (card : Card) (a : ℕ) (m : Memory) (ok : Answerable card a m) where
  pub answer_fixed :
      (i : ℕ) → i < 8 → arp_reply card a m (card.reply + i) ≡ fixed card m (card.reply + i)
  unfolding arp_reply
  answer_fixed i l =
      let x = card.reply + i in
      memcpy_lem 6 (card.reply + 8) card.net.nic_mac (with_sender card a m) x
        (ground (arith, ok.from_mac))
      ∙ ground arith
      ∙ store_word-outside 4 (card.reply + 14) (load 4 (with_hardware card a m) (a + 24))
          (with_hardware card a m) x (ground arith)
      ∙ memcpy_lem 6 (card.reply + 18) (a + 8) (with_target card a m) x
          (ground (arith, ok.from_packet))
      ∙ ground arith
      ∙ store_word-outside 4 (card.reply + 24) (load 4 (fixed card m) (a + 14)) (fixed card m) x
          (ground arith)

  pub answer_mac :
      (i : ℕ) → i < 6 → arp_reply card a m (card.reply + 8 + i) ≡ m (card.net.nic_mac + i)
  unfolding arp_reply
  answer_mac i l =
      memcpy_lem 6 (card.reply + 8) card.net.nic_mac (with_sender card a m) (card.reply + 8 + i)
        (ground (arith, ok.from_mac))
      ∙ ground (
        arith,
        ap (with_sender card a m) {x = card.net.nic_mac + (card.reply + 8 + i - (card.reply + 8))}
            {y = card.net.nic_mac + i} (omega arith),
      )
      ∙ with_sender-outside card a m (card.net.nic_mac + i) ok (ground (arith, ok.from_mac))

  pub answer_sender : (i : ℕ) → i < 4 → arp_reply card a m (card.reply + 14 + i) ≡ m (a + 24 + i)
  unfolding arp_reply
  answer_sender i l =
      memcpy_lem 6 (card.reply + 8) card.net.nic_mac (with_sender card a m) (card.reply + 14 + i)
        (ground (arith, ok.from_mac))
      ∙ ground arith
      ∙ store_word-load 4 (card.reply + 14) (a + 24) i (with_hardware card a m)
          (with_hardware card a m) l
      ∙ omega (
        arith,
        with_hardware-outside card a m (a + 24 + i) ok (ground (arith, ok.from_packet)),
        ok.bytes (a + 24 + i),
      )

  pub answer_hardware : (i : ℕ) → i < 6 → arp_reply card a m (card.reply + 18 + i) ≡ m (a + 8 + i)
  unfolding arp_reply
  answer_hardware i l =
      let x = card.reply + 18 + i in
      memcpy_lem 6 (card.reply + 8) card.net.nic_mac (with_sender card a m) x
        (ground (arith, ok.from_mac))
      ∙ ground arith
      ∙ store_word-outside 4 (card.reply + 14) (load 4 (with_hardware card a m) (a + 24))
          (with_hardware card a m) x (ground arith)
      ∙ memcpy_lem 6 (card.reply + 18) (a + 8) (with_target card a m) x
          (ground (arith, ok.from_packet))
      ∙ ground (
        arith,
        ap (with_target card a m) {x = a + 8 + (card.reply + 18 + i - (card.reply + 18))}
            {y = a + 8 + i} (omega arith),
      )
      ∙ with_target-outside card a m (a + 8 + i) (ground (arith, ok.from_packet))

  pub answer_target : (i : ℕ) → i < 4 → arp_reply card a m (card.reply + 24 + i) ≡ m (a + 14 + i)
  unfolding arp_reply
  answer_target i l =
      let x = card.reply + 24 + i in
      memcpy_lem 6 (card.reply + 8) card.net.nic_mac (with_sender card a m) x
        (ground (arith, ok.from_mac))
      ∙ ground arith
      ∙ store_word-outside 4 (card.reply + 14) (load 4 (with_hardware card a m) (a + 24))
          (with_hardware card a m) x (ground arith)
      ∙ memcpy_lem 6 (card.reply + 18) (a + 8) (with_target card a m) x
          (ground (arith, ok.from_packet))
      ∙ ground arith
      ∙ store_word-load 4 (card.reply + 24) (a + 14) i (fixed card m) (fixed card m) l
      ∙ omega (
        arith,
        fixed-outside card m (a + 14 + i) (ground (arith, ok.from_packet)),
        ok.bytes (a + 14 + i),
      )

  pub answer_outside :
      (x : ℕ) → (x < card.reply) ⊎ (card.reply + 28 ≤ x) → arp_reply card a m x ≡ m x
  unfolding arp_reply
  answer_outside x h =
      memcpy_lem 6 (card.reply + 8) card.net.nic_mac (with_sender card a m) x
        (ground (arith, ok.from_mac))
      ∙ ground arith
      ∙ with_sender-outside card a m x ok h
