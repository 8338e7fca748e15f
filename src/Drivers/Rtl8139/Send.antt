-- ===== src/Drivers/Rtl8139/Send.antt =====
-- rtl8139_send_packet of rtl8139.c: which buffer it takes, and what the card finds there.
use mksd_old_archive.Base.{
  ℕ, zero, suc, ◌+◌, ◌-◌, ◌*◌, ◌%◌, ◌^◌, ◌≤◌, ◌<◌, ◌≡◌, ◌≢◌, ◌⊎◌, ◌↔◌, inl, inr, refl, ap, ◌∙◌, sym,
  arith, true, Bool, not, false, Bool-cases, Option, none, some, bit_and, ◌==◌, ltb, if◌then◌else◌,
  u32, u64, Disjoint, memcpy_lem, memzero_lem, memcpy, memzero, ◌∷◌, sub64, ==_iff,
}
use mksd_old_archive.Arch.Ports.{Access, Log}
use mksd_old_archive.Net.{bytes_of}
use mksd_old_archive.Net.Frame.{bytes_of-shift}
use mksd_old_archive.Base.Outcome.{Outcome}
use mksd_old_archive.Drivers.Rtl8139.{
  Card, Nic, port, in32, find_txbuf, fill_txbuf, rtl8139_send_packet, packet_size_max,
}
use mksd_old_archive.Drivers.Rtl8139.Invariant.{find_txbuf-IsFound}

-- A card whose transmit status does not change while the driver looks.
abbrev pub IsSteady : Card → (ℕ → ℕ) → Type 0
IsSteady card regs = (log : Log) (p : ℕ) → card.board.ports log p ≡ regs p

-- The status of a transmit buffer has the bit TX_STATUS_OWN.
abbrev pub is_own : (ℕ → ℕ) → Nic → ℕ → Bool
is_own regs s k = not (bit_and (u32 (regs (port (0x10 + k * 4) s))) 0x2000 == 0)

-- What the scan ends with, from round `i` over `n` rounds: the first buffer that the card has given
-- back, or none.
abbrev pub IsFirst : (ℕ → ℕ) → Nic → ℕ → ℕ → Option ℕ → Type 0
IsFirst regs s n i o =
    ((o ≡ none) × ((j : ℕ) → i ≤ j → j < i + n → is_own regs s ((s.next_txbuf + j) % 4) ≡ false))
    ⊎ ((k : ℕ) × (i ≤ k)
        × (k < i + n)
        × (o ≡ some ((s.next_txbuf + k) % 4))
        × (is_own regs s ((s.next_txbuf + k) % 4) ≡ true)
        × ((j : ℕ) → i ≤ j → j < k → is_own regs s ((s.next_txbuf + j) % 4) ≡ false))

IsFirst-suc :
    (regs : ℕ → ℕ) (s : Nic) (n i : ℕ) (o : Option ℕ)
    → is_own regs s ((s.next_txbuf + i) % 4) ≡ false
    → IsFirst regs s n (i + 1) o
    → IsFirst regs s (suc n) i o
IsFirst-suc regs s n i o busy (inl (e, all)) = inl (
  e,
  λ j l u. elim (Bool-cases (j == i)) [
    | inl h ↦ ap (λ (t : ℕ). is_own regs s ((s.next_txbuf + t) % 4)) ((==_iff j i).0 h) ∙ busy
    | inr h ↦ all j (ground arith) (omega arith)
  ],
)
IsFirst-suc regs s n i o busy (inr (k, l, u, e, own, before)) = inr (
  k,
  omega arith,
  omega arith,
  e,
  own,
  λ j l' u'. elim (Bool-cases (j == i)) [
    | inl h ↦ ap (λ (t : ℕ). is_own regs s ((s.next_txbuf + t) % 4)) ((==_iff j i).0 h) ∙ busy
    | inr h ↦ before j (ground arith) u'
  ],
)

find_txbuf-IsFirst :
    (card : Card) (regs : ℕ → ℕ) (n i : ℕ) (s : Nic)
    → IsSteady card regs
    → s.next_txbuf + i + n < 2 ^ 64
    → IsFirst regs s n i (find_txbuf card n i s).0
unfolding find_txbuf
find_txbuf-IsFirst card regs zero i s steady small = inl (refl, λ j l u. absurd (omega arith))
find_txbuf-IsFirst card regs (suc n) i s steady small =
    let k = (s.next_txbuf + i) % 4 in
    let same : u64 (s.next_txbuf + i) % 4 ≡ k = omega arith in
    let (status, s₁) = in32 card (0x10 + k * 4) s in
    rw same (elim (Bool-cases (bit_and status 0x2000 == 0)) [
      | inl e ↦ rw e (
          IsFirst-suc regs s n i _ (rw (sym (steady s.intr.log (port (0x10 + k * 4) s)), e) refl)
            (find_txbuf-IsFirst card regs n (i + 1) s₁ steady (omega arith)))
      | inr e ↦ rw e (
          inr (
            i,
            omega arith,
            omega arith,
            refl,
            rw (sym (steady s.intr.log (port (0x10 + k * 4) s)), e) refl,
            λ j l u. absurd (omega arith),
          ))
    ])

-- The driver's transmit buffer number `hwbuf`, in the direct map.
abbrev pub txbuf : Card → ℕ → Nic → ℕ
txbuf card hwbuf s = s.txbufs hwbuf + card.higher_half

-- A packet is padded to 60 bytes.
abbrev pub padded : ℕ → ℕ
padded size = if ltb size 60 then 60 else size

-- The packet fits a buffer, which lies below the top of memory and apart from the packet.
pub record Room (card : Card) (packet size hwbuf : ℕ) (s : Nic) : Type 0 where
  pub below : txbuf card hwbuf s + 0x600 < 2 ^ 64
  pub fits : size ≤ 0x600
  pub apart : Disjoint (txbuf card hwbuf s) 0x600 packet size

-- The buffer holds the packet, memory outside the buffer is as before, and the last access tells
-- the card the size.
pub record Filled (card : Card) (packet size hwbuf : ℕ) (s s' : Nic) : Type 0 where
  pub bytes : bytes_of size s'.memory (txbuf card hwbuf s) ≡ bytes_of size s.memory packet
  pub outside :
      (a : ℕ)
      → (a < txbuf card hwbuf s) ⊎ (txbuf card hwbuf s + 0x600 ≤ a)
      → s'.memory a ≡ s.memory a
  pub told : (log : Log) × (s'.intr.log ≡ Access.outl (port (0x10 + hwbuf * 4) s) size ∷ log)

fill_txbuf-Filled :
    (card : Card) (packet size hwbuf : ℕ) (s : Nic)
    → Room card packet size hwbuf s
    → Filled card packet size hwbuf s (fill_txbuf card packet size hwbuf s)
unfolding fill_txbuf
fill_txbuf-Filled card packet size hwbuf s room =
    let dst = txbuf card hwbuf s in
    let rest = sub64 packet_size_max size in
    let small : rest ≡ 0x600 - size = ground arith in
    let addr : u64 dst ≡ dst = omega arith in
    let m₁ = memzero dst rest s.memory in
    let untouched : (a : ℕ) → (a < dst) ⊎ (dst + 0x600 ≤ a) → m₁ a ≡ s.memory a =
      λ a h. ground (arith, memzero_lem rest dst s.memory a) in
    rw addr (record {
      bytes = bytes_of-shift size s.memory (memcpy dst packet size m₁) dst packet (λ i l.
          memcpy_lem size dst packet m₁ (dst + i) (ground arith)
          ∙ ground (
            arith,
            ap m₁ {x = packet + (dst + i - dst)} {y = packet + i} (omega arith),
            untouched (packet + i) (ground arith),
          ));
      outside =
          λ a h. memcpy_lem size dst packet m₁ a (ground arith) ∙ ground (arith, untouched a h);
      told = (
        s.intr.log,
        ap (λ (v : ℕ). Access.outl (port (0x10 + hwbuf * 4) s) v ∷ s.intr.log) {x = u32 size}
            {y = size} (omega arith),
      );
    })

-- Buffer `k` after the next one is the first that the card has given back.
pub record FirstOwn (regs : ℕ → ℕ) (s : Nic) (k : ℕ) : Type 0 where
  pub below : k < 4
  pub own : is_own regs s ((s.next_txbuf + k) % 4) ≡ true
  pub before : (j : ℕ) → j < k → is_own regs s ((s.next_txbuf + j) % 4) ≡ false

IsFirst-FirstOwn :
    (regs : ℕ → ℕ) (s : Nic) (k : ℕ) (o : Option ℕ)
    → FirstOwn regs s k
    → IsFirst regs s 4 0 o
    → o ≡ some ((s.next_txbuf + k) % 4)
IsFirst-FirstOwn regs s k o first (inl (e, all)) =
    absurd (ground (arith, all k (omega arith) (omega (arith, first.below)), first.own))
IsFirst-FirstOwn regs s k o first (inr (i, l, u, e, own, before)) = elim (Bool-cases (i == k)) [
  | inl h ↦ e ∙ ap (λ (t : ℕ). some ((s.next_txbuf + t) % 4)) ((==_iff i k).0 h)
  | inr h ↦ elim (Bool-cases (ltb i k)) [
    | inl h' ↦ absurd (ground (arith, first.before i (ground arith)))
    | inr h' ↦ absurd (ground (arith, before k (omega arith) (ground arith), first.own))
  ]
]

-- The driver takes the first buffer, from the next one on, that the card has given back, where the
-- status registers do not change meanwhile. Where the buffer has room, apart from the packet, it
-- then holds the packet, padded to 60 bytes with what follows it; no memory outside the buffer
-- changes, the card is told the size, and the buffer behind is the next one.
pub rtl8139_send_packet-Filled :
    (card : Card) (regs : ℕ → ℕ) (packet size k : ℕ) (s : Nic)
    → IsSteady card regs
    → s.iobase ≢ 0
    → s.next_txbuf < 4
    → FirstOwn regs s k
    → Room card packet (padded size) ((s.next_txbuf + k) % 4) s
    → (s' : Nic) × (rtl8139_send_packet card packet size s ≡ Outcome.done s')
      × (s'.next_txbuf ≡ (s.next_txbuf + k + 1) % 4)
      × Filled card packet (padded size) ((s.next_txbuf + k) % 4) s s'
unfolding rtl8139_send_packet
rtl8139_send_packet-Filled card regs packet size k s steady base next first room =
    let h = (s.next_txbuf + k) % 4 in
    let found =
      IsFirst-FirstOwn regs s k _ first (find_txbuf-IsFirst card regs 4 0 s steady (omega arith)) in
    let (intr, same, _) = find_txbuf-IsFound card 4 0 s in
    let taken : Nic = record s { intr = intr; next_txbuf = (h + 1) % 4 } in
    let filled =
      fill_txbuf-Filled card packet (padded size) h taken
        (record { below = room.below; fits = room.fits; apart = room.apart }) in
    let known : s.iobase == 0 ≡ false = ground arith in
    (
      fill_txbuf card packet (padded size) h taken,
      rw (known, found, same) refl,
      unfold fill_txbuf in omega arith,
      record { bytes = filled.bytes; outside = filled.outside; told = filled.told },
    )

-- Where the status registers do not change while it looks, the driver reads outside its array of
-- buffers exactly when it has a card and the card has given none of the four buffers back.
pub rtl8139_send_packet-undefined :
    (card : Card) (regs : ℕ → ℕ) (packet size : ℕ) (s : Nic)
    → IsSteady card regs
    → s.next_txbuf < 4
    → (rtl8139_send_packet card packet size s ≡ Outcome.undefined)
      ↔ ((s.iobase ≢ 0) × ((k : ℕ) → k < 4 → is_own regs s k ≡ false))
unfolding rtl8139_send_packet
rtl8139_send_packet-undefined card regs packet size s steady next =
    elim (Bool-cases (s.iobase == 0)) [
      | inl e ↦ rw e ((λ h. absurd (ground arith)), (λ h. absurd (ground (arith, h.0))))
      | inr e ↦ elim (find_txbuf-IsFirst card regs 4 0 s steady (omega arith)) [
        | inl (found, all) ↦
            rw (e, found)
              (
                (λ h. (
                  ground arith,
                  λ k l.
                      ap (is_own regs s) {x = k}
                        {y = (s.next_txbuf + (k + 4 - s.next_txbuf) % 4) % 4} (omega arith)
                      ∙ all ((k + 4 - s.next_txbuf) % 4) (omega arith) (omega arith),
                )),
                (λ h. refl),
              )
        | inr (k, l, u, found, own, before) ↦
            rw (e, found)
              (
                (λ h. absurd (ground arith)),
                (λ h. absurd (ground (arith, h.1 ((s.next_txbuf + k) % 4) (omega arith), own))),
              )
      ]
    ]
