-- ===== src/Net/Message.antt =====
-- ICMP messages and their checksums, and the wait for an ARP reply.
use mksd_old_archive.Base.{
  ℕ, zero, suc, ◌+◌, ◌-◌, ◌*◌, ◌%◌, ◌^◌, ◌≤◌, ◌<◌, ◌≡◌, ◌↔◌, inl, inr, refl, ap, ◌∙◌, arith, Bool,
  true, false, some, Bool-cases, u8, u64, Memory, store, memcpy, memcpy_lem, store_word,
  store_word-outside, Disjoint,
}
use mksd_old_archive.Net.Checksum.{convert}
use mksd_old_archive.Net.Checksum.Sum.{words_sum, internet_checksum_lem, convert_lem}
use mksd_old_archive.Net.{
  Env, Net, bytes_of, ethernet_send, arp_request, wait_packet, arp_spin, arp_resolve, ethertype_arp,
  icmp_message,
}
use mksd_old_archive.Net.Frame.{bytes_of-shift}

words_sum-ext :
    (count : ℕ) (m m' : Memory) (w : ℕ)
    → ((a : ℕ) → w ≤ a → a < w + count → m' a ≡ m a)
    → words_sum count m' w ≡ words_sum count m w
unfolding words_sum
words_sum-ext zero m m' w same = refl
words_sum-ext (suc zero) m m' w same = refl
words_sum-ext (suc (suc count)) m m' w same = omega (
  arith,
  same w (omega arith) (omega arith),
  same (w + 1) (omega arith) (omega arith),
  words_sum-ext count m m' (w + 2) (λ a l u. same a (omega arith) (omega arith)),
)

-- The word at `p`, high byte first.
abbrev pub word_at : Memory → ℕ → ℕ
word_at m p = 256 * u8 (m p) + u8 (m (p + 1))

words_sum-four :
    (length : ℕ) (m : Memory) (w : ℕ)
    → words_sum (4 + length) m w
      ≡ word_at m w + (word_at m (w + 2) + words_sum length m (w + 2 + 2))
unfolding words_sum
words_sum-four length m w =
    ap (λ (t : ℕ). words_sum t m w) {x = 4 + length} {y = suc (suc (suc (suc length)))}
      (omega arith)
    ∙ omega arith

stored_word : (m : Memory) (p c : ℕ) → c < 2 ^ 16 → word_at (store_word 2 p c m) p ≡ convert c
unfolding store_word
stored_word m p c h = ground (arith, convert_lem c)

-- A store of a checksum in the second word of a block exchanges that word in the sum.
words_sum-store_word :
    (length : ℕ) (m : Memory) (hdr c : ℕ)
    → c < 2 ^ 16
    → words_sum (4 + length) (store_word 2 (hdr + 2) c m) hdr + word_at m (hdr + 2)
      ≡ convert c + words_sum (4 + length) m hdr
words_sum-store_word length m hdr c h =
    let m' = store_word 2 (hdr + 2) c m in
    omega (
      arith,
      words_sum-four length m hdr,
      words_sum-four length m' hdr,
      stored_word m (hdr + 2) c h,
      store_word-outside 2 (hdr + 2) c m hdr (inl (omega arith)),
      store_word-outside 2 (hdr + 2) c m (hdr + 1) (inl (omega arith)),
      words_sum-ext length m m' (hdr + 2 + 2)
          (λ a l u. store_word-outside 2 (hdr + 2) c m a (inr (omega arith))),
    )

-- For an ICMP message of at most 65536 bytes whose payload lies apart from it, the message is
-- built, and its words add up with the word that the block held in the place of the checksum to a
-- multiple of 65535.
pub icmp_message-words_sum :
    (hdr type code payload length : ℕ) (m : Memory)
    → 4 + length ≤ 65536
    → Disjoint (hdr + 4) length payload length
    → (m' : Memory) × (icmp_message hdr type code payload length m ≡ some m')
      × ((words_sum (4 + length) m' hdr + word_at m (hdr + 2)) % 65535 ≡ 0)
unfolding icmp_message
icmp_message-words_sum hdr type code payload length m small apart =
    let m₀ = store (hdr + 1) code (store hdr type m) in
    let m₁ = memcpy (hdr + 4) payload length m₀ in
    let (c, run, low, sum) = internet_checksum_lem m₁ hdr (4 + length) small in
    let size : u64 (4 + length) ≡ 4 + length = omega arith in
    let old : word_at m₁ (hdr + 2) ≡ word_at m (hdr + 2) = ground (
      arith,
      memcpy_lem length (hdr + 4) payload m₀ (hdr + 2) apart,
      memcpy_lem length (hdr + 4) payload m₀ (hdr + 2 + 1) apart,
    ) in
    (
      store_word 2 (hdr + 2) c m₁,
      rw (size, run, icmp_message) refl,
      omega (arith, words_sum-store_word length m₁ hdr c low),
    )

later :
    (polls : ℕ → Bool) (spin i : ℕ)
    → polls i ≡ false
    → (j : ℕ) × (j < suc spin) × (polls (i + j) ≡ true)
    → (j : ℕ) × (j < spin) × (polls (i + 1 + j) ≡ true)
later polls spin i e (zero, l, q) =
    absurd (ground (arith, ap polls {x = i + 0} {y = i} (omega arith)))
later polls spin i e (suc j, l, q) =
    (j, omega arith, ap polls {x = i + 1 + j} {y = i + suc j} (omega arith) ∙ q)

-- The wait for a packet succeeds exactly if one of the calls of rtl8139_got_packet that it has
-- left says that a packet is there.
pub wait_packet_iff :
    (polls : ℕ → Bool) (spin i : ℕ)
    → (wait_packet polls spin i ≡ true) ↔ ((j : ℕ) × (j < spin) × (polls (i + j) ≡ true))
unfolding wait_packet
wait_packet_iff polls zero i = ((λ e. absurd (ground arith)), λ p. absurd (omega (arith, p.1)))
wait_packet_iff polls (suc spin) i =
    let (found, finds) = wait_packet_iff polls spin (i + 1) in
    elim (Bool-cases (polls i)) [
      | inl e ↦
          rw (e, wait_packet)
            ((λ h. (0, omega arith, ap polls {x = i + 0} {y = i} (omega arith) ∙ e)), λ p. refl)
      | inr e ↦
          rw (e, wait_packet)
            (
              (λ h.
                  let (j, l, q) = found h in
                  (suc j, omega arith, ap polls {x = i + suc j} {y = i + 1 + j} (omega arith) ∙ q)),
              λ p. finds (later polls spin i e p),
            )
    ]

-- Where a packet arrives in time and the block for the address lies apart from it: `arp_resolve`
-- returns that block, with the six bytes that stand at offset 22 of the packet, whatever the rest
-- of the packet is.
pub arp_resolve-received :
    (env : Env) (target j : ℕ) (s : Net)
    → j < arp_spin
    → env.polls j ≡ true
    → Disjoint env.arp_mac 6 (env.received + 22) 6
    → (s' : Net) × (arp_resolve env target s ≡ (env.arp_mac, s'))
      × (bytes_of 6 s'.memory env.arp_mac
          ≡ bytes_of 6
              (env.arrive
                (ethernet_send env
                  (env.arp_packet + 18)
                  ethertype_arp
                  env.arp_packet
                  28
                  (record s { memory = arp_request env target s.memory })).memory)
              (env.received + 22))
unfolding arp_resolve
arp_resolve-received env target j s l e apart =
    let m₃ =
      env.arrive
        (ethernet_send env (env.arp_packet + 18) ethertype_arp env.arp_packet 28
          (record s { memory = arp_request env target s.memory })).memory in
    let waited : wait_packet env.polls arp_spin 0 ≡ true =
      (wait_packet_iff env.polls arp_spin 0).1
        (j, l, ap env.polls {x = 0 + j} {y = j} (omega arith) ∙ e) in
    let s₂ =
      ethernet_send env (env.arp_packet + 18) ethertype_arp env.arp_packet 28
        (record s { memory = arp_request env target s.memory }) in
    (
      record s₂ { memory = memcpy env.arp_mac (env.received + 14 + 8) 6 m₃ },
      rw (waited, arp_resolve) refl,
      bytes_of-shift 6 m₃ (memcpy env.arp_mac (env.received + 14 + 8) 6 m₃) env.arp_mac
          (env.received + 22)
          (λ i k.
            memcpy_lem 6 env.arp_mac (env.received + 14 + 8) m₃ (env.arp_mac + i) (ground arith)
            ∙ ground (
              arith,
              ap m₃ {x = env.received + 14 + 8 + (env.arp_mac + i - env.arp_mac)}
                  {y = env.received + 22 + i} (omega arith),
            )),
    )
