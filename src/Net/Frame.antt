-- ===== src/Net/Frame.antt =====
-- The bytes of an Ethernet frame.
use mksd_old_archive.Base.{
  ℕ, zero, suc, ◌+◌, ◌-◌, ◌*◌, ◌/◌, ◌%◌, ◌^◌, ◌≤◌, ◌<◌, bit_and, bit_or, ◌≡◌, ◌⊎◌, inl, inr, refl,
  ap, ap₂, ◌∙◌, arith, ◌==◌, if◌then◌else◌, Bool-cases, List, [], ◌∷◌, ◌++◌, u32, ◌<<<◌, ◌>>>◌,
  Memory, memset, memcpy, memset_lem, memcpy_lem, store_word, store_word-outside, Disjoint,
  replicate, Holds, length,
}
use mksd_old_archive.Base.Bits.Masks.{bit_or_fields, bit_and-low_mask}
use mksd_old_archive.Net.{Env, Net, big_endian, bytes_of, ethernet_frame, ethernet_send}

pub bytes_of-shift :
    (n : ℕ) (m m' : Memory) (p q : ℕ)
    → ((i : ℕ) → i < n → m' (p + i) ≡ m (q + i))
    → bytes_of n m' p ≡ bytes_of n m q
unfolding bytes_of
bytes_of-shift zero m m' p q same = refl
bytes_of-shift (suc n) m m' p q same =
    ap₂ (λ (c : ℕ) (s : List ℕ). c ∷ s)
      (ap m' {x = p} {y = p + 0} (omega arith)
        ∙ same 0 (omega arith)
        ∙ ap m {x = q + 0} {y = q} (omega arith))
      (bytes_of-shift n m m' (p + 1) (q + 1) (λ i l.
        ap m' {x = p + 1 + i} {y = p + suc i} (omega arith)
        ∙ same (suc i) (omega arith)
        ∙ ap m {x = q + suc i} {y = q + 1 + i} (omega arith)))

-- The bytes that stand in memory.
pub bytes_of-Holds :
    (xs : List ℕ) (m : Memory) (p : ℕ) → Holds m p xs → bytes_of (length xs) m p ≡ xs
unfolding bytes_of
bytes_of-Holds [] m p h = refl
bytes_of-Holds (c ∷ xs) m p (e, h) =
    ap₂ (λ (b : ℕ) (r : List ℕ). b ∷ r) e (bytes_of-Holds xs m (p + 1) h)

-- A copy holds the bytes of its source.
pub bytes_of-memcpy :
    (n dst src : ℕ) (m : Memory)
    → Disjoint dst n src n
    → bytes_of n (memcpy dst src n m) dst ≡ bytes_of n m src
bytes_of-memcpy n dst src m apart = bytes_of-shift n m (memcpy dst src n m) dst src (λ i l.
    memcpy_lem n dst src m (dst + i) apart
    ∙ ground (arith, ap m {x = src + (dst + i - dst)} {y = src + i} (omega arith)))

pub bytes_of-add :
    (n k : ℕ) (m : Memory) (p : ℕ) → bytes_of (n + k) m p ≡ bytes_of n m p ++ bytes_of k m (p + n)
unfolding bytes_of
bytes_of-add zero k m p =
    ap (λ (t : ℕ). bytes_of t m p) {x = 0 + k} {y = k} (omega arith)
    ∙ ap (bytes_of k m) {x = p} {y = p + 0} (omega arith)
bytes_of-add (suc n) k m p =
    ap (λ (t : ℕ). bytes_of t m p) {x = suc n + k} {y = suc (n + k)} (omega arith)
    ∙ ap (λ (s : List ℕ). m p ∷ s)
        (bytes_of-add n k m (p + 1)
          ∙ ap (λ (t : ℕ). bytes_of n m (p + 1) ++ bytes_of k m t) {x = p + 1 + n} {y = p + suc n}
              (omega arith))

pub big_endian_lem : (v : ℕ) → big_endian v ≡ v % 256 * 256 + v / 256 % 256
big_endian_lem v =
    ap (λ (t : ℕ). bit_or t (bit_and (v >>> 8) 0xFF)) {x = bit_and v 0xFF <<< 8}
      {y = v % 256 * 2 ^ 8} (omega (arith, bit_and-low_mask 8 v))
    ∙ ap (bit_or (v % 256 * 2 ^ 8)) (bit_and-low_mask 8 (v >>> 8))
    ∙ bit_or_fields 8 (v % 256) (v / 256 % 256) (omega arith)

-- The two bytes of a word that is stored high byte first.
word_bytes :
    (v p : ℕ) (m : Memory)
    → bytes_of 2 (store_word 2 p (big_endian v) m) p ≡ v / 256 % 256 ∷ v % 256 ∷ []
unfolding bytes_of store_word
word_bytes v p m =
    ap₂ (λ (a b : ℕ). a ∷ b ∷ []) (ground (arith, big_endian_lem v))
      (ground (arith, big_endian_lem v))

-- The destination as it stands in the frame.
abbrev pub dest_bytes : ℕ → Memory → List ℕ
dest_bytes dest m = if dest == 0 then replicate 6 0xFF else bytes_of 6 m dest

-- No byte of the frame is one of the bytes it is made of.
pub record Separate (env : Env) (dest payload length : ℕ) : Type 0 where
  pub from_dest : (dest ≡ 0) ⊎ Disjoint env.frame (14 + length) dest 6
  pub from_mac : Disjoint env.frame (14 + length) env.nic_mac 6
  pub from_payload : Disjoint env.frame (14 + length) payload length

abbrev with_dest : Env → ℕ → Memory → Memory
with_dest env dest m = if dest == 0 then memset env.frame 0xFF 6 m else memcpy env.frame dest 6 m

abbrev with_mac : Env → ℕ → Memory → Memory
with_mac env dest m = memcpy (env.frame + 6) env.nic_mac 6 (with_dest env dest m)

abbrev with_type : Env → ℕ → ℕ → Memory → Memory
with_type env dest ethertype m =
    store_word 2 (env.frame + 12) (big_endian ethertype) (with_mac env dest m)

with_dest-outside :
    (env : Env) (dest payload length : ℕ) (m : Memory) (a : ℕ)
    → Separate env dest payload length
    → (a < env.frame) ⊎ (env.frame + 6 ≤ a)
    → with_dest env dest m a ≡ m a
with_dest-outside env dest payload length m a apart h = elim (Bool-cases (dest == 0)) [
  | inl e ↦ rw e (ground (arith, memset_lem 6 env.frame 0xFF m a))
  | inr e ↦ rw e (ground (arith, memcpy_lem 6 env.frame dest m a (ground arith)))
]

with_dest-bytes :
    (env : Env) (dest payload length : ℕ) (m : Memory)
    → Separate env dest payload length
    → bytes_of 6 (with_dest env dest m) env.frame ≡ dest_bytes dest m
with_dest-bytes env dest payload length m apart = elim (Bool-cases (dest == 0)) [
  | inl e ↦ rw e (
      bytes_of-shift 6 (λ a. 0xFF) (memset env.frame 0xFF 6 m) env.frame 0
        (λ i l. ground (arith, memset_lem 6 env.frame 0xFF m (env.frame + i)))
      ∙ (unfold bytes_of in refl))
  | inr e ↦ rw e (
      bytes_of-shift 6 m (memcpy env.frame dest 6 m) env.frame dest (λ i l.
        memcpy_lem 6 env.frame dest m (env.frame + i) (ground arith)
        ∙ ground
            (arith, ap m {x = dest + (env.frame + i - env.frame)} {y = dest + i} (omega arith))))
]

with_mac-bytes :
    (env : Env) (dest payload length : ℕ) (m : Memory)
    → Separate env dest payload length
    → bytes_of 6 (with_mac env dest m) (env.frame + 6) ≡ bytes_of 6 m env.nic_mac
with_mac-bytes env dest payload length m apart =
    bytes_of-shift 6 m (with_mac env dest m) (env.frame + 6) env.nic_mac (λ i l.
      memcpy_lem 6 (env.frame + 6) env.nic_mac (with_dest env dest m) (env.frame + 6 + i)
        (ground arith)
      ∙ ground (
        arith,
        ap (with_dest env dest m) {x = env.nic_mac + (env.frame + 6 + i - (env.frame + 6))}
            {y = env.nic_mac + i} (omega arith),
        with_dest-outside env dest payload length m (env.nic_mac + i) apart (ground arith),
      ))

with_type-outside :
    (env : Env) (dest ethertype payload length : ℕ) (m : Memory) (a : ℕ)
    → Separate env dest payload length
    → (a < env.frame) ⊎ (env.frame + 14 ≤ a)
    → with_type env dest ethertype m a ≡ m a
with_type-outside env dest ethertype payload length m a apart h =
    store_word-outside 2 (env.frame + 12) (big_endian ethertype) (with_mac env dest m) a
      (ground arith)
    ∙ memcpy_lem 6 (env.frame + 6) env.nic_mac (with_dest env dest m) a (ground arith)
    ∙ ground (arith, with_dest-outside env dest payload length m a apart (ground arith))

frame_split :
    (length : ℕ) (m : Memory) (F : ℕ)
    → bytes_of (6 + (6 + (2 + length))) m F
      ≡ bytes_of 6 m F
        ++ (bytes_of 6 m (F + 6) ++ (bytes_of 2 m (F + 12) ++ bytes_of length m (F + 14)))
frame_split length m F =
    bytes_of-add 6 (6 + (2 + length)) m F
    ∙ ap (λ (b : List ℕ). bytes_of 6 m F ++ b)
        (bytes_of-add 6 (2 + length) m (F + 6)
          ∙ ap (λ (b : List ℕ). bytes_of 6 m (F + 6) ++ b)
              (ap (bytes_of (2 + length) m) {x = F + 6 + 6} {y = F + 12} (omega arith)
                ∙ bytes_of-add 2 length m (F + 12)
                ∙ ap (λ (t : ℕ). bytes_of 2 m (F + 12) ++ bytes_of length m t) {x = F + 12 + 2}
                    {y = F + 14} (omega arith)))

-- Where the frame's block lies apart from the MAC address, the payload and the destination, if
-- there is one, and the size fits an unsigned int: `ethernet_send` sends the destination, or six
-- bytes 0xFF for a NULL destination, then the MAC address, the type with its high byte first, and
-- the payload.
pub ethernet_send-frame :
    (env : Env) (dest ethertype payload length : ℕ) (s : Net)
    → Separate env dest payload length
    → 14 + length < 2 ^ 32
    → ethertype < 2 ^ 16
    → (ethernet_send env dest ethertype payload length s).sent
      ≡ (dest_bytes dest s.memory
          ++ (bytes_of 6 s.memory env.nic_mac
              ++ ((ethertype / 256 ∷ ethertype % 256 ∷ []) ++ bytes_of length s.memory payload)))
        ∷ s.sent
unfolding ethernet_send ethernet_frame
ethernet_send-frame env dest ethertype payload length s apart small h =
    let m = s.memory in
    let F = env.frame in
    let whole = memcpy (F + 14) payload length (with_type env dest ethertype m) in
    let typed = with_type env dest ethertype m in
    let low : (a : ℕ) → a < F + 14 → whole a ≡ typed a =
      λ a l. memcpy_lem length (F + 14) payload typed a (ground arith) ∙ ground arith in
    let macs = with_mac env dest m in
    let lower : (a : ℕ) → a < F + 12 → whole a ≡ macs a = λ a l.
      low a (omega arith)
      ∙ store_word-outside 2 (F + 12) (big_endian ethertype) macs a (inl (omega arith)) in
    let dests = with_dest env dest m in
    let dest_part =
      bytes_of-shift 6 dests whole F F (λ i l.
        lower (F + i) (omega arith)
        ∙ memcpy_lem 6 (F + 6) env.nic_mac dests (F + i) (ground arith)
        ∙ ground arith)
      ∙ with_dest-bytes env dest payload length m apart in
    let mac_part =
      bytes_of-shift 6 macs whole (F + 6) (F + 6) (λ i l. lower (F + 6 + i) (omega arith))
      ∙ with_mac-bytes env dest payload length m apart in
    let type_part =
      bytes_of-shift 2 typed whole (F + 12) (F + 12) (λ i l. low (F + 12 + i) (omega arith))
      ∙ word_bytes ethertype (F + 12) macs in
    let payload_part = bytes_of-shift length m whole (F + 14) payload (λ i l.
      memcpy_lem length (F + 14) payload typed (F + 14 + i) (ground arith)
      ∙ ground (
        arith,
        ap typed {x = payload + (F + 14 + i - (F + 14))} {y = payload + i} (omega arith),
        with_type-outside env dest ethertype payload length m (payload + i) apart (ground arith),
      )) in
    let size : u32 (length + 14) ≡ 6 + (6 + (2 + length)) = omega arith in
    ap (λ (b : List ℕ). b ∷ s.sent)
      (ap (λ (n : ℕ). bytes_of n whole F) size
        ∙ frame_split length whole F
        ∙ rw (dest_part, mac_part, type_part, payload_part)
            (ap
              (λ (b : ℕ).
                dest_bytes dest m
                ++ (bytes_of 6 m env.nic_mac ++ (b ∷ ethertype % 256 ∷ bytes_of length m payload)))
              {x = ethertype / 256 % 256} {y = ethertype / 256} (omega arith)))
