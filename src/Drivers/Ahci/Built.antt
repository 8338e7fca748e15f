-- ===== src/Drivers/Ahci/Built.antt =====
-- The command that prep_rw_op of ahci.c builds, and what the HBA reads of it.
use mksd_old_archive.Base.{
  ℕ, zero, suc, ◌+◌, ◌*◌, ◌/◌, ◌%◌, ◌^◌, ◌≤◌, ◌<◌, ◌≡◌, ◌⊎◌, inl, inr, refl, ap₂, ◌∙◌, arith, Bool,
  true, ◌&&◌, bit_and, bit_or, ◌==◌, u8, u64, ◌<<<◌, Memory, store_word, store_word-outside, load,
  load-ext, load-store_word, memzero, memzero_lem, Disjoint, all_below, all_below_at,
}
use mksd_old_archive.Drivers.Ahci.Command.{
  set_field, build_header, table_of, build_prdt, build_fis, build_command,
}
use mksd_old_archive.Drivers.Ahci.Fis.{
  IsFis, build_fis-IsFis, build_fis-outside, IsPrdt, IsPrdt-ext, build_prdt-IsPrdt,
  build_prdt-outside,
}

build_header-outside :
    (hdr write a : ℕ) (m : Memory) → (a < hdr) ⊎ (hdr + 4 ≤ a) → build_header hdr write m a ≡ m a
unfolding build_header set_field
build_header-outside hdr write a m h =
    ground (arith, store_word-outside 2 (hdr + 2) 1 m a (ground arith))

-- The first byte of a header after its three fields are set.
abbrev header_byte : ℕ → ℕ → ℕ
header_byte v write =
    let a = bit_or (bit_and (u8 v) 224) 5 in
    let b = bit_or (bit_and (u8 a) 191) (write % 2 * 64) in bit_or (bit_and (u8 b) 127) 0

abbrev fields_hold : ℕ → ℕ → Bool
fields_hold write v = (header_byte v write % 32 == 5) && (header_byte v write / 64 == write)

header_byte-fields :
    (write v : ℕ)
    → write < 2
    → v < 256
    → (header_byte v write % 32 ≡ 5) × (header_byte v write / 64 ≡ write)
unfolding all_below
header_byte-fields zero v l k =
    let h = all_below_at 256 v (fields_hold 0) refl k in (ground arith, ground arith)
header_byte-fields (suc zero) v l k =
    let h = all_below_at 256 v (fields_hold 1) refl k in (ground arith, ground arith)
header_byte-fields (suc (suc write)) v l k = absurd (omega arith)

build_header-byte :
    (hdr write : ℕ) (m : Memory) → build_header hdr write m hdr ≡ header_byte (u8 (m hdr)) write
unfolding build_header set_field
build_header-byte hdr write m =
    let self : hdr == hdr ≡ true = ground arith in
    let twice : m hdr % 256 % 256 ≡ m hdr % 256 = omega arith in
    rw (self, store_word-outside 2 (hdr + 2) 1 m hdr (inl (omega arith)), twice) refl

-- The header at `hdr` names one entry, a command of five words, and the direction.
pub record IsHeader (m : Memory) (hdr write : ℕ) : Type 0 where
  pub prdtl : load 2 m (hdr + 2) ≡ 1
  pub cfl : m hdr % 32 ≡ 5
  pub w : m hdr / 64 ≡ write

build_header-IsHeader :
    (hdr write : ℕ) (m : Memory) → write < 2 → IsHeader (build_header hdr write m) hdr write
build_header-IsHeader hdr write m l =
    let (five, direction) = header_byte-fields write (u8 (m hdr)) l (omega arith) in
    let byte = build_header-byte hdr write m in
    record {
      prdtl =
          load-ext 2 (store_word 2 (hdr + 2) 1 m) (build_header hdr write m) (hdr + 2)
            (λ a lo hi. unfold build_header set_field in ground arith)
          ∙ load-store_word 2 (hdr + 2) 1 m (omega arith);
      cfl = rw byte five;
      w = rw byte direction;
    }

-- The table lies below the top of memory and apart from the header.
pub record Placed (higher_half hdr : ℕ) (m : Memory) : Type 0 where
  pub below : table_of hdr m + higher_half + 152 < 2 ^ 64
  pub apart : Disjoint hdr 32 (table_of hdr m + higher_half) 152

table_of-build_header :
    (hdr write : ℕ) (m : Memory) → table_of hdr (build_header hdr write m) ≡ table_of hdr m
unfolding table_of
table_of-build_header hdr write m =
    let same : (a : ℕ) → hdr + 8 ≤ a → build_header hdr write m a ≡ m a =
      λ a lo. build_header-outside hdr write a m (inr (omega arith)) in
    ap₂ (λ (x y : ℕ). bit_or (u64 (x <<< 32)) y)
      (load-ext 4 m (build_header hdr write m) (hdr + 12) (λ a lo hi. same a (omega arith)))
      (load-ext 4 m (build_header hdr write m) (hdr + 8) (λ a lo hi. same a lo))

-- Where the table that a header names has its place: after `prep_rw_op` has built a command for 1 to
-- 255 sectors, the HBA finds in the header one table entry, a command of five words and the
-- direction, in the entry the buffer and its size, and in the command FIS the operation, the block
-- address and the number of sectors that were asked for.
pub build_command-IsFis :
    (higher_half hdr lba buf n write : ℕ) (m : Memory)
    → Placed higher_half hdr m
    → lba < 2 ^ 48
    → buf < 2 ^ 64
    → 0 < n
    → n < 256
    → write < 2
    → IsHeader (build_command higher_half hdr lba buf n write m) hdr write
      × IsPrdt
          (build_command higher_half hdr lba buf n write m)
          (table_of hdr m + higher_half)
          buf
          n
      × IsFis
          (build_command higher_half hdr lba buf n write m)
          (table_of hdr m + higher_half)
          lba
          n
          write
unfolding build_command
build_command-IsFis higher_half hdr lba buf n write m placed small_lba small pos l dir =
    let t = table_of hdr m + higher_half in
    let m₁ = build_header hdr write m in
    let m₂ = memzero t 152 m₁ in
    let m₃ = build_prdt t buf n m₂ in
    let whole = build_fis t lba n write m₃ in
    let at : u64 (table_of hdr m₁ + higher_half) ≡ t =
      omega (arith, table_of-build_header hdr write m, placed.below) in
    let kept : (a : ℕ) → hdr ≤ a → a < hdr + 32 → whole a ≡ m₁ a = λ a lo hi.
      build_fis-outside t lba n write a m₃ (ground (arith, placed.apart))
      ∙ build_prdt-outside t buf n a m₂ (ground (arith, placed.apart))
      ∙ memzero_lem 152 t m₁ a
      ∙ ground (arith, placed.apart) in
    let header = build_header-IsHeader hdr write m dir in
    let blank : m₃ (t + 1) ≡ 0 =
      build_prdt-outside t buf n (t + 1) m₂ (inl (omega arith))
      ∙ memzero_lem 152 t m₁ (t + 1)
      ∙ ground arith in
    rw at (
      record {
        prdtl =
            load-ext 2 m₁ whole (hdr + 2) (λ a lo hi. kept a (omega arith) (omega arith))
            ∙ header.prdtl;
        cfl = rw (kept hdr (omega arith) (omega arith)) header.cfl;
        w = rw (kept hdr (omega arith) (omega arith)) header.w;
      },
      IsPrdt-ext m₃ whole t buf n
          (λ a lo hi. build_fis-outside t lba n write a m₃ (inr (omega arith)))
          (build_prdt-IsPrdt t buf n m₂ small pos l),
      build_fis-IsFis t lba n write m₃ blank small_lba (omega arith),
    )
