-- ===== src/Drivers/Ahci/Fis.antt =====
-- What the HBA reads of a command that prep_rw_op of ahci.c has built.
use mksd_old_archive.Base.{
  ℕ, ◌+◌, ◌-◌, ◌*◌, ◌/◌, ◌%◌, ◌^◌, ◌≤◌, ◌<◌, ◌≡◌, ◌⊎◌, inl, ap, ◌∙◌, arith, bit_and, bit_or,
  if◌then◌else◌, ◌==◌, u8, u32, ◌>>>◌, Memory, store, store_word, store_word-outside,
  load-store_word, load-store_word_apart, load, load-ext,
}
use mksd_old_archive.Drivers.Ahci.Command.{set_field, build_prdt, build_fis}

-- The block address and the sector count of the command FIS at `t`.
abbrev pub lba_of : Memory → ℕ → ℕ
lba_of m t =
    u8 (m (t + 4))
    + 2 ^ 8 * u8 (m (t + 5))
    + 2 ^ 16 * u8 (m (t + 6))
    + 2 ^ 24 * u8 (m (t + 8))
    + 2 ^ 32 * u8 (m (t + 9))
    + 2 ^ 40 * u8 (m (t + 10))

abbrev pub count_of : Memory → ℕ → ℕ
count_of m t = u8 (m (t + 12)) + 2 ^ 8 * u8 (m (t + 13))

-- A register FIS from the host with the command bit set, which asks for `n` sectors from `lba` on.
pub record IsFis (m : Memory) (t lba n write : ℕ) : Type 0 where
  pub fis_type : m t ≡ 0x27
  pub is_command : m (t + 1) ≡ 0x80
  pub command : m (t + 2) ≡ (if write == 0 then 0x25 else 0x35)
  pub sets_lba : lba_of m t ≡ lba
  pub device : m (t + 7) ≡ 64
  pub sets_count : count_of m t ≡ n

pub build_fis-IsFis :
    (t lba n write : ℕ) (m : Memory)
    → m (t + 1) ≡ 0
    → lba < 2 ^ 48
    → n < 2 ^ 16
    → IsFis (build_fis t lba n write m) t lba n write
unfolding build_fis set_field
build_fis-IsFis t lba n write m clear l k =
    let m' = build_fis t lba n write m in
    let m₂ = store (t + 2) (if write == 0 then 0x25 else 0x35) (store t 0x27 m) in
    let blank : m₂ (t + 1) ≡ 0 = ground arith in
    let lba0 : m' (t + 4) ≡ u8 lba = ground arith in
    let lba1 : m' (t + 5) ≡ u8 (lba >>> 8) = ground arith in
    let lba2 : m' (t + 6) ≡ u8 (lba >>> 16) = ground arith in
    let lba3 : m' (t + 8) ≡ u8 (lba >>> 24) = ground arith in
    let lba4 : m' (t + 9) ≡ u8 (lba >>> 32) = ground arith in
    let lba5 : m' (t + 10) ≡ u8 (lba >>> 40) = ground arith in
    let countl : m' (t + 12) ≡ u8 n = ground arith in
    let counth : m' (t + 13) ≡ u8 (n >>> 8) = ground arith in
    record {
      fis_type = ground arith;
      is_command = ground (arith, ap (λ (v : ℕ). bit_or (bit_and (v % 256) 127) 128) blank);
      command = ground arith;
      sets_lba = omega (arith, lba0, lba1, lba2, lba3, lba4, lba5);
      device = ground arith;
      sets_count = omega (arith, countl, counth);
    }

pub build_fis-outside :
    (t lba n write a : ℕ) (m : Memory) → (a < t) ⊎ (t + 14 ≤ a) → build_fis t lba n write m a ≡ m a
unfolding build_fis set_field
build_fis-outside t lba n write a m h = ground arith

-- The entry of the table at `t` names a buffer of `n` sectors.
pub record IsPrdt (m : Memory) (t buf n : ℕ) : Type 0 where
  pub dba : load 4 m (t + 128) ≡ buf % 2 ^ 32
  pub dbau : load 4 m (t + 132) ≡ buf / 2 ^ 32
  pub dbc : load 4 m (t + 140) + 1 ≡ 512 * n

pub IsPrdt-ext :
    (m m' : Memory) (t buf n : ℕ)
    → ((a : ℕ) → t + 128 ≤ a → a < t + 144 → m' a ≡ m a)
    → IsPrdt m t buf n
    → IsPrdt m' t buf n
IsPrdt-ext m m' t buf n same h = record {
  dba = load-ext 4 m m' (t + 128) (λ a lo hi. same a (omega arith) (omega arith)) ∙ h.dba;
  dbau = load-ext 4 m m' (t + 132) (λ a lo hi. same a (omega arith) (omega arith)) ∙ h.dbau;
  dbc =
      omega
        (arith, load-ext 4 m m' (t + 140) (λ a lo hi. same a (omega arith) (omega arith)), h.dbc);
}

pub build_prdt-IsPrdt :
    (t buf n : ℕ) (m : Memory)
    → buf < 2 ^ 64
    → 0 < n
    → n < 256
    → IsPrdt (build_prdt t buf n m) t buf n
unfolding build_prdt set_field
build_prdt-IsPrdt t buf n m small pos l =
    let m₁ = store_word 4 (t + 128) (u32 buf) m in
    let m₂ = store_word 4 (t + 132) (u32 (buf >>> 32)) m₁ in
    let dbc = u32 (n * 512 + 2 ^ 32 - 1) in
    let m₃ = store_word 4 (t + 140) dbc m₂ in
    IsPrdt-ext m₃ (build_prdt t buf n m) t buf n (λ a lo hi. ground arith)
      (record {
        dba =
            load-store_word_apart 4 4 (t + 128) (t + 140) dbc m₂ (inl (omega arith))
            ∙ load-store_word_apart 4 4 (t + 128) (t + 132) (u32 (buf >>> 32)) m₁
                (inl (omega arith))
            ∙ load-store_word 4 (t + 128) (u32 buf) m (omega arith);
        dbau =
            load-store_word_apart 4 4 (t + 132) (t + 140) dbc m₂ (inl (omega arith))
            ∙ load-store_word 4 (t + 132) (u32 (buf >>> 32)) m₁ (omega arith)
            ∙ omega arith;
        dbc = omega (arith, load-store_word 4 (t + 140) dbc m₂ (omega arith));
      })

pub build_prdt-outside :
    (t buf n a : ℕ) (m : Memory) → (a < t + 128) ⊎ (t + 149 ≤ a) → build_prdt t buf n m a ≡ m a
unfolding build_prdt set_field
build_prdt-outside t buf n a m h =
    let m₁ = store_word 4 (t + 128) (u32 buf) m in
    let m₂ = store_word 4 (t + 132) (u32 (buf >>> 32)) m₁ in
    ground (
      arith,
      store_word-outside 4 (t + 140) (u32 (n * 512 + 2 ^ 32 - 1)) m₂ a (ground arith),
      store_word-outside 4 (t + 132) (u32 (buf >>> 32)) m₁ a (ground arith),
      store_word-outside 4 (t + 128) (u32 buf) m a (ground arith),
    )
