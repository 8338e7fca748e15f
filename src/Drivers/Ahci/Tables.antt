-- ===== src/Drivers/Ahci/Tables.antt =====
-- The command tables that the loop of init_port_single of ahci.c allocates.
use mksd_old_archive.Base.{
  ℕ, zero, suc, ◌+◌, ◌*◌, ◌^◌, ◌<◌, ◌≡◌, inl, refl, ap, ap₂, ◌∙◌, arith, some, List, [], ◌∷◌,
  length, get_or, u32, ◌>>>◌, Memory, load, store_word, load-store_word, load-store_word_apart,
  load-ext, store_word-outside, All,
}
use mksd_old_archive.Base.Layout.{member}
use mksd_old_archive.Mm.Pmm.{Pmm, pmm_alloc}
use mksd_old_archive.Drivers.Ahci.Structs.{hba_cmd_header}
use mksd_old_archive.Drivers.Ahci.Ports.{alloc_tables}

-- Single frames that the allocator gives out one after the other.
abbrev pub Allocates : List ℕ → Pmm → Pmm → Type 0
Allocates [] s s' = s ≡ s'
Allocates (p ∷ ps) s s' = (s₁ : Pmm) × (pmm_alloc 1 s ≡ some (p, s₁)) × Allocates ps s₁ s'

-- The address of the command table in the header at `h`.
abbrev pub table_at : Memory → ℕ → ℕ
table_at m h = member hba_cmd_header "ctba" m h + 2 ^ 32 * member hba_cmd_header "ctbau" m h

-- The headers from `i` on name the tables `ps`, and nothing before header `i` has changed.
pub record Names (hdr i : ℕ) (ps : List ℕ) (m m' : Memory) : Type 0 where
  pub tables : (j : ℕ) → j < length ps → table_at m' (hdr + 32 * (i + j)) ≡ get_or ps j 0
  pub before : (a : ℕ) → a < hdr + 32 * i → m' a ≡ m a

-- One round of the loop.
abbrev name_table : ℕ → ℕ → Memory → Memory
name_table h p m = store_word 4 (h + 12) (u32 (p >>> 32)) (store_word 4 (h + 8) (u32 p) m)

name_table-outside : (h p a : ℕ) (m : Memory) → a < h + 8 → name_table h p m a ≡ m a
name_table-outside h p a m l =
    store_word-outside 4 (h + 12) (u32 (p >>> 32)) (store_word 4 (h + 8) (u32 p) m) a
      (inl (omega arith))
    ∙ store_word-outside 4 (h + 8) (u32 p) m a (inl l)

table_at-name_table : (h p : ℕ) (m : Memory) → p < 2 ^ 64 → table_at (name_table h p m) h ≡ p
table_at-name_table h p m l =
    let m₁ = store_word 4 (h + 8) (u32 p) m in
    let low : load 4 (name_table h p m) (h + 8) ≡ u32 p =
      load-store_word_apart 4 4 (h + 8) (h + 12) (u32 (p >>> 32)) m₁ (inl (omega arith))
      ∙ load-store_word 4 (h + 8) (u32 p) m (omega arith) in
    let high : load 4 (name_table h p m) (h + 12) ≡ u32 (p >>> 32) =
      load-store_word 4 (h + 12) (u32 (p >>> 32)) m₁ (omega arith) in
    rw (low, high) (omega arith)

table_at-ext :
    (m m' : Memory) (h : ℕ) → ((a : ℕ) → a < h + 16 → m' a ≡ m a) → table_at m' h ≡ table_at m h
table_at-ext m m' h same =
    ap₂ (λ (x y : ℕ). x + 2 ^ 32 * y) (load-ext 4 m m' (h + 8) (λ a lo hi. same a (omega arith)))
      (load-ext 4 m m' (h + 12) (λ a lo hi. same a (omega arith)))

tables-step :
    (hdr i p : ℕ) (ps : List ℕ) (m m' : Memory)
    → p < 2 ^ 64
    → Names hdr (i + 1) ps (name_table (hdr + 32 * i) p m) m'
    → (j : ℕ) → j < suc (length ps)
    → table_at m' (hdr + 32 * (i + j)) ≡ get_or (p ∷ ps) j 0
tables-step hdr i p ps m m' l names zero lt =
    let at : hdr + 32 * (i + 0) ≡ hdr + 32 * i = omega arith in
    ap (table_at m') at
    ∙ table_at-ext (name_table (hdr + 32 * i) p m) m' (hdr + 32 * i)
        (λ a u. names.before a (omega arith))
    ∙ table_at-name_table (hdr + 32 * i) p m l
tables-step hdr i p ps m m' l names (suc j) lt =
    let at : hdr + 32 * (i + suc j) ≡ hdr + 32 * (i + 1 + j) = omega arith in
    ap (table_at m') at ∙ names.tables j (omega arith)

Names-step :
    (hdr i p : ℕ) (ps : List ℕ) (m m' : Memory)
    → p < 2 ^ 64
    → Names hdr (i + 1) ps (name_table (hdr + 32 * i) p m) m'
    → Names hdr i (p ∷ ps) m m'
Names-step hdr i p ps m m' l names = record {
  tables = tables-step hdr i p ps m m' l names;
  before =
      λ a u. names.before a (omega arith) ∙ name_table-outside (hdr + 32 * i) p a m (omega arith);
}

-- When the allocator gives out the frames `ps`, one for each header from `i` on, the loop that sets
-- the headers up ends with every one of these headers naming its own frame as the address of its
-- table, low and high word, and with the memory before header `i` as it was.
pub alloc_tables-Names :
    (ps : List ℕ) (i hdr : ℕ) (m : Memory) (pmm pmm' : Pmm)
    → All (λ p. p < 2 ^ 64) ps
    → Allocates ps pmm pmm'
    → (m' : Memory) × (alloc_tables (length ps) i hdr m pmm ≡ some (m', pmm')) × Names hdr i ps m m'
unfolding alloc_tables
alloc_tables-Names [] i hdr m pmm pmm' small e = (
  m,
  ap (λ s. some (m, s)) e,
  record { tables = λ j lt. absurd (omega arith); before = λ a u. refl },
)
alloc_tables-Names (p ∷ ps) i hdr m pmm pmm' (l, small) (s₁, e, rest) =
    let m₁ = name_table (hdr + 32 * i) p m in
    let (m', run, names) = alloc_tables-Names ps (i + 1) hdr m₁ s₁ pmm' small rest in
    (m', rw (alloc_tables, e) run, Names-step hdr i p ps m m' l names)
