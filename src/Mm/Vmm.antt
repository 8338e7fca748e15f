-- ===== src/Mm/Vmm.antt =====
-- sys/src/mm/vmm.c and sys/src/mm/mmap.c: four-level page tables. A table is reached by the
-- address that the entry above it holds, as vmm.c does. `none` is a failed ASSERT, or the NULL
-- dereference of get_bitmap_size where no entry of the memory map is usable.
pub mod Mmap
pub mod Walk
pub mod Map
pub mod Flags
mod Tests
use mksd_old_archive.Base.{
  ℕ, zero, suc, ◌+◌, ◌-◌, ◌*◌, ◌/◌, ◌%◌, ◌^◌, bit_and, bit_or, Bool, true, false, Option, none,
  some, List, ◌∷◌, ◌==◌, if◌then◌else◌, u32, u64, ◌<<<◌, ◌>>>◌, complement, Memory, load,
  store_word,
}
use mksd_old_archive.Mm.Pmm.{Pmm, pmm_alloc, align_up}

infixl 5 ◌>>=◌
abbrev pub ◌>>=◌ {ℓ κ} : {A : Type ℓ} {B : Type κ} → Option A → (A → Option B) → Option B
none >>= f = none
some a >>= f = f a

-- `flushed` holds the addresses that `invlpg` was given, the last one first.
pub record Vmm : Type 0 where
  pub pmm : Pmm
  pub flushed : List ℕ

abbrev pub pte_addr_mask : ℕ
pte_addr_mask = 0x000FFFFFFFFFF000

abbrev pub pte_present : ℕ
pte_present = 2 ^ 0

abbrev pub pte_writable : ℕ
pte_writable = 2 ^ 1

abbrev pub pte_user : ℕ
pte_user = 2 ^ 2

abbrev pub pte_nx : ℕ
pte_nx = 2 ^ 63

abbrev pub pte_get_addr : ℕ → ℕ
pte_get_addr value = bit_and value pte_addr_mask

-- The address of `table[index]`.
abbrev pub slot : ℕ → ℕ → ℕ
slot table index = u64 (table + 8 * index)

abbrev pub read_entry : ℕ → ℕ → Vmm → ℕ
read_entry table index s = load 8 s.pmm.memory (slot table index)

abbrev pub write_entry : ℕ → ℕ → ℕ → Vmm → Vmm
write_entry table index value s = record s {
  pmm = record s.pmm { memory = store_word 8 (slot table index) value s.pmm.memory };
}

unfoldable pub tlb_flush_single : ℕ → Vmm → Vmm
tlb_flush_single ptr s = record s { flushed = ptr ∷ s.flushed }

unfoldable pub get_next_level : ℕ → ℕ → Bool → Vmm → Option (ℕ × Vmm)
get_next_level pagemap index do_alloc s =
    if bit_and (read_entry pagemap index s) pte_present == 0
    then (if do_alloc
        then (do
          (next_level, pmm) ← pmm_alloc 1 s.pmm
          (if next_level == 0
              then none
              else some (
                next_level,
                write_entry pagemap index (bit_or (bit_or next_level pte_present) pte_writable)
                    (record s { pmm = pmm }),
              )))
        else some (0, s))
    else some (read_entry pagemap index s, s)

abbrev pub pml4_index : ℕ → ℕ
pml4_index vaddr = bit_and (vaddr >>> 39) 0x1FF

abbrev pub pdpt_index : ℕ → ℕ
pdpt_index vaddr = bit_and (vaddr >>> 30) 0x1FF

abbrev pub pd_index : ℕ → ℕ
pd_index vaddr = bit_and (vaddr >>> 21) 0x1FF

abbrev pub pt_index : ℕ → ℕ
pt_index vaddr = bit_and (vaddr >>> 12) 0x1FF

unfoldable pub vmm_map_page : ℕ → ℕ → ℕ → ℕ → Vmm → Option Vmm
vmm_map_page top_level vaddr paddr flags s = do
  (pdpt, s₁) ← get_next_level top_level (pml4_index vaddr) true s
  (pd, s₂) ← get_next_level pdpt (pdpt_index vaddr) true s₁
  (pt, s₃) ← get_next_level pd (pd_index vaddr) true s₂
  some (tlb_flush_single vaddr (write_entry pt (pt_index vaddr) (bit_or paddr flags) s₃))

-- The three lookups of `vmm_umap_page` and `vmm_get_phys`: the table of the page, or NULL.
unfoldable pub find_pt : ℕ → ℕ → Vmm → Option (ℕ × Vmm)
find_pt top_level vaddr s = do
  (pdpt, s₁) ← get_next_level top_level (pml4_index vaddr) false s
  (if pdpt == 0 then some (0, s₁) else (do
    (pd, s₂) ← get_next_level pdpt (pdpt_index vaddr) false s₁
    (if pd == 0 then some (0, s₂) else get_next_level pd (pd_index vaddr) false s₂)))

unfoldable pub vmm_umap_page : ℕ → ℕ → Vmm → Option Vmm
vmm_umap_page top_level vaddr s = do
  (pt, s') ← find_pt top_level vaddr s
  some (if pt == 0 then s' else tlb_flush_single vaddr (write_entry pt (pt_index vaddr) 0 s'))

unfoldable pub vmm_get_phys : ℕ → ℕ → Vmm → Option (ℕ × Vmm)
vmm_get_phys top_level vaddr s = do
  (pt, s') ← find_pt top_level vaddr s
  some ((if pt == 0 then 0 else pte_get_addr (read_entry pt (pt_index vaddr) s')), s')

-- `higher_half` is the boot loader's offset of the direct map.
unfoldable pub vmm_alloc : ℕ → ℕ → Vmm → Option (ℕ × Vmm)
vmm_alloc higher_half page_count s = do
  (phys, pmm) ← pmm_alloc page_count s.pmm
  some (u64 (phys + higher_half), record s { pmm = pmm })
