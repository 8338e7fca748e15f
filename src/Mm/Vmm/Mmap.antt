-- ===== src/Mm/Vmm/Mmap.antt =====
-- sys/src/mm/mmap.c: k_mmap and its helpers.
use mksd_old_archive.Base.{
  ℕ, zero, suc, ◌+◌, ◌-◌, ◌^◌, bit_and, bit_or, Bool, Option, none, some, true, false, ltb, ◌==◌,
  if◌then◌else◌, u32, u64, complement,
}
use mksd_old_archive.Mm.Pmm.{pmm_alloc, align_up}
use mksd_old_archive.Mm.Vmm.{
  Vmm, ◌>>=◌, pte_nx, pte_present, pte_writable, pte_user, vmm_alloc, vmm_map_page,
}

abbrev pub prot_exec : ℕ
prot_exec = 2 ^ 0

abbrev pub prot_read : ℕ
prot_read = 2 ^ 1

abbrev pub prot_write : ℕ
prot_write = 2 ^ 2

abbrev pub prot_user : ℕ
prot_user = 2 ^ 3

abbrev pub asks : ℕ → ℕ → Bool
asks prot flag = if bit_and prot flag == 0 then false else true

unfoldable pub prot_to_pte_flags : ℕ → ℕ
prot_to_pte_flags prot =
    let f₀ = pte_nx in
    let f₁ = if asks prot prot_exec then bit_and f₀ (complement 64 pte_nx) else f₀ in
    let f₂ = if asks prot prot_read then bit_or f₁ pte_present else f₁ in
    let f₃ = if asks prot prot_write then bit_or f₂ pte_writable else f₂ in
    if asks prot prot_user then bit_or f₃ pte_user else f₃

-- A 64-bit word passed as an `int` and then as a 64-bit word again: the low half, its sign
-- extended.
unfoldable pub through_int : ℕ → ℕ
through_int flags = let low = u32 flags in if ltb low (2 ^ 31) then low else low + (2 ^ 64 - 2 ^ 32)

-- `pte_flags` is the `int` that `map_pages` takes, as `vmm_map_page` is given it.
unfoldable pub map_pages : ℕ → ℕ → ℕ → ℕ → Vmm → Option Vmm
map_pages top_level vaddr zero pte_flags s = some s
map_pages top_level vaddr (suc n_pages) pte_flags s = do
  (paddr, pmm) ← pmm_alloc 1 s.pmm
  (if paddr == 0 then none else (do
    s' ← vmm_map_page top_level (align_up vaddr 4096) paddr pte_flags (record s { pmm = pmm })
    map_pages top_level (u64 (vaddr + 4096)) n_pages pte_flags s'))

-- `addr` 0 is NULL; `top_level` is what `cr3` holds.
unfoldable pub k_mmap : ℕ → ℕ → ℕ → ℕ → ℕ → Vmm → Option (ℕ × Vmm)
k_mmap higher_half top_level addr n_pages prot s = do
  (addr', s₁) ← (if addr == 0 then vmm_alloc higher_half n_pages s else some (addr, s))
  (if addr' == 0 then none else (do
    s₂ ← map_pages top_level addr' n_pages (through_int (prot_to_pte_flags prot)) s₁
    some (addr', s₂)))
