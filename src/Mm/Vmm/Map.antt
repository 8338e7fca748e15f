-- ===== src/Mm/Vmm/Map.antt =====
-- Mapping, unmapping and translating one page, and a table that has just been added.
use mksd_old_archive.Base.{
  ℕ, ◌+◌, ◌*◌, ◌/◌, ◌%◌, ◌^◌, ◌<◌, bit_and, bit_or, ◌≡◌, ◌≢◌, refl, ap, ◌∙◌, arith, Bool, true,
  some, ◌∷◌, Disjoint, load-store_word,
}
use mksd_old_archive.Base.Bits.Masks.{
  bit_or_fields, bit_and-high_mask, bit_or_low_two, bit_and-low_mask,
}
use mksd_old_archive.Mm.Pmm.{Pmm, pmm_alloc}
use mksd_old_archive.Mm.Vmm.{
  Vmm, slot, read_entry, write_entry, pte_get_addr, get_next_level, pml4_index, pdpt_index,
  pd_index, pt_index, vmm_map_page, vmm_umap_page, vmm_get_phys, tlb_flush_single,
}
use mksd_old_archive.Mm.Vmm.Walk.{
  Tables, Clear, next-Tables, present-ne_zero, find_pt-Tables, Tables-write_entry,
  read_entry-write_entry_apart,
}

pub get_phys-Tables :
    (top v pdpt pd pt : ℕ) (s : Vmm)
    → Tables top v pdpt pd pt s
    → vmm_get_phys top v s ≡ some (pte_get_addr (read_entry pt (pt_index v) s), s)
unfolding vmm_get_phys
get_phys-Tables top v pdpt pd pt s t =
    rw (find_pt-Tables top v pdpt pd pt s t, present-ne_zero pt t.present_pt) refl

read_entry-write_entry :
    (table index x : ℕ) (s : Vmm)
    → x < 2 ^ 64
    → read_entry table index (write_entry table index x s) ≡ x
read_entry-write_entry table index x s h = load-store_word 8 (slot table index) x s.pmm.memory h

pte_get_addr-bit_or :
    (paddr flags : ℕ)
    → paddr % 4096 ≡ 0
    → paddr < 2 ^ 52
    → flags < 4096
    → (bit_or paddr flags < 2 ^ 64) × (pte_get_addr (bit_or paddr flags) ≡ paddr)
pte_get_addr-bit_or paddr flags aligned h l =
    let sum : bit_or paddr flags ≡ paddr + flags =
      ap (λ (t : ℕ). bit_or t flags) {x = paddr} {y = paddr / 4096 * 2 ^ 12} (omega arith)
      ∙ bit_or_fields 12 (paddr / 4096) flags l
      ∙ omega arith in
    rw sum (omega arith, bit_and-high_mask 12 40 (paddr + flags) (omega arith) ∙ omega arith)

map_page-Tables :
    (top v paddr flags pdpt pd pt : ℕ) (s : Vmm)
    → Tables top v pdpt pd pt s
    → vmm_map_page top v paddr flags s
      ≡ some (tlb_flush_single v (write_entry pt (pt_index v) (bit_or paddr flags) s))
unfolding vmm_map_page
map_page-Tables top v paddr flags pdpt pd pt s t =
    rw
      (
        next-Tables top (pml4_index v) pdpt true s t.has_pdpt t.present_pdpt,
        next-Tables pdpt (pdpt_index v) pd true s t.has_pd t.present_pd,
        next-Tables pd (pd_index v) pt true s t.has_pt t.present_pt,
      )
      refl

read_entry-flush :
    (table index a : ℕ) (s : Vmm)
    → read_entry table index (tlb_flush_single a s) ≡ read_entry table index s
unfolding tlb_flush_single
read_entry-flush table index a s = refl

Tables-flush :
    (top v pdpt pd pt a : ℕ) (s : Vmm)
    → Tables top v pdpt pd pt s
    → Tables top v pdpt pd pt (tlb_flush_single a s)
unfolding tlb_flush_single
Tables-flush top v pdpt pd pt a s t = record {
  has_pdpt = t.has_pdpt;
  has_pd = t.has_pd;
  has_pt = t.has_pt;
  present_pdpt = t.present_pdpt;
  present_pd = t.present_pd;
  present_pt = t.present_pt;
}

-- Where the three upper tables for an address are there, and the entry of its page overlaps none
-- of the entries that lead to it: mapping the address to a frame succeeds, flushes the address,
-- and its translation is then the frame.
pub vmm_get_phys-vmm_map_page :
    (top v paddr flags pdpt pd pt : ℕ) (s : Vmm)
    → Tables top v pdpt pd pt s
    → Clear top v pdpt pd (slot pt (pt_index v))
    → paddr % 4096 ≡ 0
    → paddr < 2 ^ 52
    → flags < 4096
    → (s' : Vmm) × (vmm_map_page top v paddr flags s ≡ some s')
      × (vmm_get_phys top v s' ≡ some (paddr, s'))
      × (s'.flushed ≡ v ∷ s.flushed)
vmm_get_phys-vmm_map_page top v paddr flags pdpt pd pt s t c aligned h l =
    let x = bit_or paddr flags in
    let written = write_entry pt (pt_index v) x s in
    let s' = tlb_flush_single v written in
    let (small, addr) = pte_get_addr-bit_or paddr flags aligned h l in
    let t' =
      Tables-flush top v pdpt pd pt v written
        (Tables-write_entry top v pdpt pd pt pt (pt_index v) x s t c) in
    (
      s',
      map_page-Tables top v paddr flags pdpt pd pt s t,
      get_phys-Tables top v pdpt pd pt s' t'
          ∙ ap (λ (e : ℕ). some (e, s'))
              (ap pte_get_addr (
                  read_entry-flush pt (pt_index v) v written
                  ∙ read_entry-write_entry pt (pt_index v) x s small)
                ∙ addr),
      unfold tlb_flush_single in refl,
    )

-- Where the three upper tables for two addresses are there, and the entry of the first one's page
-- overlaps neither the second one's entry nor an entry that leads to it: mapping the first one
-- succeeds and leaves the translation of the second as it was.
pub vmm_get_phys-vmm_map_page_other :
    (top v paddr flags pdpt pd pt w pdpt' pd' pt' : ℕ) (s : Vmm)
    → Tables top v pdpt pd pt s
    → Tables top w pdpt' pd' pt' s
    → Clear top w pdpt' pd' (slot pt (pt_index v))
    → Disjoint (slot pt' (pt_index w)) 8 (slot pt (pt_index v)) 8
    → (s' : Vmm) × (phys : ℕ) × (vmm_map_page top v paddr flags s ≡ some s')
      × (vmm_get_phys top w s ≡ some (phys, s))
      × (vmm_get_phys top w s' ≡ some (phys, s'))
vmm_get_phys-vmm_map_page_other top v paddr flags pdpt pd pt w pdpt' pd' pt' s t u c apart =
    let x = bit_or paddr flags in
    let written = write_entry pt (pt_index v) x s in
    let s' = tlb_flush_single v written in
    let u' =
      Tables-flush top w pdpt' pd' pt' v written
        (Tables-write_entry top w pdpt' pd' pt' pt (pt_index v) x s u c) in
    (
      s',
      pte_get_addr (read_entry pt' (pt_index w) s),
      map_page-Tables top v paddr flags pdpt pd pt s t,
      get_phys-Tables top w pdpt' pd' pt' s u,
      get_phys-Tables top w pdpt' pd' pt' s' u'
          ∙ ap (λ (e : ℕ). some (pte_get_addr e, s'))
              (read_entry-flush pt' (pt_index w) v written
                ∙ read_entry-write_entry_apart pt' (pt_index w) pt (pt_index v) x s apart),
    )

-- Where the three upper tables for an address are there, and the entry of its page overlaps none
-- of the entries that lead to it: unmapping the address succeeds and flushes it, and its
-- translation is then 0.
pub vmm_get_phys-vmm_umap_page :
    (top v pdpt pd pt : ℕ) (s : Vmm)
    → Tables top v pdpt pd pt s
    → Clear top v pdpt pd (slot pt (pt_index v))
    → (s' : Vmm) × (vmm_umap_page top v s ≡ some s')
      × (vmm_get_phys top v s' ≡ some (0, s'))
      × (s'.flushed ≡ v ∷ s.flushed)
unfolding vmm_umap_page
vmm_get_phys-vmm_umap_page top v pdpt pd pt s t c =
    let written = write_entry pt (pt_index v) 0 s in
    let s' = tlb_flush_single v written in
    let t' =
      Tables-flush top v pdpt pd pt v written
        (Tables-write_entry top v pdpt pd pt pt (pt_index v) 0 s t c) in
    (
      s',
      rw (find_pt-Tables top v pdpt pd pt s t, present-ne_zero pt t.present_pt) refl,
      get_phys-Tables top v pdpt pd pt s' t'
          ∙ ap (λ (e : ℕ). some (pte_get_addr e, s'))
              (read_entry-flush pt (pt_index v) v written
                ∙ read_entry-write_entry pt (pt_index v) 0 s (omega arith)),
      unfold tlb_flush_single in refl,
    )

-- `get_next_level` where the entry is not present and a frame is free: it returns the frame's
-- address and enters the frame. Called again, it returns the entry, which is 3 above that address.
pub get_next_level-get_next_level :
    (pagemap index frame : ℕ) (do_alloc : Bool) (s : Vmm) (pmm : Pmm)
    → bit_and (read_entry pagemap index s) 1 ≡ 0
    → pmm_alloc 1 s.pmm ≡ some (4096 * frame, pmm)
    → 0 < frame
    → 4096 * frame < 2 ^ 64
    → (s' : Vmm) × (get_next_level pagemap index true s ≡ some (4096 * frame, s'))
      × (get_next_level pagemap index do_alloc s' ≡ some (4096 * frame + 3, s'))
unfolding get_next_level
get_next_level-get_next_level pagemap index frame do_alloc s pmm absent got pos small =
    let entry : bit_or (bit_or (4096 * frame) 1) 2 ≡ 4096 * frame + 3 =
      bit_or_low_two (4096 * frame) (omega arith) in
    let s' = write_entry pagemap index (4096 * frame + 3) (record s { pmm = pmm }) in
    let stored =
      read_entry-write_entry pagemap index (4096 * frame + 3) (record s { pmm = pmm })
        (omega arith) in
    let odd : bit_and (4096 * frame + 3) 1 ≢ 0 =
      omega (arith, bit_and-low_mask 1 (4096 * frame + 3)) in
    (
      s',
      rw (absent, got, entry) (ground arith),
      next-Tables pagemap index (4096 * frame + 3) do_alloc s' stored odd,
    )
