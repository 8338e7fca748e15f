-- ===== src/Mm/Vmm/Walk.antt =====
-- Translation of an address whose three upper tables are there.
use mksd_old_archive.Base.{
  ℕ, zero, suc, bit_and, ◌≡◌, ◌≢◌, refl, ap, ◌∙◌, arith, Bool, false, some, ◌==◌, Disjoint,
  load-store_word_apart,
}
use mksd_old_archive.Mm.Vmm.{
  Vmm, slot, read_entry, write_entry, get_next_level, pml4_index, pdpt_index, pd_index, find_pt,
}

pub get_next_level-present :
    (pagemap index : ℕ) (do_alloc : Bool) (s : Vmm)
    → bit_and (read_entry pagemap index s) 1 ≢ 0
    → get_next_level pagemap index do_alloc s ≡ some (read_entry pagemap index s, s)
unfolding get_next_level
get_next_level-present pagemap index do_alloc s h = ground arith

-- The tables that the walk for `v` passes are there: the entries that it reads are present.
pub record Tables (top v pdpt pd pt : ℕ) (s : Vmm) : Type 0 where
  pub has_pdpt : read_entry top (pml4_index v) s ≡ pdpt
  pub has_pd : read_entry pdpt (pdpt_index v) s ≡ pd
  pub has_pt : read_entry pd (pd_index v) s ≡ pt
  pub present_pdpt : bit_and pdpt 1 ≢ 0
  pub present_pd : bit_and pd 1 ≢ 0
  pub present_pt : bit_and pt 1 ≢ 0

pub next-Tables :
    (pagemap index next : ℕ) (do_alloc : Bool) (s : Vmm)
    → read_entry pagemap index s ≡ next
    → bit_and next 1 ≢ 0
    → get_next_level pagemap index do_alloc s ≡ some (next, s)
next-Tables pagemap index next do_alloc s e h =
    get_next_level-present pagemap index do_alloc s (ground arith) ∙ ap (λ (t : ℕ). some (t, s)) e

pub present-ne_zero : (x : ℕ) → bit_and x 1 ≢ 0 → (x == 0) ≡ false
present-ne_zero zero h = absurd (h refl)
present-ne_zero (suc x) h = ground arith

pub find_pt-Tables :
    (top v pdpt pd pt : ℕ) (s : Vmm) → Tables top v pdpt pd pt s → find_pt top v s ≡ some (pt, s)
unfolding find_pt
find_pt-Tables top v pdpt pd pt s t =
    rw
      (
        next-Tables top (pml4_index v) pdpt false s t.has_pdpt t.present_pdpt,
        present-ne_zero pdpt t.present_pdpt,
        next-Tables pdpt (pdpt_index v) pd false s t.has_pd t.present_pd,
        present-ne_zero pd t.present_pd,
      )
      (next-Tables pd (pd_index v) pt false s t.has_pt t.present_pt)

-- The entry at `a` overlaps none of the three entries that lead to the last table.
pub record Clear (top v pdpt pd a : ℕ) : Type 0 where
  pub of_pdpt : Disjoint (slot top (pml4_index v)) 8 a 8
  pub of_pd : Disjoint (slot pdpt (pdpt_index v)) 8 a 8
  pub of_pt : Disjoint (slot pd (pd_index v)) 8 a 8

pub read_entry-write_entry_apart :
    (p i table index x : ℕ) (s : Vmm)
    → Disjoint (slot p i) 8 (slot table index) 8
    → read_entry p i (write_entry table index x s) ≡ read_entry p i s
read_entry-write_entry_apart p i table index x s h =
    load-store_word_apart 8 8 (slot p i) (slot table index) x s.pmm.memory h

pub Tables-write_entry :
    (top v pdpt pd pt table index x : ℕ) (s : Vmm)
    → Tables top v pdpt pd pt s
    → Clear top v pdpt pd (slot table index)
    → Tables top v pdpt pd pt (write_entry table index x s)
Tables-write_entry top v pdpt pd pt table index x s t c = record {
  has_pdpt = read_entry-write_entry_apart top (pml4_index v) table index x s c.of_pdpt ∙ t.has_pdpt;
  has_pd = read_entry-write_entry_apart pdpt (pdpt_index v) table index x s c.of_pd ∙ t.has_pd;
  has_pt = read_entry-write_entry_apart pd (pd_index v) table index x s c.of_pt ∙ t.has_pt;
  present_pdpt = t.present_pdpt;
  present_pd = t.present_pd;
  present_pt = t.present_pt;
}
