-- ===== src/Mm/Vmm/Tests.antt =====
-- Page tables in a small memory, and the theorems on vmm.c and mmap.c applied there.
use mksd_old_archive.Base.{
  ℕ, ◌+◌, ◌*◌, ◌≡◌, inl, inr, bit_and, refl, arith, some, [], ◌∷◌, if◌then◌else◌, ◌==◌, ltb, load,
  Memory,
}
use mksd_old_archive.Mm.Pmm.{
  Pmm, pmm_alloc, alloc_frames, pmm_alloc_inner, get_bitmap_size, find_highest_mem_chunk,
  highest_from, higher_chunk, bitmap_size_of, align_up, alloc_from, bitmap_test, bitmap_set_bit,
}
use mksd_old_archive.Mm.Vmm.{Vmm, vmm_map_page, vmm_get_phys}
use mksd_old_archive.Mm.Vmm.Walk.{Tables, Clear}
use mksd_old_archive.Mm.Vmm.Map.{vmm_get_phys-vmm_map_page, vmm_get_phys-vmm_map_page_other}

-- Only frames 16 and 18 are free; the tables are at 0x1000, 0x2003, 0x3003 and 0x4003.
abbrev ram : Memory
ram a =
    if a == 2
    then 0xFA
    else if ltb a 0x1000
    then 0xFF
    else if a == 0x1000
    then 3
    else if a == 0x1001
    then 0x20
    else if a == 0x2003
    then 3
    else if a == 0x2004
    then 0x30
    else if a == 0x3003
    then 3
    else if a == 0x3004
    then 0x40
    else 0

abbrev frames : Pmm
frames = record {
  entries = record { base = 0x1000000; length = 0x20000; type = 0 } ∷ [];
  bitmap = 0;
  memory = ram;
}

abbrev machine : Vmm
machine = record { pmm = frames; flushed = [] }

first-Tables : Tables 0x1000 0x5000 0x2003 0x3003 0x4003 machine
unfolding load
first-Tables = record {
  has_pdpt = refl;
  has_pd = refl;
  has_pt = refl;
  present_pdpt = omega arith;
  present_pd = omega arith;
  present_pt = omega arith;
}

second-Tables : Tables 0x1000 0x6000 0x2003 0x3003 0x4003 machine
unfolding load
second-Tables = record {
  has_pdpt = refl;
  has_pd = refl;
  has_pt = refl;
  present_pdpt = omega arith;
  present_pd = omega arith;
  present_pt = omega arith;
}

clear : Clear 0x1000 0x5000 0x2003 0x3003 (0x4003 + 8 * 5)
clear = record { of_pdpt = inl (omega arith); of_pd = inl (omega arith); of_pt = inl (omega arith) }

second-Clear : Clear 0x1000 0x6000 0x2003 0x3003 (0x4003 + 8 * 5)
second-Clear = record {
  of_pdpt = inl (omega arith);
  of_pd = inl (omega arith);
  of_pt = inl (omega arith);
}

vmm_get_phys-vmm_map_page_example :
    (s' : Vmm) × (vmm_map_page 0x1000 0x5000 0x7000 3 machine ≡ some s')
    × (vmm_get_phys 0x1000 0x5000 s' ≡ some (0x7000, s'))
    × (s'.flushed ≡ 0x5000 ∷ [])
vmm_get_phys-vmm_map_page_example =
    vmm_get_phys-vmm_map_page 0x1000 0x5000 0x7000 3 0x2003 0x3003 0x4003 machine first-Tables clear
      refl (omega arith) (omega arith)

vmm_get_phys-vmm_map_page_other_example :
    (s' : Vmm) × (phys : ℕ) × (vmm_map_page 0x1000 0x5000 0x7000 3 machine ≡ some s')
    × (vmm_get_phys 0x1000 0x6000 machine ≡ some (phys, machine))
    × (vmm_get_phys 0x1000 0x6000 s' ≡ some (phys, s'))
vmm_get_phys-vmm_map_page_other_example =
    vmm_get_phys-vmm_map_page_other 0x1000 0x5000 0x7000 3 0x2003 0x3003 0x4003 0x6000 0x2003 0x3003
      0x4003 machine first-Tables second-Tables second-Clear (inr (omega arith))

alloc_16 : pmm_alloc 1 frames ≡ some (4096 * 16, bitmap_set_bit 16 frames)
unfolding pmm_alloc alloc_frames pmm_alloc_inner get_bitmap_size find_highest_mem_chunk highest_from
    higher_chunk bitmap_size_of align_up alloc_from bitmap_test
alloc_16 = refl

absent : bit_and (load 8 ram 0x1008) 1 ≡ 0
unfolding load
absent = refl
