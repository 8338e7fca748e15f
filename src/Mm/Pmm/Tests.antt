-- ===== src/Mm/Pmm/Tests.antt =====
-- Runs of pmm.c at concrete memory maps, and its theorems applied there.
use mksd_old_archive.Base.{
  memset, ◌*◌, ◌/◌, ◌%◌, ◌≡◌, ◌≢◌, ◌⊎◌, ◌≤◌, ◌↔◌, refl, arith, some, List, [], ◌∷◌, if◌then◌else◌,
  ◌==◌,
}
use mksd_old_archive.Mm.Pmm.{
  Pmm, Entry, find_highest_mem_chunk, highest_from, higher_chunk, bitmap_size_of, align_up,
  get_bitmap_size, place_bitmap, bitmap_set_bit, bitmap_test, alloc_from, pmm_alloc_inner,
  alloc_frames, pmm_alloc, release_all, init_bitmap,
}
use mksd_old_archive.Mm.Pmm.Bitmap.{is_free}
use mksd_old_archive.Mm.Pmm.Alloc.{Undone, pmm_free-pmm_alloc}
use mksd_old_archive.Mm.Pmm.Frames.{Call, lowest, take, give, step as spec_step, run as spec_run}
use mksd_old_archive.Mm.Pmm.Refine.{run, contents, run-Refines}
use mksd_old_archive.Mm.Pmm.Init.{in_some_entry, is_free-init_bitmap, bitmap_size_of_covers}

-- A reserved entry, and one of 32 pages that ends at 0x1020000.
abbrev reserved : Entry
reserved = record { base = 0x2000000; length = 0x1000; type = 1 }

abbrev chunk : Entry
chunk = record { base = 0x1000000; length = 0x20000; type = 0 }

abbrev memory_map : List Entry
memory_map = reserved ∷ chunk ∷ []

abbrev cut_map : List Entry
cut_map = reserved ∷ record { base = 0x1001000; length = 0x1F000; type = 0 } ∷ []

-- Only frames 16 and 18 are free.
abbrev two_free : Pmm
two_free = record { entries = memory_map; bitmap = 0; memory = λ a. if a == 2 then 0xFA else 0xFF }

size_of_map : get_bitmap_size memory_map ≡ some 4096
unfolding get_bitmap_size find_highest_mem_chunk highest_from higher_chunk bitmap_size_of align_up
size_of_map = refl

place_in_map : place_bitmap 4096 memory_map ≡ (some 0x1000000, cut_map)
unfolding place_bitmap
place_in_map = refl

alloc_16 : pmm_alloc 1 two_free ≡ some (0x10000, bitmap_set_bit 16 two_free)
unfolding pmm_alloc alloc_frames pmm_alloc_inner get_bitmap_size find_highest_mem_chunk highest_from
    higher_chunk bitmap_size_of align_up alloc_from bitmap_test
alloc_16 = refl

booted : Pmm
booted =
    release_all 4096 cut_map (record {
      entries = cut_map;
      bitmap = 0x1000000;
      memory = memset 0x1000000 0xFF 4096 (λ a. 0);
    })

boots : init_bitmap 0 (record two_free { memory = λ a. 0 }) ≡ some booted
unfolding init_bitmap get_bitmap_size find_highest_mem_chunk highest_from higher_chunk
    bitmap_size_of align_up place_bitmap booted
boots = refl

is_free-init_bitmap_example : is_free 0x1001 booted ≡ in_some_entry 4096 cut_map 0x1001
is_free-init_bitmap_example =
    is_free-init_bitmap 0 4096 0x1000000 0x1001 (record two_free { memory = λ a. 0 }) booted cut_map
      size_of_map place_in_map (omega arith) (omega arith) boots

pmm_free-pmm_alloc_example : Undone 0x10000 16 two_free (bitmap_set_bit 16 two_free)
pmm_free-pmm_alloc_example =
    pmm_free-pmm_alloc two_free (bitmap_set_bit 16 two_free) 4096 0x10000 16 size_of_map alloc_16
      (omega arith)

bitmap_size_of_covers_example :
    (4128 ≤ bitmap_size_of chunk * 8) ↔ ((4128 / 8 % 0x1000 ≢ 0) ⊎ (4128 % 8 ≡ 0))
bitmap_size_of_covers_example = bitmap_size_of_covers chunk (omega arith)

-- Two frames are taken, a third call finds none, one frame comes back and is taken again.
abbrev calls : List Call
calls = Call.alloc 1 ∷ Call.alloc 2 ∷ Call.alloc 1 ∷ Call.free 0x12000 1 ∷ Call.alloc 1 ∷ []

calls_answers :
    (spec_run (4096 * 8) calls (contents two_free)).0 ≡ 0x10000 ∷ 0x12000 ∷ 0 ∷ 0 ∷ 0x12000 ∷ []
unfolding spec_run spec_step lowest take give bitmap_test
calls_answers = refl

run-Refines_example :
    (s' : Pmm) × (run calls two_free ≡ some ((spec_run (4096 * 8) calls (contents two_free)).0, s'))
    × (contents s' ≡ (spec_run (4096 * 8) calls (contents two_free)).1)
    × (get_bitmap_size s'.entries ≡ some 4096)
run-Refines_example =
    run-Refines 4096 calls two_free size_of_map (tt, (tt, (tt, (omega arith, (tt, tt)))))
