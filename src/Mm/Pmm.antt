-- ===== src/Mm/Pmm.antt =====
-- sys/src/mm/pmm.c: the physical memory manager. The state is the boot loader's memory map, the
-- bitmap pointer, and the memory that the pointer reaches; `none` is a null dereference.
pub mod Bitmap
pub mod Alloc
pub mod Init
pub mod Frames
pub mod Refine
mod Tests
use mksd_old_archive.Base.{
  ℕ, zero, suc, ◌+◌, ◌-◌, ◌*◌, ◌/◌, ◌%◌, ◌^◌, bit_and, bit_or, Bool, true, false, ◌&&◌, Option,
  none, some, List, [], ◌∷◌, ltb, leb, ◌==◌, if◌then◌else◌, u8, u64, ◌<<<◌, complement, sub64,
  Memory, store, memset,
}

-- `struct limine_memmap_entry`
pub record Entry : Type 0 where
  pub base : ℕ
  pub length : ℕ
  pub type : ℕ

abbrev pub usable : ℕ
usable = 0

pub record Pmm : Type 0 where
  pub entries : List Entry
  pub bitmap : ℕ
  pub memory : Memory

-- `bitmap[bit / 8]`
abbrev pub byte_of : Pmm → ℕ → ℕ
byte_of s bit = s.memory (s.bitmap + bit / 8)

unfoldable pub bitmap_set_bit : ℕ → Pmm → Pmm
bitmap_set_bit bit s = record s {
  memory = store (s.bitmap + bit / 8) (u8 (bit_or (byte_of s bit) (2 ^ (bit % 8)))) s.memory;
}

unfoldable pub bitmap_unset_bit : ℕ → Pmm → Pmm
bitmap_unset_bit bit s = record s {
  memory =
      store (s.bitmap + bit / 8) (u8 (bit_and (byte_of s bit) (complement 32 (2 ^ (bit % 8)))))
        s.memory;
}

unfoldable pub bitmap_test : ℕ → Pmm → ℕ
bitmap_test bit s = u8 (bit_and (byte_of s bit) (2 ^ (bit % 8)))

-- One round of the loop: the usable entry with the highest base so far.
unfoldable pub higher_chunk : Option Entry → Entry → Option Entry
higher_chunk chunk entry =
    if entry.type == usable
    then (elim chunk [
      | none ↦ some entry
      | some c ↦ if ltb c.base entry.base then some entry else some c
    ])
    else chunk

unfoldable pub highest_from : Option Entry → List Entry → Option Entry
highest_from chunk [] = chunk
highest_from chunk (entry ∷ rest) = highest_from (higher_chunk chunk entry) rest

unfoldable pub find_highest_mem_chunk : List Entry → Option Entry
find_highest_mem_chunk entries = highest_from none entries

-- `ALIGN_UP(address, align)` of lib/math.h, on `size_t`.
unfoldable pub align_up : ℕ → ℕ → ℕ
align_up address align =
    bit_and (u64 (u64 (address + align) + 2 ^ 64 - 1)) (complement 64 (align - 1))

unfoldable pub bitmap_size_of : Entry → ℕ
bitmap_size_of highest = align_up (u64 (highest.base + highest.length) / 0x1000 / 8) 0x1000

unfoldable pub get_bitmap_size : List Entry → Option ℕ
get_bitmap_size entries = elim (find_highest_mem_chunk entries) [
  | none ↦ none
  | some highest ↦ some (bitmap_size_of highest)
]

-- The test by which both loops of `init_bitmap` choose an entry.
abbrev pub holds : ℕ → Entry → Bool
holds size entry = (entry.type == usable) && leb size entry.length

-- The first entry that holds the bitmap loses its first `size` bytes to it.
unfoldable pub place_bitmap : ℕ → List Entry → Option ℕ × List Entry
place_bitmap size [] = (none, [])
place_bitmap size (entry ∷ rest) =
    let (at, rest') = place_bitmap size rest in
    if holds size entry
    then (
      some entry.base,
      record entry { base = u64 (entry.base + size); length = sub64 entry.length size } ∷ rest,
    )
    else (at, entry ∷ rest')

-- `for (j; j < length; j += 0x1000) bitmap_unset_bit((base + j)/0x1000)`, on fuel.
unfoldable pub release_entry : ℕ → Entry → ℕ → Pmm → Pmm
release_entry zero entry j s = s
release_entry (suc fuel) entry j s =
    let rest =
      release_entry fuel entry (u64 (j + 0x1000))
        (bitmap_unset_bit (u64 (entry.base + j) / 0x1000) s) in
    if ltb j entry.length then rest else s

abbrev pub rounds : Entry → ℕ
rounds entry = entry.length / 0x1000 + 1

unfoldable pub release_all : ℕ → List Entry → Pmm → Pmm
release_all size [] s = s
release_all size (entry ∷ rest) s =
    release_all size rest (if holds size entry then release_entry (rounds entry) entry 0 s else s)

-- `higher_half` is the boot loader's offset of the direct map.
unfoldable pub init_bitmap : ℕ → Pmm → Option Pmm
init_bitmap higher_half s = elim (get_bitmap_size s.entries) [
  | none ↦ none
  | some size ↦
      let (at, entries') = place_bitmap size s.entries in
      let s' : Pmm = elim at [
        | none ↦ record s { entries = entries' }
        | some base ↦
            let p = u64 (base + higher_half) in
            record { entries = entries'; bitmap = p; memory = memset p 0xFF size s.memory }
      ] in
      some (release_all size entries' s')
]

-- `response` is what the boot loader answered; the pointer starts as NULL.
unfoldable pub pmm_init : ℕ → List Entry → (ℕ → ℕ) → Option Pmm
pmm_init higher_half response memory =
    init_bitmap higher_half (record { entries = response; bitmap = 0; memory = memory })

-- The loop of `pmm_alloc_inner` from `bit`, with `n` rounds left.
unfoldable pub alloc_from : ℕ → ℕ → Pmm → ℕ × Pmm
alloc_from zero bit s = (0, s)
alloc_from (suc n) bit s =
    let rest = alloc_from n (bit + 1) s in
    if bitmap_test bit s == 0 then (u64 (0x1000 * bit), bitmap_set_bit bit s) else rest

unfoldable pub pmm_alloc_inner : Pmm → Option (ℕ × Pmm)
pmm_alloc_inner s = elim (get_bitmap_size s.entries) [
  | none ↦ none
  | some size ↦ some (alloc_from (u64 (size * 8)) 0 s)
]

-- The loop of `pmm_alloc` with `frames` rounds left and `mem` as it stands.
unfoldable pub alloc_frames : ℕ → ℕ → Pmm → Option (ℕ × Pmm)
alloc_frames zero mem s = some (mem, s)
alloc_frames (suc frames) mem s = elim (if mem == 0 then pmm_alloc_inner s else some (mem, s)) [
  | none ↦ none
  | some (mem', s') ↦ elim (mem' == 0) [ true ↦ some (0, s') | false ↦ alloc_frames frames mem' s' ]
]

unfoldable pub pmm_alloc : ℕ → Pmm → Option (ℕ × Pmm)
pmm_alloc frames s = alloc_frames frames 0 s

unfoldable pub pmm_free : ℕ → ℕ → Pmm → Pmm
pmm_free ptr zero s = s
pmm_free ptr (suc frames) s =
    pmm_free (u64 (ptr + 0x1000)) frames (bitmap_unset_bit (ptr / 0x1000) s)
