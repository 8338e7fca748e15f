-- ===== src/Mm/Pmm/Init.antt =====
-- init_bitmap of pmm.c: the size of the bitmap, and which frames it leaves free.
use mksd_old_archive.Base.{
  memset, memset_lem, ℕ, zero, suc, ◌+◌, ◌-◌, ◌*◌, ◌/◌, ◌%◌, ◌^◌, ◌≤◌, ◌<◌, ◌≡◌, ◌≢◌, ◌⊎◌, refl,
  ◌∙◌, arith, Bool, true, false, if◌then◌else◌, inl, inr, Bool-cases, Option, some, none, ◌&&◌,
  ◌||◌, leb, ltb, u64, List, [], ◌∷◌, ◌↔◌,
}
use mksd_old_archive.Mm.Pmm.{
  Pmm, Entry, usable, holds, rounds, find_highest_mem_chunk, highest_from, higher_chunk,
  bitmap_size_of, get_bitmap_size, bitmap_unset_bit, byte_of, place_bitmap, release_entry,
  release_all, init_bitmap,
}
use mksd_old_archive.Base.Bits.{bit, bit-complement, bit-zero_num}
use mksd_old_archive.Mm.Pmm.Bitmap.{is_free, is_free-unset, test_as_bit}
use mksd_old_archive.Mm.Pmm.Alloc.{align_up_page}

-- The frames of an entry, one to each step of 4096 bytes from its base.
abbrev pub in_entry : Entry → ℕ → Bool
in_entry e f = leb (e.base / 0x1000) f && ltb ((f - e.base / 0x1000) * 0x1000) e.length

-- No address of the entry wraps, and neither does the step past its end.
abbrev pub Fits : Entry → Type 0
Fits e = e.base + e.length + 0x1000 < 2 ^ 64

release_entry-step :
    (fuel j f : ℕ) (e : Entry) (s : Pmm)
    → Fits e
    → j % 0x1000 ≡ 0
    → e.length < j + fuel * 0x1000
    → is_free f (release_entry fuel e j s) ≡ (
        if leb ((e.base + j) / 0x1000) f && ltb ((f - e.base / 0x1000) * 0x1000) e.length
        then true
        else is_free f s)
unfolding release_entry
release_entry-step zero j f e s fits at h = ground arith
release_entry-step (suc fuel) j f e s fits at h = elim (Bool-cases (ltb j e.length)) [
  | inl more ↦
      let here : u64 (e.base + j) ≡ e.base + j = ground arith in
      let next : u64 (j + 0x1000) ≡ j + 0x1000 = ground arith in
      rw (more, here, next)
        (ground (
          arith,
          is_free-unset ((e.base + j) / 0x1000) f s,
          release_entry-step fuel (j + 0x1000) f e (bitmap_unset_bit ((e.base + j) / 0x1000) s),
        ))
  | inr done ↦ ground arith
]

pub is_free-release_entry :
    (f : ℕ) (e : Entry) (s : Pmm)
    → Fits e
    → is_free f (release_entry (rounds e) e 0 s) ≡ (if in_entry e f then true else is_free f s)
is_free-release_entry f e s fits = ground (arith, release_entry-step (rounds e) 0 f e s)

-- Whether one of the entries that are large enough has the frame.
pub in_some_entry : ℕ → List Entry → ℕ → Bool
in_some_entry size [] f = false
in_some_entry size (e ∷ rest) f = (holds size e && in_entry e f) || in_some_entry size rest f

abbrev pub AllFit : List Entry → Type 0
AllFit [] = Unit
AllFit (e ∷ rest) = Fits e × AllFit rest

is_free-release_all :
    (size f : ℕ) (entries : List Entry) (s : Pmm)
    → AllFit entries
    → is_free f (release_all size entries s)
      ≡ (if in_some_entry size entries f then true else is_free f s)
unfolding release_all in_some_entry
is_free-release_all size f [] s fits = refl
is_free-release_all size f (e ∷ rest) s (fits, more) = elim (Bool-cases (holds size e)) [
  | inl h ↦ rw h (
      ground (
        arith,
        is_free-release_all size f rest (release_entry (rounds e) e 0 s) more,
        is_free-release_entry f e s fits,
      ))
  | inr h ↦ rw h (is_free-release_all size f rest s more)
]

abbrev base_of : Option Entry → ℕ
base_of none = 0
base_of (some c) = c.base

abbrev is_chosen : Option Entry → Bool
is_chosen none = false
is_chosen (some c) = true

-- Every usable entry has at most the base of the chosen one, which is there if any is usable.
abbrev IsHighest : Option Entry → List Entry → Type 0
IsHighest chunk [] = Unit
IsHighest chunk (e ∷ rest) =
    (e.type ≡ usable → (e.base ≤ base_of chunk) × (is_chosen chunk ≡ true)) × IsHighest chunk rest

-- A later choice has no lower base, and is not withdrawn.
abbrev Above : Option Entry → Option Entry → Type 0
Above old new = (base_of old ≤ base_of new) × (is_chosen old ≡ true → is_chosen new ≡ true)

higher_chunk-Above :
    (chunk : Option Entry) (e : Entry)
    → Above chunk (higher_chunk chunk e)
      × (e.type ≡ usable
          → (e.base ≤ base_of (higher_chunk chunk e)) × (is_chosen (higher_chunk chunk e) ≡ true))
unfolding higher_chunk
higher_chunk-Above none e = ((ground arith, ground arith), λ u. (ground arith, ground arith))
higher_chunk-Above (some c) e = ((ground arith, ground arith), λ u. (ground arith, ground arith))

highest_from-Above :
    (chunk : Option Entry) (entries : List Entry)
    → Above chunk (highest_from chunk entries) × IsHighest (highest_from chunk entries) entries
unfolding highest_from
highest_from-Above chunk [] = ((omega arith, λ h. h), tt)
highest_from-Above chunk (e ∷ rest) =
    let ((b, c), usable_below) = higher_chunk-Above chunk e in
    let ((b', c'), below) = highest_from-Above (higher_chunk chunk e) rest in
    (
      (omega arith, λ h. c' (c h)),
      ((λ u. (omega (arith, (usable_below u).0), c' (usable_below u).1)), below),
    )

abbrev pub In : Entry → List Entry → Type 0
In c [] = ⊥
In c (e ∷ rest) = (c ≡ e) ⊎ In c rest

abbrev IsUsableOf : Option Entry → List Entry → Type 0
IsUsableOf chunk entries = (c : Entry) × (chunk ≡ some c) × (c.type ≡ usable) × In c entries

higher_chunk-cases :
    (chunk : Option Entry) (e : Entry)
    → (higher_chunk chunk e ≡ chunk) ⊎ ((higher_chunk chunk e ≡ some e) × (e.type ≡ usable))
unfolding higher_chunk
higher_chunk-cases none e = ground arith
higher_chunk-cases (some c) e = ground arith

highest_from-IsUsableOf :
    (chunk : Option Entry) (entries : List Entry)
    → (highest_from chunk entries ≡ chunk) ⊎ IsUsableOf (highest_from chunk entries) entries
unfolding highest_from
highest_from-IsUsableOf chunk [] = inl refl
highest_from-IsUsableOf chunk (e ∷ rest) =
    elim (highest_from-IsUsableOf (higher_chunk chunk e) rest) [
      | inr (c, found, u, i) ↦ inr (c, found, u, inr i)
      | inl kept ↦ elim (higher_chunk-cases chunk e) [
        | inl old ↦ inl (kept ∙ old)
        | inr (new, u) ↦ inr (e, kept ∙ new, u, inl refl)
      ]
    ]

-- `find_highest_mem_chunk` returns a usable entry of the map if there is one, none of the usable
-- entries has a higher base, and it returns nothing only when no entry is usable.
find_highest_mem_chunk-IsHighest :
    (entries : List Entry)
    → ((find_highest_mem_chunk entries ≡ none)
        ⊎ IsUsableOf (find_highest_mem_chunk entries) entries)
      × IsHighest (find_highest_mem_chunk entries) entries
unfolding find_highest_mem_chunk
find_highest_mem_chunk-IsHighest entries =
    (highest_from-IsUsableOf none entries, (highest_from-Above none entries).1)

-- The bitmap has a bit for every whole frame below the top of the highest usable entry, except
-- where these frames are not a multiple of eight and the byte count already fills whole pages.
pub bitmap_size_of_covers :
    (e : Entry)
    → e.base + e.length < 2 ^ 64
    → ((e.base + e.length) / 0x1000 ≤ bitmap_size_of e * 8)
      ↔ (((e.base + e.length) / 0x1000 / 8 % 0x1000 ≢ 0) ⊎ ((e.base + e.length) / 0x1000 % 8 ≡ 0))
unfolding bitmap_size_of
bitmap_size_of_covers e h =
    let top : (e.base + e.length) % 2 ^ 64 ≡ e.base + e.length = omega arith in
    let size = align_up_page ((e.base + e.length) % 2 ^ 64 / 0x1000 / 8) (omega arith) in
    (λ c. ground (arith, top, size), λ c. ground (arith, top, size))

bit-ones : (k : ℕ) → k < 8 → bit 0xFF k ≡ 1
bit-ones k h = omega (arith, bit-complement 8 0 k (omega arith) h, bit-zero_num k)

-- `memset(bitmap, 0xFF, size)` takes every frame that the bitmap covers.
is_free-memset :
    (p size f : ℕ) (entries : List Entry) (m : ℕ → ℕ)
    → f / 8 < size
    → is_free f (record { entries = entries; bitmap = p; memory = memset p 0xFF size m }) ≡ false
is_free-memset p size f entries m h =
    let s : Pmm = record { entries = entries; bitmap = p; memory = memset p 0xFF size m } in
    let byte : byte_of s f ≡ 0xFF = ground (arith, memset_lem size p 0xFF m (p + f / 8)) in
    ground (arith, test_as_bit f s, byte, bit-ones (f % 8))

-- After `init_bitmap` a frame that the bitmap covers is free exactly when it lies in a usable entry
-- that is at least as long as the bitmap, as the entries are once the bitmap's own bytes are cut off.
pub is_free-init_bitmap :
    (higher_half size base f : ℕ) (s s' : Pmm) (entries : List Entry)
    → get_bitmap_size s.entries ≡ some size
    → place_bitmap size s.entries ≡ (some base, entries)
    → AllFit entries
    → f < size * 8
    → init_bitmap higher_half s ≡ some s'
    → is_free f s' ≡ in_some_entry size entries f
unfolding init_bitmap
is_free-init_bitmap higher_half size base f s s' entries sized placed fits covered run =
    let p = u64 (base + higher_half) in
    let filled : Pmm = record {
      entries = entries;
      bitmap = p;
      memory = memset p 0xFF size s.memory;
    } in
    ground (
      arith,
      is_free-release_all size f entries filled fits,
      is_free-memset p size f entries s.memory,
    )
