-- ===== src/Mm/Pmm/Alloc.antt =====
-- pmm_alloc and pmm_free of pmm.c.
use mksd_old_archive.Base.{
  ℕ, zero, suc, ◌+◌, ◌-◌, ◌*◌, ◌/◌, ◌%◌, ◌^◌, ◌≤◌, ◌<◌, ◌≡◌, ◌≢◌, ◌⊎◌, refl, sym, ap, ◌∙◌, arith,
  true, false, ◌==◌, if◌then◌else◌, inl, inr, Bool-cases, some, ◌&&◌, leb, ltb, Option-cases, u64,
  bit_and, subst, List,
}
use mksd_old_archive.Base.Bits.Masks.{bit_and-high_mask}
use mksd_old_archive.Mm.Pmm.{
  Pmm, Entry, find_highest_mem_chunk, bitmap_size_of, align_up, get_bitmap_size, bitmap_set_bit,
  bitmap_unset_bit, alloc_from, alloc_frames, pmm_alloc_inner, pmm_alloc, pmm_free,
}
use mksd_old_archive.Mm.Pmm.Bitmap.{is_free, is_free-set, is_free-unset}

-- What a scan from `bit` over `n` frames ends with: nothing free, or the lowest free frame taken.
abbrev pub Scanned : ℕ → ℕ → Pmm → ℕ × Pmm → Type 0
Scanned n bit s out =
    ((out ≡ (0, s)) × ((f : ℕ) → bit ≤ f → f < bit + n → is_free f s ≡ false))
    ⊎ ((f : ℕ) × (bit ≤ f)
        × (f < bit + n)
        × (is_free f s ≡ true)
        × ((g : ℕ) → bit ≤ g → g < f → is_free g s ≡ false)
        × (out ≡ (0x1000 * f, bitmap_set_bit f s)))

Scanned-suc :
    (n bit : ℕ) (s : Pmm) (out : ℕ × Pmm)
    → is_free bit s ≡ false
    → Scanned n (bit + 1) s out
    → Scanned (suc n) bit s out
Scanned-suc n bit s out taken (inl (e, none_free)) = inl (
  e,
  λ f l u. elim (Bool-cases (f == bit)) [
    | inl h ↦ ground arith
    | inr h ↦ ground (arith, none_free f)
  ],
)
Scanned-suc n bit s out taken (inr (f, l, u, free, lower, e)) = inr (
  f,
  omega arith,
  omega arith,
  free,
  (λ g l' u'. elim (Bool-cases (g == bit)) [
    | inl h ↦ ground arith
    | inr h ↦ ground (arith, lower g)
  ]),
  e,
)

alloc_from-Scanned : (n bit : ℕ) (s : Pmm) → bit + n ≤ 2 ^ 52 → Scanned n bit s (alloc_from n bit s)
unfolding alloc_from
alloc_from-Scanned zero bit s h = inl (refl, λ f l u. absurd (omega arith))
alloc_from-Scanned (suc n) bit s h = elim (Bool-cases (is_free bit s)) [
  | inl e ↦ inr (
    bit,
    omega arith,
    omega arith,
    e,
    (λ g l u. absurd (omega arith)),
    rw e (ap (λ (p : ℕ). (p, bitmap_set_bit bit s)) (omega arith)),
  )
  | inr e ↦ rw e (Scanned-suc n bit s _ e (alloc_from-Scanned n (bit + 1) s (omega arith)))
]

-- Rounding up to whole pages, where nothing wraps.
pub align_up_page :
    (x : ℕ) → x + 0x1000 < 2 ^ 64 → align_up x 0x1000 ≡ (x + 0xFFF) / 0x1000 * 0x1000
unfolding align_up
align_up_page x h =
    let y = (x + 0xFFF) % 2 ^ 64 in
    ap (λ (t : ℕ). bit_and t (2 ^ 52 * 2 ^ 12 - 2 ^ 12))
      {x = ((x + 0x1000) % 2 ^ 64 + 2 ^ 64 - 1) % 2 ^ 64} {y = y} (omega arith)
    ∙ bit_and-high_mask 12 52 y (omega arith)
    ∙ omega arith

pub bitmap_size_bound : (e : Entry) → bitmap_size_of e * 8 ≤ 2 ^ 52
unfolding bitmap_size_of
bitmap_size_bound e =
    omega (arith, align_up_page ((e.base + e.length) % 2 ^ 64 / 0x1000 / 8) (omega arith))

pub get_bitmap_size-le :
    (entries : List Entry) (size : ℕ) → get_bitmap_size entries ≡ some size → size * 8 ≤ 2 ^ 52
unfolding get_bitmap_size
get_bitmap_size-le entries size h = elim (Option-cases (find_highest_mem_chunk entries)) [
  | inl e ↦ absurd (ground arith)
  | inr (c, e) ↦ ground (arith, bitmap_size_bound c)
]

-- Where the memory map has a usable entry, `pmm_alloc_inner` takes the lowest free frame that the
-- bitmap covers and returns its address, or returns 0 and changes nothing, every covered frame
-- being taken.
pub pmm_alloc_inner-Scanned :
    (s : Pmm) {size : ℕ}
    → get_bitmap_size s.entries ≡ some size
    → (out : ℕ × Pmm) × (pmm_alloc_inner s ≡ some out) × Scanned (size * 8) 0 s out
unfolding pmm_alloc_inner
pmm_alloc_inner-Scanned s {size} h =
    let bound = get_bitmap_size-le s.entries size h in
    let fits : u64 (size * 8) ≡ size * 8 = omega arith in
    (
      alloc_from (size * 8) 0 s,
      rw (h, pmm_alloc_inner) (ap (λ (t : ℕ). some (alloc_from t 0 s)) fits),
      alloc_from-Scanned (size * 8) 0 s (omega arith),
    )

alloc_frames-ne_zero :
    (frames mem : ℕ) (s : Pmm) → mem ≢ 0 → alloc_frames frames mem s ≡ some (mem, s)
unfolding alloc_frames
alloc_frames-ne_zero zero mem s h = refl
alloc_frames-ne_zero (suc frames) mem s h = ground (arith, alloc_frames-ne_zero frames mem s)

-- Whatever number of frames is asked for, the loop of `pmm_alloc` takes one.
pub pmm_alloc-suc : (frames : ℕ) (s : Pmm) → pmm_alloc (suc frames) s ≡ pmm_alloc_inner s
unfolding pmm_alloc alloc_frames
pmm_alloc-suc frames s = elim (Option-cases (pmm_alloc_inner s)) [
  | inl e ↦ ground arith
  | inr ((mem, s'), e) ↦ elim (Bool-cases (mem == 0)) [
    | inl z ↦ ground arith
    | inr z ↦ ground (arith, alloc_frames-ne_zero frames mem s')
  ]
]

-- `pmm_free` frees exactly the frames that it is given.
pub is_free-pmm_free :
    (frames ptr f : ℕ) (s : Pmm)
    → ptr + 0x1000 * frames ≤ 2 ^ 64
    → is_free f (pmm_free ptr frames s)
      ≡ (if leb (ptr / 0x1000) f && ltb f (ptr / 0x1000 + frames) then true else is_free f s)
unfolding pmm_free
is_free-pmm_free zero ptr f s h = ground arith
is_free-pmm_free (suc zero) ptr f s h = ground (arith, is_free-unset (ptr / 0x1000) f s)
is_free-pmm_free (suc (suc frames)) ptr f s h =
    let next : u64 (ptr + 0x1000) ≡ ptr + 0x1000 = omega arith in
    rw next (
      ground (
        arith,
        is_free-pmm_free (suc frames) (ptr + 0x1000) f (bitmap_unset_bit (ptr / 0x1000) s),
        is_free-unset (ptr / 0x1000) f s,
      ))

abbrev pub Undone : ℕ → ℕ → Pmm → Pmm → Type 0
Undone p f s s' =
    (is_free (p / 0x1000) s ≡ true)
    × (is_free (p / 0x1000) s' ≡ false)
    × (is_free f (pmm_free p 1 s') ≡ is_free f s)

Scanned-Undone :
    (n p f : ℕ) (s s' : Pmm) → n ≤ 2 ^ 52 → p ≢ 0 → Scanned n 0 s (p, s') → Undone p f s s'
Scanned-Undone n p f s s' bound ne (inl (e, _)) = absurd (ne (ap (λ (o : ℕ × Pmm). o.0) e))
Scanned-Undone n p f s s' bound ne (inr (g, _, u, free, _, e)) =
    let at : p ≡ 0x1000 * g = ap (λ (o : ℕ × Pmm). o.0) e in
    let frame : p / 0x1000 ≡ g = omega arith in
    let after : s' ≡ bitmap_set_bit g s = ap (λ (o : ℕ × Pmm). o.1) e in
    rw (frame, after)
      (
        free,
        ground (arith, is_free-set g g s),
        ground (arith, is_free-pmm_free 1 p f (bitmap_set_bit g s), is_free-set g f s),
      )

-- Freeing the frame that an allocation returned undoes it, for every frame.
pub pmm_free-pmm_alloc :
    (s s' : Pmm) (size p f : ℕ)
    → get_bitmap_size s.entries ≡ some size
    → pmm_alloc 1 s ≡ some (p, s')
    → p ≢ 0
    → Undone p f s s'
pmm_free-pmm_alloc s s' size p f h e ne =
    let (out, run, scan) = pmm_alloc_inner-Scanned s h in
    let same : some out ≡ some (p, s') = sym run ∙ sym (pmm_alloc-suc 0 s) ∙ e in
    Scanned-Undone (size * 8) p f s s' (get_bitmap_size-le s.entries size h) ne
      (subst (Scanned (size * 8) 0 s) (cc same) scan)
