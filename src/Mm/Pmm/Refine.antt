-- ===== src/Mm/Pmm/Refine.antt =====
-- The allocator of pmm.c behaves as the set of its free frames.
use mksd_old_archive.Base.{
  ℕ, zero, suc, ◌+◌, ◌*◌, ◌^◌, ◌≤◌, ◌<◌, ◌≡◌, inl, inr, refl, ap, ◌∙◌, arith, true, false,
  Bool-cases, Option, none, some, List, [], ◌∷◌, ◌==◌, All,
}
use mathlib.Core.Path.{fun_ext}
use mksd_old_archive.Mm.Pmm.{
  Pmm, get_bitmap_size, bitmap_set_bit, pmm_alloc, alloc_frames, pmm_free, bitmap_unset_bit,
}
use mksd_old_archive.Mm.Pmm.Bitmap.{is_free, is_free-set}
use mksd_old_archive.Mm.Pmm.Alloc.{
  Scanned, pmm_alloc_inner-Scanned, pmm_alloc-suc, is_free-pmm_free,
}
use mksd_old_archive.Mm.Pmm.Frames.{
  Frames, lowest, take, give, Call, taken, step as spec_step, run as spec_run,
}

-- One call of the allocator; none is the fault of a memory map with no usable entry.
unfoldable pub step : Call → Pmm → Option (ℕ × Pmm)
step (Call.alloc frames) s = pmm_alloc frames s
step (Call.free ptr frames) s = some (0, pmm_free ptr frames s)

abbrev and_then : Option (ℕ × Pmm) → (Pmm → Option (List ℕ × Pmm)) → Option (List ℕ × Pmm)
and_then none next = none
and_then (some (p, s)) next = elim (next s) [ none ↦ none | some r ↦ some (p ∷ r.0, r.1) ]

unfoldable pub run : List Call → Pmm → Option (List ℕ × Pmm)
run [] s = some ([], s)
run (c ∷ cs) s = and_then (step c s) (run cs)

abbrev pub contents : Pmm → Frames
contents s f = is_free f s

-- A run of frames that is given back ends below the top of memory.
abbrev pub Fits : Call → Type 0
Fits (Call.alloc frames) = Unit
Fits (Call.free ptr frames) = ptr + 0x1000 * frames ≤ 2 ^ 64

lowest-none :
    (n f : ℕ) (free : Frames)
    → ((g : ℕ) → f ≤ g → g < f + n → free g ≡ false)
    → lowest n f free ≡ none
unfolding lowest
lowest-none zero f free h = refl
lowest-none (suc n) f free h =
    rw (h f (omega arith) (omega arith), lowest)
      (lowest-none n (f + 1) free (λ g l u. h g (omega arith) (omega arith)))

lowest-some :
    (n f k : ℕ) (free : Frames)
    → f ≤ k
    → k < f + n
    → free k ≡ true
    → ((g : ℕ) → f ≤ g → g < k → free g ≡ false)
    → lowest n f free ≡ some k
unfolding lowest
lowest-some zero f k free l u hit h = absurd (omega arith)
lowest-some (suc n) f k free l u hit h = elim (Bool-cases (f == k)) [
  | inl e ↦ let same : f ≡ k = ground arith in rw (ap free same ∙ hit, lowest) (ap some same)
  | inr e ↦
      rw (h f (omega arith) (ground arith), lowest)
        (lowest-some n (f + 1) k free (ground arith) (omega arith) hit
          (λ g l' u'. h g (omega arith) u'))
]

-- A state after a call: its frames are those of the set, and its bitmap is as large as before.
abbrev pub Refines : ℕ → Pmm → Option (ℕ × Pmm) → ℕ × Frames → Type 0
Refines size s out spec =
    (s' : Pmm) × (out ≡ some (spec.0, s'))
    × (contents s' ≡ spec.1)
    × (get_bitmap_size s'.entries ≡ some size)

Scanned-Refines :
    (n size : ℕ) (s : Pmm) (out : ℕ × Pmm)
    → get_bitmap_size s.entries ≡ some size
    → Scanned n 0 s out
    → Refines size s (some out) (taken (lowest n 0 (contents s)) (contents s))
unfolding bitmap_set_bit
Scanned-Refines n size s out h (inl (e, none_free)) =
    rw (lowest-none n 0 (contents s) none_free) (s, ap some e, refl, h)
Scanned-Refines n size s out h (inr (f, l, u, hit, before, e)) =
    rw (lowest-some n 0 f (contents s) l u hit before)
      (bitmap_set_bit f s, ap some e, fun_ext (λ g. unfold take in is_free-set f g s), h)

pmm_free-entries : (frames ptr : ℕ) (s : Pmm) → (pmm_free ptr frames s).entries ≡ s.entries
unfolding pmm_free bitmap_unset_bit
pmm_free-entries zero ptr s = refl
pmm_free-entries (suc frames) ptr s = pmm_free-entries frames _ _

step-Refines :
    (size : ℕ) (c : Call) (s : Pmm)
    → get_bitmap_size s.entries ≡ some size
    → Fits c
    → Refines size s (step c s) (spec_step (size * 8) c (contents s))
unfolding step spec_step
step-Refines size (Call.alloc zero) s h fits = unfold pmm_alloc alloc_frames in (s, refl, refl, h)
step-Refines size (Call.alloc (suc frames)) s h fits =
    let (out, run, scan) = pmm_alloc_inner-Scanned s h in
    rw (pmm_alloc-suc frames s, run) (Scanned-Refines (size * 8) size s out h scan)
step-Refines size (Call.free ptr frames) s h fits = (
  pmm_free ptr frames s,
  refl,
  fun_ext (λ f. unfold give in is_free-pmm_free frames ptr f s fits),
  ap get_bitmap_size (pmm_free-entries frames ptr s) ∙ h,
)

-- Every history of calls returns the addresses that the set of free frames gives, whatever the
-- order of the calls and however many frames each asks for: where the memory map has a usable
-- entry, and no call gives back frames above the top of memory, no call faults, and the bitmap
-- tests free at the end exactly the frames that are free in the set.
pub run-Refines :
    (size : ℕ) (cs : List Call) (s : Pmm)
    → get_bitmap_size s.entries ≡ some size
    → All Fits cs
    → (s' : Pmm) × (run cs s ≡ some ((spec_run (size * 8) cs (contents s)).0, s'))
      × (contents s' ≡ (spec_run (size * 8) cs (contents s)).1)
      × (get_bitmap_size s'.entries ≡ some size)
unfolding run spec_run
run-Refines size [] s h fits = (s, refl, refl, h)
run-Refines size (c ∷ cs) s h (fits, rest) =
    let (s₁, e, same, h₁) = step-Refines size c s h fits in
    let (s₂, e₂, same₂, h₂) = run-Refines size cs s₁ h₁ rest in
    rw e (s₂, rw (e₂, same) refl, rw same₂ (rw same refl), h₂)
