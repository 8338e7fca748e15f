-- ===== src/Mm/Pmm/Frames.antt =====
-- What pmm.c promises its callers: a set of free frames, from which the lowest is taken, and to
-- which runs of frames are given back. There is no bitmap and no memory map here.
use mksd_old_archive.Base.{
  ℕ, zero, suc, ◌+◌, ◌*◌, ◌/◌, Bool, true, false, ◌&&◌, Option, none, some, List, [], ◌∷◌, leb, ltb,
  ◌==◌, if◌then◌else◌,
}

-- Which frames are free.
abbrev pub Frames : Type 0
Frames = ℕ → Bool

-- The lowest free frame among `n` from `f` on.
unfoldable pub lowest : ℕ → ℕ → Frames → Option ℕ
lowest zero f free = none
lowest (suc n) f free = let rest = lowest n (f + 1) free in if free f then some f else rest

unfoldable pub take : ℕ → Frames → Frames
take f free g = if f == g then false else free g

unfoldable pub give : ℕ → ℕ → Frames → Frames
give f n free g = if leb f g && ltb g (f + n) then true else free g

-- The calls of the allocator.
pub data Call : Type 0 where
  alloc : (frames : ℕ) → Call
  free : (ptr frames : ℕ) → Call

abbrev pub taken : Option ℕ → Frames → ℕ × Frames
taken none s = (0, s)
taken (some f) s = (0x1000 * f, take f s)

-- One call: the address that it returns, 0 for `free`, and the frames after it.
unfoldable pub step : ℕ → Call → Frames → ℕ × Frames
step limit (alloc zero) s = (0, s)
step limit (alloc (suc frames)) s = taken (lowest limit 0 s) s
step limit (free ptr frames) s = (0, give (ptr / 0x1000) frames s)

-- What a history of calls returns, the first call first, and the frames at its end.
unfoldable pub run : ℕ → List Call → Frames → List ℕ × Frames
run limit [] s = ([], s)
run limit (c ∷ cs) s =
    let (p, s₁) = step limit c s in let (ps, s₂) = run limit cs s₁ in (p ∷ ps, s₂)
