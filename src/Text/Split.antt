-- ===== src/Text/Split.antt =====
-- strsplit and strappend of string.c.
use mksd_old_archive.Base.{
  ℕ, zero, suc, ◌+◌, ◌≤◌, ◌<◌, ◌≡◌, ◌⊎◌, inl, inr, refl, sym, ap, ◌∙◌, arith, Bool, true, false,
  Option, none, some, ◌==◌, if◌then◌else◌, Bool-cases, Memory, store, IsString, Disjoint, Holds,
  IsString-ext, List, [], ◌∷◌, ◌++◌, length, subst,
}
use mksd_old_archive.Text.{after_skip, skip_part, skip_parts, copy_part, strsplit}

-- The bytes in front of the first delimiter, and the bytes behind it, if there is one.
unfoldable pub before : ℕ → List ℕ → List ℕ
before d [] = []
before d (c ∷ s) = if c == d then [] else c ∷ before d s

unfoldable pub after : ℕ → List ℕ → Option (List ℕ)
after d [] = none
after d (c ∷ s) = if c == d then some s else after d s

-- The part number `idx` of a string, and what follows it from its first byte on.
unfoldable pub from_part : ℕ → ℕ → List ℕ → Option (List ℕ)
from_part d zero s = some s
from_part d (suc idx) s = elim (after d s) [ none ↦ none | some rest ↦ from_part d idx rest ]

-- The two halves and the delimiter make up the string.
pub before-after : (d : ℕ) (s rest : List ℕ) → after d s ≡ some rest → before d s ++ d ∷ rest ≡ s
unfolding before after
before-after d [] rest h = absurd (ground arith)
before-after d (c ∷ s) rest h = ground (arith, before-after d s rest)

length-after : (d : ℕ) (s rest : List ℕ) → after d s ≡ some rest → length rest < length s
unfolding after
length-after d [] rest h = absurd (ground arith)
length-after d (c ∷ s) rest h = ground (arith, length-after d s rest)

length-before : (d : ℕ) (s : List ℕ) → length (before d s) ≤ length s
unfolding before
length-before d [] = omega arith
length-before d (c ∷ s) = ground (arith, length-before d s)

-- Where a walk along a string at `p` has got to: NULL, or the rest of the string.
abbrev Reached : Memory → ℕ → ℕ → Option (List ℕ) → Option (Option ℕ) → Type 0
Reached m p n none out = out ≡ some none
Reached m p n (some rest) out =
    (q : ℕ) × (out ≡ some (some q)) × IsString m q rest × (p ≤ q) × (q + length rest ≡ p + n)

Reached-suc :
    (m : Memory) (p k n n' : ℕ) (o : Option (List ℕ)) (out : Option (Option ℕ))
    → p ≤ k
    → k + n' ≡ p + n
    → Reached m k n' o out
    → Reached m p n o out
Reached-suc m p k n n' none out h e r = r
Reached-suc m p k n n' (some rest) out h e (q, same, str, le, sum) =
    (q, same, str, omega arith, omega arith)

pub skip_part-Reached :
    (fuel : ℕ) (m : Memory) (p d : ℕ) (s : List ℕ)
    → IsString m p s
    → length s < fuel
    → Reached m p (length s) (after d s) (skip_part fuel m p d)
unfolding skip_part after
skip_part-Reached zero m p d s h l = absurd (omega arith)
skip_part-Reached (suc fuel) m p d [] h l = ground arith
skip_part-Reached (suc fuel) m p d (c ∷ s) (e, ne, rest) l = elim (Bool-cases (c == d)) [
  | inl hit ↦ rw hit (p + 1, ground arith, rest, omega arith, omega arith)
  | inr miss ↦
      let step : skip_part (suc fuel) m p d ≡ skip_part fuel m (p + 1) d = ground arith in
      rw miss (
        subst (λ (o : Option (Option ℕ)). Reached m p (suc (length s)) (after d s) o) (sym step)
          (Reached-suc m p (p + 1) (suc (length s)) (length s) (after d s) _ (omega arith)
            (omega arith) (skip_part-Reached fuel m (p + 1) d s rest (omega arith))))
]

after_skip-Reached :
    (m : Memory) (p n d idx : ℕ) (o : Option (List ℕ)) (out : Option (Option ℕ))
    (next : ℕ → Option (Option ℕ))
    → Reached m p n o out
    → ((q : ℕ) (rest : List ℕ)
        → o ≡ some rest
        → IsString m q rest
        → Reached m q (length rest) (from_part d idx rest) (next q))
    → Reached m p n
        (elim o [ none ↦ none | some rest ↦ from_part d idx rest ])
        (after_skip next out)
unfolding after_skip
after_skip-Reached m p n d idx none out next r ih =
    subst (λ (t : Option (Option ℕ)). after_skip next t ≡ some none) (sym r) refl
after_skip-Reached m p n d idx (some rest) out next (q, same, str, le, sum) ih =
    subst (λ (t : Option (Option ℕ)). Reached m p n (from_part d idx rest) (after_skip next t))
      (sym same)
      (Reached-suc m p q n (length rest) (from_part d idx rest) _ le sum (ih q rest refl str))

skip_parts-Reached :
    (fuel idx : ℕ) (m : Memory) (p d : ℕ) (s : List ℕ)
    → IsString m p s
    → length s < fuel
    → Reached m p (length s) (from_part d idx s) (skip_parts fuel idx m p d)
unfolding skip_parts from_part
skip_parts-Reached fuel zero m p d s h l = (p, refl, h, omega arith, omega arith)
skip_parts-Reached fuel (suc idx) m p d s h l =
    after_skip-Reached m p (length s) d idx (after d s) (skip_part fuel m p d)
      (λ next. skip_parts fuel idx m next d) (skip_part-Reached fuel m p d s h l)
      (λ q rest e str.
        skip_parts-Reached fuel idx m q d rest str (omega (arith, length-after d s rest e)))

abbrev pub is_some : Option (List ℕ) → Bool
is_some none = false
is_some (some _) = true

-- The bytes `w` stand at `at`, with a 0 behind them if `ended`; no other byte has changed.
pub record Copied (w : List ℕ) (ended : Bool) (at : ℕ) (m m' : Memory) : Type 0 where
  pub bytes : Holds m' at w
  pub ending : m' (at + length w) ≡ (if ended then 0 else m (at + length w))
  pub outside : (a : ℕ) → (a < at) ⊎ (at + length w < a) → m' a ≡ m a

Copied-cons :
    (w : List ℕ) (ended : Bool) (at c : ℕ) (m m' : Memory)
    → Copied w ended (at + 1) (store at c m) m'
    → Copied (c ∷ w) ended at m m'
Copied-cons w ended at c m m' h = record {
  bytes = (ground (arith, h.outside at), h.bytes);
  ending =
      ap m' (omega arith)
      ∙ h.ending
      ∙ ground (arith, ap m {x = at + 1 + length w} {y = at + suc (length w)} (omega arith));
  outside = λ a o. ground (arith, h.outside a);
}

copy_part-Copied :
    (fuel at p d : ℕ) (s : List ℕ) (m : Memory)
    → IsString m p s
    → length s < fuel
    → (at + length s < p) ⊎ (p + length s < at)
    → (m' : Memory) × (copy_part fuel at p d m ≡ some m')
      × Copied (before d s) (is_some (after d s)) at m m'
unfolding copy_part before after
copy_part-Copied zero at p d s m h l apart = absurd (omega arith)
copy_part-Copied (suc fuel) at p d [] m h l apart =
    (m, ground arith, record { bytes = tt; ending = refl; outside = λ a o. refl })
copy_part-Copied (suc fuel) at p d (c ∷ s) m (e, ne, rest) l apart = elim (Bool-cases (c == d)) [
  | inl hit ↦ rw hit (
    store at 0 m,
    ground arith,
    record { bytes = tt; ending = ground arith; outside = λ a o. ground arith },
  )
  | inr miss ↦
      let m₁ = store at (m p) m in
      let (m', run, copied) =
        copy_part-Copied fuel (at + 1) (p + 1) d s m₁
          (IsString-ext m m₁ (p + 1) s (λ a lo hi. ground arith) rest) (omega arith)
          (ground arith) in
      rw miss (
        m',
        ground arith,
        rw (← e) (Copied-cons (before d s) (is_some (after d s)) at (m p) m m' copied),
      )
]

-- What `strsplit` returns for the part number `idx` of a string.
abbrev pub IsPart : ℕ → ℕ → Option (List ℕ) → Memory → Option ℕ × Memory → Type 0
IsPart split d none m out = out ≡ (none, m)
IsPart split d (some rest) m out =
    (m' : Memory) × (out ≡ (some split, m'))
    × Copied (before d rest) (is_some (after d rest)) split m m'

strsplit-Reached :
    (fuel split p d idx n : ℕ) (o : Option (List ℕ)) (m : Memory)
    → Reached m p n o (skip_parts fuel idx m p d)
    → n < fuel
    → Disjoint split (n + 1) p (n + 1)
    → (out : Option ℕ × Memory) × (strsplit fuel split m p d idx ≡ some out)
      × IsPart split d o m out
unfolding strsplit
strsplit-Reached fuel split p d idx n none m r l apart = ((none, m), ground arith, refl)
strsplit-Reached fuel split p d idx n (some rest) m (q, same, str, le, sum) l apart =
    let (m', run, copied) =
      copy_part-Copied fuel split q d rest m str (omega arith) (ground arith) in
    ((some split, m'), ground arith, (m', refl, copied))

-- For a string that does not meet the block `split`, `strsplit` returns NULL and changes nothing
-- where there are fewer than `idx` delimiters; else the block holds the bytes of the part number
-- `idx`, with a 0 behind them only if a delimiter follows, and no other byte changes.
pub strsplit-IsPart :
    (fuel split p d idx : ℕ) (s : List ℕ) (m : Memory)
    → IsString m p s
    → length s < fuel
    → Disjoint split (length s + 1) p (length s + 1)
    → (out : Option ℕ × Memory) × (strsplit fuel split m p d idx ≡ some out)
      × IsPart split d (from_part d idx s) m out
strsplit-IsPart fuel split p d idx s m h l apart =
    strsplit-Reached fuel split p d idx (length s) (from_part d idx s) m
      (skip_parts-Reached fuel idx m p d s h l) l apart
