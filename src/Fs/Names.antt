-- ===== src/Fs/Names.antt =====
-- The parts of a path between its slashes, as strsplit of string.c numbers them.
use mksd_old_archive.Base.{
  ℕ, zero, suc, ◌+◌, ◌<◌, ◌≡◌, ◌≢◌, inl, inr, refl, arith, Bool-cases, Option, Option-cases, none,
  some, List, [], ◌∷◌, length, ◌==◌, if◌then◌else◌, Memory, IsString, All, subst,
}
use mksd_old_archive.Text.Split.{before, after, from_part}
use mksd_old_archive.Text.Compare.{count}
use mksd_old_archive.Fs.{slash}

-- The parts of a path between its slashes.
abbrev cons_head : ℕ → List (List ℕ) → List (List ℕ)
cons_head c [] = (c ∷ []) ∷ []
cons_head c (w ∷ ws) = (c ∷ w) ∷ ws

unfoldable pub names : List ℕ → List (List ℕ)
names [] = [] ∷ []
names (c ∷ s) = let rest = names s in if c == slash then [] ∷ rest else cons_head c rest

abbrev pub names_after : Option (List ℕ) → List (List ℕ)
names_after none = []
names_after (some rest) = names rest

length-cons_head :
    (c n : ℕ) (ws : List (List ℕ)) → length ws ≡ n + 1 → length (cons_head c ws) ≡ n + 1
length-cons_head c n [] h = absurd (omega arith)
length-cons_head c n (w ∷ ws) h = h

pub names_lem : (s : List ℕ) → names s ≡ before slash s ∷ names_after (after slash s)
unfolding names before after
names_lem [] = refl
names_lem (c ∷ s) = elim (Bool-cases (c == slash)) [
  | inl e ↦ rw e refl
  | inr e ↦ rw (e, names_lem s) refl
]

-- No byte of a string is 0.
pub IsString-All : (m : Memory) (p : ℕ) (s : List ℕ) → IsString m p s → All (λ c. c ≢ 0) s
IsString-All m p [] h = tt
IsString-All m p (c ∷ s) (e, ne, h) = (ne, IsString-All m (p + 1) s h)

pub All-before : (s : List ℕ) → All (λ c. c ≢ 0) s → All (λ c. c ≢ 0) (before slash s)
unfolding before
All-before [] h = tt
All-before (c ∷ s) (ne, h) = elim (Bool-cases (c == slash)) [
  | inl e ↦ rw e tt
  | inr e ↦ rw e (ne, All-before s h)
]

-- What a suffix behind a delimiter keeps.
abbrev pub Suffix : List ℕ → Option (List ℕ) → Type 0
Suffix s none = Unit
Suffix s (some rest) = All (λ c. c ≢ 0) rest × (length rest < length s)

Suffix-cons : (c : ℕ) (s : List ℕ) (o : Option (List ℕ)) → Suffix s o → Suffix (c ∷ s) o
Suffix-cons c s none h = tt
Suffix-cons c s (some rest) (h, l) = (h, omega arith)

pub after-Suffix : (s : List ℕ) → All (λ c. c ≢ 0) s → Suffix s (after slash s)
unfolding after
after-Suffix [] h = tt
after-Suffix (c ∷ s) (ne, h) = elim (Bool-cases (c == slash)) [
  | inl e ↦ rw e (h, omega arith)
  | inr e ↦ rw e (Suffix-cons c s (after slash s) (after-Suffix s h))
]

-- The part behind the next delimiter is the next part.
pub from_part-suc :
    (i : ℕ) (s r : List ℕ)
    → from_part slash i s ≡ some r
    → from_part slash (suc i) s ≡ after slash r
unfolding from_part
from_part-suc zero s r h =
    let same : s ≡ r = cc h in
    rw same (elim (Option-cases (after slash r)) [
      | inl e ↦ rw (e, from_part) refl
      | inr (t, e) ↦ rw (e, from_part) refl
    ])
from_part-suc (suc i) s r h = elim (Option-cases (after slash s)) [
  | inl e ↦ absurd (ground arith)
  | inr (t, e) ↦
      rw (e, from_part)
        (from_part-suc i t r (
          subst
            (λ (o : Option (List ℕ)).
              elim o [ none ↦ none | some rest ↦ from_part slash i rest ] ≡ some r)
            e h))
]

pub length-names : (s : List ℕ) → length (names s) ≡ count slash s + 1
unfolding names count
length-names [] = refl
length-names (c ∷ s) = elim (Bool-cases (c == slash)) [
  | inl e ↦ rw e (omega (arith, length-names s))
  | inr e ↦ rw e (length-cons_head c (0 + count slash s) (names s) (omega (arith, length-names s)))
]
