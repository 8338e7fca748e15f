-- ===== src/Vector/Elements.antt =====
-- The elements of a vector in memory, one after the other.
use native.Mathlib.Nat.{mul-suc}
use mksd_old_archive.Base.{
  ℕ, zero, suc, ◌+◌, ◌*◌, ◌<◌, ◌≡◌, refl, ap, ◌∙◌, arith, List, [], ◌∷◌, ◌++◌, length, Memory, load,
}

-- The bytes of the elements.
abbrev pub span : ℕ → List ℕ → ℕ
span size [] = 0
span size (x ∷ xs) = size + span size xs

pub span-length : (size : ℕ) (xs : List ℕ) → span size xs ≡ size * length xs
span-length size [] = omega arith
span-length size (x ∷ xs) = omega (arith, span-length size xs, mul-suc size (length xs))

-- The elements stand from `p` on.
abbrev pub Stand : ℕ → Memory → ℕ → List ℕ → Type 0
Stand size m p [] = Unit
Stand size m p (x ∷ xs) = (load size m p ≡ x) × Stand size m (p + size) xs

pub load-shift :
    (n : ℕ) (m m' : Memory) (p q : ℕ)
    → ((i : ℕ) → i < n → m' (q + i) ≡ m (p + i))
    → load n m' q ≡ load n m p
unfolding load
load-shift zero m m' p q same = refl
load-shift (suc n) m m' p q same =
    let first : m' q ≡ m p =
      ap m' {x = q} {y = q + 0} (omega arith)
      ∙ same 0 (omega arith)
      ∙ ap m {x = p + 0} {y = p} (omega arith) in
    let rest = load-shift n m m' (p + 1) (q + 1) (λ i l.
      ap m' {x = q + 1 + i} {y = q + suc i} (omega arith)
      ∙ same (suc i) (omega arith)
      ∙ ap m {x = p + suc i} {y = p + 1 + i} (omega arith)) in
    omega (arith, first, rest)

-- Elements whose bytes are copied stand where the copy is.
pub Stand-shift :
    (size : ℕ) (m m' : Memory) (p q : ℕ) (xs : List ℕ)
    → ((i : ℕ) → i < span size xs → m' (q + i) ≡ m (p + i))
    → Stand size m p xs
    → Stand size m' q xs
Stand-shift size m m' p q [] same h = tt
Stand-shift size m m' p q (x ∷ xs) same (e, h) = (
  load-shift size m m' p q (λ i l. same i (omega arith)) ∙ e,
  Stand-shift size m m' (p + size) (q + size) xs
      (λ i l.
        ap m' {x = q + size + i} {y = q + (size + i)} (omega arith)
        ∙ same (size + i) (omega arith)
        ∙ ap m {x = p + (size + i)} {y = p + size + i} (omega arith))
      h,
)

pub Stand-append :
    (size : ℕ) (m : Memory) (p x : ℕ) (xs : List ℕ)
    → Stand size m p xs
    → load size m (p + span size xs) ≡ x
    → Stand size m p (xs ++ x ∷ [])
Stand-append size m p x [] h e = (ap (load size m) {x = p} {y = p + 0} (omega arith) ∙ e, tt)
Stand-append size m p x (y ∷ xs) (a, h) e = (
  a,
  Stand-append size m (p + size) x xs h (
      ap (load size m) {x = p + size + span size xs} {y = p + (size + span size xs)} (omega arith)
      ∙ e),
)

pub Stand-init :
    (size : ℕ) (m : Memory) (p x : ℕ) (xs : List ℕ)
    → Stand size m p (xs ++ x ∷ [])
    → Stand size m p xs × (load size m (p + span size xs) ≡ x)
Stand-init size m p x [] (e, _) = (tt, ap (load size m) {x = p + 0} {y = p} (omega arith) ∙ e)
Stand-init size m p x (y ∷ xs) (a, h) =
    let (front, e) = Stand-init size m (p + size) x xs h in
    (
      (a, front),
      ap (load size m) {x = p + (size + span size xs)} {y = p + size + span size xs} (omega arith)
          ∙ e,
    )

pub span-append : (size x : ℕ) (xs : List ℕ) → span size (xs ++ x ∷ []) ≡ span size xs + size
span-append size x [] = omega arith
span-append size x (y ∷ xs) = omega (arith, span-append size x xs)
