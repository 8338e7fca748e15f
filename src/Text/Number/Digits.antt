-- ===== src/Text/Number/Digits.antt =====
-- Numbers as digits in a base, and the loop that writes the digits of a number, lowest first.
use mathlib.Core.List.{reverse, reverse-append}
use native.Mathlib.Nat.{
  div-lt_iff_lt-mul, pow-suc, pow-zero, add-zero, mul-le-mul_right, div-mul-le_self, le_trans,
  div-add-mod',
}
use mksd_old_archive.Base.{
  ℕ, zero, suc, ◌+◌, ◌*◌, ◌/◌, ◌%◌, ◌^◌, ◌≤◌, ◌<◌, ◌≡◌, refl, sym, ap, ap₂, All, ◌∙◌, arith, Option,
  none, some, ◌==◌, if◌then◌else◌, Memory, store, Holds, List, [], ◌∷◌, ◌++◌, length, u8,
  Bool-cases, ==_iff, inl, inr,
}

module _ (base : ℕ) (char : ℕ → ℕ) where
  -- The digits of a number, lowest first, as characters.
  unfoldable pub low_first : ℕ → ℕ → List ℕ
  low_first zero n = []
  low_first (suc fuel) n = if n == 0 then [] else char (n % base) ∷ low_first fuel (n / base)

  -- The number that characters spell behind `acc`, highest first.
  unfoldable pub value_from : (ℕ → ℕ) → ℕ → List ℕ → ℕ
  value_from digit acc [] = acc
  value_from digit acc (c ∷ s) = value_from digit (acc * base + digit c) s

  -- The loop of `dec2str` and `hex2str`.
  unfoldable pub emit : ℕ → ℕ → ℕ → Memory → Option (ℕ × Memory)
  emit zero n i m = none
  emit (suc fuel) n i m =
      let rest = emit fuel (n / base) (u8 (i + 1)) (store i (char (n % base)) m) in
      if n == 0 then some (i, m) else rest

  -- The loop ends, has written the digits from `i` on, and nothing below `i`.
  pub emit-low_first :
      (fuel n i : ℕ) (m : Memory)
      → 0 < base
      → n < base ^ fuel
      → i + fuel < 128
      → (m' : Memory) × (emit (suc fuel) n i m ≡ some (i + length (low_first fuel n), m'))
        × Holds m' i (low_first fuel n)
        × ((a : ℕ) → a < i → m' a ≡ m a)
        × (length (low_first fuel n) ≤ fuel)
  unfolding emit low_first
  emit-low_first zero n i m pos h room =
      let none_left : n ≡ 0 = omega (arith, pow-zero base) in
      (m, ground (arith, add-zero i), tt, (λ a l. refl), omega arith)
  emit-low_first (suc fuel) n i m pos h room = elim (Bool-cases (n == 0)) [
    | inl e ↦
        rw e (m, ap (λ (t : ℕ). some (t, m)) (sym (add-zero i)), tt, (λ a l. refl), omega arith)
    | inr e ↦
        let m₁ = store i (char (n % base)) m in
        let next : u8 (i + 1) ≡ i + 1 = omega arith in
        let smaller : n / base < base ^ fuel =
          (div-lt_iff_lt-mul pos).1 (rw (← pow-suc base fuel) h) in
        let (m', run, holds, below, short) =
          emit-low_first fuel (n / base) (i + 1) m₁ pos smaller (omega arith) in
        rw (e, next)
          (
            m',
            run ∙ ap (λ (t : ℕ). some (t, m')) (omega arith),
            (below i (omega arith) ∙ ground arith, holds),
            (λ a l. ground (arith, below a)),
            omega arith,
          )
  ]

  value_from-append :
      (digit : ℕ → ℕ) (acc c : ℕ) (s : List ℕ)
      → value_from digit acc (s ++ c ∷ []) ≡ value_from digit acc s * base + digit c
  unfolding value_from
  value_from-append digit acc c [] = refl
  value_from-append digit acc c (d ∷ s) = value_from-append digit (acc * base + digit d) c s

  -- The digits, highest first, spell the number.
  pub value_from-low_first :
      (digit : ℕ → ℕ) (fuel n : ℕ)
      → 0 < base
      → ((d : ℕ) → d < base → digit (char d) ≡ d)
      → n < base ^ fuel
      → value_from digit 0 (reverse (low_first fuel n)) ≡ n
  unfolding low_first value_from
  value_from-low_first digit zero n pos inv h = omega (arith, pow-zero base)
  value_from-low_first digit (suc fuel) n pos inv h = elim (Bool-cases (n == 0)) [
    | inl e ↦ ground arith
    | inr e ↦
        let smaller : n / base < base ^ fuel =
          (div-lt_iff_lt-mul pos).1 (rw (← pow-suc base fuel) h) in
        let c = char (n % base) in
        let s = low_first fuel (n / base) in
        rw e (
          ap (value_from digit 0) (reverse-append (c ∷ []) s)
          ∙ value_from-append digit 0 c (reverse s)
          ∙ ap₂ (λ (x y : ℕ). x * base + y)
              (value_from-low_first digit fuel (n / base) pos inv smaller)
              (inv (n % base) (omega arith))
          ∙ div-add-mod' n base)
  ]

  pub low_first-le : (fuel n : ℕ) → length (low_first fuel n) ≤ fuel
  unfolding low_first
  low_first-le zero n = omega arith
  low_first-le (suc fuel) n = ground (arith, low_first-le fuel (n / base))

  pub low_first_two : (fuel n : ℕ) → 0 < base → base ≤ n → 2 ≤ length (low_first (suc (suc fuel)) n)
  unfolding low_first
  low_first_two fuel n pos h = let big : 0 < n / base = grind arith in ground arith

  low_first-zero : (fuel : ℕ) → low_first fuel 0 ≡ []
  unfolding low_first
  low_first-zero zero = refl
  low_first-zero (suc fuel) = refl

  pub low_first-pos : (fuel n : ℕ) → 0 < n → 0 < length (low_first (suc fuel) n)
  unfolding low_first
  low_first-pos fuel n h = ground arith

  -- No digit more than needed: a number of `k + 1` digits is at least `base ^ k`.
  pub low_first_shortest :
      (fuel n : ℕ) → 0 < base → 0 < n → base ^ length (low_first fuel n) ≤ n * base
  unfolding low_first
  low_first_shortest zero n pos h = rw (pow-zero base) (grind arith)
  low_first_shortest (suc fuel) n pos h = elim (Bool-cases (n == 0)) [
    | inl e ↦ absurd (ground arith)
    | inr e ↦
        rw (e, pow-suc)
          (elim (Bool-cases (n / base == 0)) [
            | inl z ↦
                rw ((==_iff _ _).0 z, low_first-zero fuel, pow-zero base) (mul-le-mul_right base h)
            | inr z ↦ mul-le-mul_right base (
                le_trans (low_first_shortest fuel (n / base) pos (ground arith))
                  (div-mul-le_self n base))
          ])
  ]

  -- Every character is the character of a digit.
  pub All-low_first :
      (P : ℕ → Type 0) (fuel n : ℕ)
      → 0 < base
      → ((d : ℕ) → d < base → P (char d))
      → All P (low_first fuel n)
  unfolding low_first
  All-low_first P zero n pos h = tt
  All-low_first P (suc fuel) n pos h = elim (Bool-cases (n == 0)) [
    | inl e ↦ rw e tt
    | inr e ↦ rw e (h (n % base) (omega arith), All-low_first P fuel (n / base) pos h)
  ]
