-- ===== src/Text/Number/Reverse.antt =====
-- The loop that turns the digits round in place.
use native.Mathlib.Nat.{add-zero}
use mathlib.Core.List.{reverse, reverse-append}
use mksd_old_archive.Base.{
  All, All-reverse, ℕ, zero, suc, ◌+◌, ◌-◌, ◌*◌, ◌≤◌, ◌<◌, ◌≡◌, ◌≢◌, refl, ap, subst, ◌∙◌, arith,
  some, ltb, leb, ◌&&◌, if◌then◌else◌, Memory, store, IsString, Holds, List, [], ◌∷◌, ◌++◌, length,
  u8, Bool-cases, inl, inr, length-append,
}
use mksd_old_archive.Text.Number.{reverse_from}

-- Between `j` and `i` the bytes stand in the other order, and all else is as before.
abbrev pub Turned : ℕ → ℕ → Memory → Memory → Type 0
Turned j i m m' = (k : ℕ) → m' k ≡ (if leb j k && leb k i then m (i + j - k) else m k)

pub reverse_from-Turned :
    (fuel j i : ℕ) (m : Memory)
    → j < 128
    → i < 128
    → j ≤ i + 1
    → i + 1 < j + 2 * fuel
    → (m' : Memory) × (reverse_from fuel j i m ≡ some m') × Turned j i m m'
unfolding reverse_from
reverse_from-Turned zero j i m hj hi le h = absurd (omega arith)
reverse_from-Turned (suc fuel) j i m hj hi le h = elim (Bool-cases (ltb j i)) [
  | inr done ↦ rw done (
    m,
    refl,
    λ k. elim (Bool-cases (leb j k && leb k i)) [
      | inl e ↦ rw e (ap m (ground arith))
      | inr e ↦ rw e
    ],
  )
  | inl more ↦
      let lt : j < i = ground arith in
      let m₁ = store i (m j) (store j (m i) m) in
      let next : u8 (j + 1) ≡ j + 1 = omega arith in
      let prev : u8 (i - 1) ≡ i - 1 = omega arith in
      let (m', run, turned) =
        reverse_from-Turned fuel (j + 1) (i - 1) m₁ (omega arith) (omega arith) (omega arith)
          (omega arith) in
      rw (more, next, prev)
        (
          m',
          run,
          λ k.
              ground
                (arith, turned k, ap m₁ {x = i - 1 + (j + 1) - k} {y = i + j - k} (ground arith)),
        )
]

pub Holds-append :
    (m : Memory) (p : ℕ) (s t : List ℕ)
    → Holds m p s
    → Holds m (p + length s) t
    → Holds m p (s ++ t)
Holds-append m p [] t h k = rw (add-zero p) at k
Holds-append m p (c ∷ s) t (e, rest) k = (
  e,
  Holds-append m (p + 1) s t rest (
      subst (λ (a : ℕ). Holds m a t) {x = p + suc (length s)} {y = p + 1 + length s} (omega arith)
        k),
)

pub length-reverse : (s : List ℕ) → length (reverse s) ≡ length s
length-reverse [] = refl
length-reverse (c ∷ s) =
    ap length (reverse-append (c ∷ []) s)
    ∙ length-append (reverse s) (c ∷ [])
    ∙ omega (arith, length-reverse s)

-- A list read backwards.
pub Holds-reverse :
    (m m' : Memory) (p q : ℕ) (s : List ℕ)
    → ((k : ℕ) → k < length s → m' (q + k) ≡ m (p + (length s - 1 - k)))
    → Holds m p s
    → Holds m' q (reverse s)
Holds-reverse m m' p q [] same h = tt
Holds-reverse m m' p q (c ∷ s) same (e, rest) = rw (reverse-append (c ∷ []) s) (
    Holds-append m' q (reverse s) (c ∷ [])
      (Holds-reverse m m' (p + 1) q s
        (λ k l.
          same k (omega arith)
          ∙ ap m {x = p + (suc (length s) - 1 - k)} {y = p + 1 + (length s - 1 - k)} (omega arith))
        rest)
      (
        ap m' {x = q + length (reverse s)} {y = q + length s} (omega (arith, length-reverse s))
            ∙ same (length s) (omega arith)
            ∙ ap m {x = p + (suc (length s) - 1 - length s)} {y = p} (omega arith)
            ∙ e,
        tt,
      ))

-- Bytes that are not 0, with a 0 behind them, are a string.
abbrev pub AllNonzero : List ℕ → Type 0
AllNonzero = All (λ c. c ≢ 0)

pub Holds-IsString :
    (m : Memory) (p : ℕ) (s : List ℕ)
    → Holds m p s
    → AllNonzero s
    → m (p + length s) ≡ 0
    → IsString m p s
Holds-IsString m p [] h nz e = rw (add-zero p) at e
Holds-IsString m p (c ∷ s) (h, rest) (n, nz) e = (
  h,
  n,
  Holds-IsString m (p + 1) s rest nz
      (ap m {x = p + 1 + length s} {y = p + suc (length s)} (omega arith) ∙ e),
)

pub Holds-ext :
    (m m' : Memory) (p : ℕ) (s : List ℕ)
    → ((a : ℕ) → p ≤ a → a < p + length s → m' a ≡ m a)
    → Holds m p s
    → Holds m' p s
Holds-ext m m' p [] same h = tt
Holds-ext m m' p (c ∷ s) same (e, rest) = (
  same p (omega arith) (omega arith) ∙ e,
  Holds-ext m m' (p + 1) s (λ a l u. same a (omega arith) (omega arith)) rest,
)

-- One more byte behind the bytes of `s`.
pub Holds-store :
    (m : Memory) (n c : ℕ) (s : List ℕ)
    → n ≡ length s
    → Holds m 0 s
    → Holds (store n c m) 0 (s ++ c ∷ [])
Holds-store m n c s e h =
    Holds-append (store n c m) 0 s (c ∷ [])
      (Holds-ext m (store n c m) 0 s (λ a l u. ground arith) h) (ground arith, tt)

-- What turning the digits round leaves, once a 0 is written behind them.
pub Turned-IsString :
    (n : ℕ) (s : List ℕ) (m m' : Memory)
    → n ≡ length s
    → 0 < n
    → Holds m 0 s
    → All (λ c. c ≢ 0) s
    → Turned 0 (n - 1) (store n 0 m) m'
    → IsString m' 0 (reverse s)
Turned-IsString n s m m' e pos h nz turned =
    Holds-IsString m' 0 (reverse s)
      (Holds-reverse m m' 0 0 s
        (λ k l.
          turned (0 + k)
          ∙ ground
              (arith, ap m {x = n - 1 + 0 - (0 + k)} {y = 0 + (length s - 1 - k)} (omega arith)))
        h)
      (All-reverse (λ c. c ≢ 0) s nz)
      (ap m' {x = 0 + length (reverse s)} {y = n} (omega (arith, length-reverse s))
        ∙ turned n
        ∙ ground arith)
