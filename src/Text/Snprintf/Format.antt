-- ===== src/Text/Snprintf/Format.antt =====
-- Formats of snprintf, and the digits that it copies.
use native.Mathlib.Nat.{add-zero, pow-suc}
use mksd_old_archive.Base.{
  ℕ, zero, suc, ◌+◌, ◌-◌, ◌*◌, ◌^◌, ◌≤◌, ◌<◌, ◌≡◌, ◌≢◌, ◌⊎◌, inl, inr, refl, sym, ap, subst, ◌∙◌,
  arith, true, List, [], ◌∷◌, ◌++◌, ◌==◌, length, Memory, store, IsString, Bool-cases, ltb,
  if◌then◌else◌,
}
use mksd_old_archive.Text.Number.Decimal.{IsDecimal}
use mksd_old_archive.Text.Snprintf.{put_digits}

-- A part of a format: a character that stands for itself, or %d with its argument.
pub data Piece : Type 0 where
  char : (c : ℕ) → Piece
  number : (n : ℕ) → Piece

abbrev pub format : List Piece → List ℕ
format [] = []
format (Piece.char c ∷ ps) = c ∷ format ps
format (Piece.number n ∷ ps) = b'%' ∷ b'd' ∷ format ps

abbrev pub arguments : List Piece → List ℕ
arguments [] = []
arguments (Piece.char c ∷ ps) = arguments ps
arguments (Piece.number n ∷ ps) = n ∷ arguments ps

abbrev pub IsPiece : Piece → Type 0
IsPiece (Piece.char c) = (c ≢ 0) × (c ≢ b'%')
IsPiece (Piece.number n) = n < 2 ^ 64

-- The output for a format: each character, and each number in decimal.
abbrev pub Prints : List Piece → List ℕ → Type 0
Prints [] out = out ≡ []
Prints (Piece.char c ∷ ps) out = (rest : List ℕ) × (out ≡ c ∷ rest) × Prints ps rest
Prints (Piece.number n ∷ ps) out =
    (s : List ℕ) × (rest : List ℕ) × IsDecimal n s × (out ≡ s ++ rest) × Prints ps rest

-- The number of digits of a 64-bit number, at most.
abbrev pub digit_bound : ℕ → ℕ
digit_bound n = if ltb n 100 then 2 else 20

-- No output is longer.
abbrev pub width : List Piece → ℕ
width [] = 0
width (Piece.char c ∷ ps) = 1 + width ps
width (Piece.number n ∷ ps) = digit_bound n + width ps

pow-big : (c k : ℕ) → 10 ^ c ≤ 10 ^ (c + k)
pow-big c zero = rw (add-zero c) (omega arith)
pow-big c (suc k) =
    let at : 10 ^ (c + suc k) ≡ 10 ^ suc (c + k) = ap (λ (t : ℕ). 10 ^ t) (omega arith) in
    omega (arith, at, pow-big c k, pow-suc 10 (c + k))

length_of_pow : (c l n : ℕ) → n * 10 < 10 ^ c → 10 ^ l ≤ n * 10 → l < c
length_of_pow c l n small short = elim (Bool-cases (ltb l c)) [
  | inl e ↦ ground arith
  | inr e ↦
      let at : l ≡ c + (l - c) = ground arith in
      let big : 10 ^ c ≤ 10 ^ l = subst (λ (t : ℕ). 10 ^ c ≤ 10 ^ t) (sym at) (pow-big c (l - c)) in
      absurd (omega (arith, big))
]

pub IsDecimal-length : (n : ℕ) (s : List ℕ) → n < 2 ^ 64 → IsDecimal n s → length s ≤ digit_bound n
IsDecimal-length n s l d = elim (Bool-cases (ltb n 100)) [
  | inl e ↦ rw e (elim d.shortest [
    | inl (_, one) ↦ rw one (omega arith)
    | inr short ↦
        let small : n < 100 = ground arith in
        omega (arith, length_of_pow 3 (length s) n (omega arith) short)
  ])
  | inr e ↦ rw e (elim d.shortest [
    | inl (_, one) ↦ rw one (omega arith)
    | inr short ↦ omega (arith, length_of_pow 21 (length s) n (omega arith) short)
  ])
]

pub digit_bound_range : (n : ℕ) → (2 ≤ digit_bound n) × (digit_bound n ≤ 20)
digit_bound_range n = ground arith

pub put_digits-outside :
    (n p j : ℕ) (d m : Memory) (a : ℕ) → (a < p) ⊎ (p + n ≤ a) → put_digits n p j d m a ≡ m a
unfolding put_digits
put_digits-outside zero p j d m a h = refl
put_digits-outside (suc n) p j d m a h =
    ground (arith, put_digits-outside n (p + 1) (j + 1) d (store p (d j) m) a)

pub put_digits-at :
    (n p j : ℕ) (d m : Memory) (k : ℕ) → k < n → put_digits n p j d m (p + k) ≡ d (j + k)
unfolding put_digits
put_digits-at zero p j d m k l = absurd (omega arith)
put_digits-at (suc n) p j d m zero l =
    let m₁ = store p (d j) m in
    let self : p + zero == p ≡ true = ground arith in
    put_digits-outside n (p + 1) (j + 1) d m₁ (p + zero) (inl (omega arith))
    ∙ rw self (ap d {x = j} {y = j + zero} (omega arith))
put_digits-at (suc n) p j d m (suc k) l =
    ap (put_digits n (p + 1) (j + 1) d (store p (d j) m)) {x = p + suc k} {y = p + 1 + k}
      (omega arith)
    ∙ put_digits-at n (p + 1) (j + 1) d (store p (d j) m) k (omega arith)
    ∙ ap d {x = j + 1 + k} {y = j + suc k} (omega arith)

-- The bytes of a string, without its 0, and a string behind them.
pub IsString-join :
    (d m : Memory) (p q : ℕ) (s t : List ℕ)
    → ((k : ℕ) → k < length s → m (p + k) ≡ d (q + k))
    → IsString d q s
    → IsString m (p + length s) t
    → IsString m p (s ++ t)
IsString-join d m p q [] t same h k = rw (add-zero p) at k
IsString-join d m p q (c ∷ s) t same (e, ne, rest) k = (
  ap m {x = p} {y = p + 0} (omega arith)
      ∙ same 0 (omega arith)
      ∙ ap d {x = q + 0} {y = q} (omega arith)
      ∙ e,
  ne,
  IsString-join d m (p + 1) (q + 1) s t
      (λ j l.
        ap m {x = p + 1 + j} {y = p + suc j} (omega arith)
        ∙ same (suc j) (omega arith)
        ∙ ap d {x = q + suc j} {y = q + 1 + j} (omega arith))
      rest
      (subst (λ (a : ℕ). IsString m a t) {x = p + suc (length s)} {y = p + 1 + length s}
        (omega arith) k),
)
