-- ===== src/Text/Number/Decimal.antt =====
-- dec2str writes the decimal print of its argument.
use mathlib.Core.List.{reverse}
use mksd_old_archive.Base.{
  ℕ, zero, suc, ◌+◌, ◌-◌, ◌*◌, ◌/◌, ◌%◌, ◌^◌, ◌≤◌, ◌<◌, ◌≡◌, ◌≢◌, ◌⊎◌, refl, ap, All, All-reverse,
  ◌∙◌, arith, some, false, ◌==◌, Memory, store, IsString, List, [], ◌∷◌, length, u8, Bool-cases,
  ==_iff, inl, inr,
}
use mksd_old_archive.Text.Number.{◌>>=◌, reverse_from, dec_digits, dec2str}
use mksd_old_archive.Text.Number.Reverse.{reverse_from-Turned, Turned-IsString, length-reverse}
use mksd_old_archive.Text.Number.Digits.{
  low_first, value_from, emit, emit-low_first, value_from-low_first, low_first_shortest,
  low_first-pos, All-low_first,
}

abbrev pub dec_char : ℕ → ℕ
dec_char d = u8 (d + b'0')

-- The number that decimal digits spell.
abbrev pub decimal_value : List ℕ → ℕ
decimal_value = value_from 10 dec_char (λ c. c - b'0') 0

abbrev pub IsDigit : ℕ → Type 0
IsDigit c = (b'0' ≤ c) × (c ≤ b'9')

dec_digits-emit : (fuel n i : ℕ) (m : Memory) → dec_digits fuel n i m ≡ emit 10 dec_char fuel n i m
unfolding dec_digits emit
dec_digits-emit zero n i m = refl
dec_digits-emit (suc fuel) n i m =
    ground (arith, dec_digits-emit fuel (n / 10) (u8 (i + 1)) (store i (dec_char (n % 10)) m))

-- A print with its value: only digits, no digit more than needed.
pub record IsDecimal (n : ℕ) (s : List ℕ) : Type 0 where
  pub digits : All IsDigit s
  pub value : decimal_value s ≡ n
  pub shortest : ((n ≡ 0) × (s ≡ b'0' ∷ [])) ⊎ (10 ^ length s ≤ n * 10)

dec_zero : (m : Memory) → (m' : Memory) × (dec2str 22 0 m ≡ some m') × IsString m' 0 (b'0' ∷ [])
unfolding dec2str dec_digits reverse_from
dec_zero m = (store 1 0 (store 0 b'0' m), refl, (refl, omega arith, refl))

dec_value : (d : ℕ) → d < 10 → dec_char d - b'0' ≡ d
dec_value d h = omega arith

dec_finish :
    (fuel n i : ℕ) (m m₁ m' : Memory)
    → 0 < n
    → dec_digits fuel n 0 m ≡ some (i, m₁)
    → 0 < i
    → i < 128
    → reverse_from fuel 0 (i - 1) (store i 0 m₁) ≡ some m'
    → dec2str fuel n m ≡ some m'
unfolding dec2str
dec_finish fuel n i m m₁ m' pos run some_digits short turn =
    let last : u8 (i + 255) ≡ i - 1 = omega arith in
    let more : (n == 0) ≡ false = ground arith in rw (more, run, ◌>>=◌, last) turn

dec_char-ne_zero : (d : ℕ) → d < 10 → dec_char d ≢ 0
dec_char-ne_zero d h = omega arith

dec_positive :
    (n : ℕ) (m : Memory)
    → 0 < n
    → n < 2 ^ 64
    → (m' : Memory) × (dec2str 22 n m ≡ some m')
      × IsString m' 0 (reverse (low_first 10 dec_char 21 n))
dec_positive n m pos h =
    let s = low_first 10 dec_char 21 n in
    let (m₁, run, holds, _, short) =
      emit-low_first 10 dec_char 21 n 0 m (omega arith) (omega arith) (omega arith) in
    let some_digits : 0 < length s = low_first-pos 10 dec_char 20 n pos in
    let (m', turn, turned) =
      reverse_from-Turned 22 0 (length s - 1) (store (length s) 0 m₁) (omega arith) (omega arith)
        (omega arith) (omega arith) in
    (
      m',
      dec_finish 22 n (length s) m m₁ m' pos
          (dec_digits-emit 22 n 0 m ∙ run ∙ ap (λ (t : ℕ). some (t, m₁)) (omega arith)) some_digits
          (omega arith) turn,
      Turned-IsString (length s) s m₁ m' refl some_digits holds
          (All-low_first 10 dec_char (λ c. c ≢ 0) 21 n (omega arith) dec_char-ne_zero) turned,
    )

length-reversed : (s : List ℕ) → 10 ^ length (reverse s) ≡ 10 ^ length s
length-reversed s = ap (λ (t : ℕ). 10 ^ t) (length-reverse s)

-- For every `size_t` the loops of `dec2str` end, and leave the decimal print of the number at the
-- start of the buffer: only digits, with that value, and no digit more than needed.
pub dec2str-IsDecimal :
    (n : ℕ) (m : Memory)
    → n < 2 ^ 64
    → (m' : Memory) × (s : List ℕ) × (dec2str 22 n m ≡ some m') × IsString m' 0 s × IsDecimal n s
dec2str-IsDecimal n m h = elim (Bool-cases (n == 0)) [
  | inl e ↦
      let (m', run, string) = dec_zero m in
      rw ((==_iff n 0).0 e) (
        m',
        b'0' ∷ [],
        run,
        string,
        record {
          digits = omega arith;
          value = unfold value_from in refl;
          shortest = inl (refl, refl);
        },
      )
  | inr e ↦
      let pos : 0 < n = ground arith in
      let (m', run, string) = dec_positive n m pos h in
      let s = low_first 10 dec_char 21 n in
      (
        m',
        reverse s,
        run,
        string,
        record {
          digits =
              All-reverse IsDigit s
                (All-low_first 10 dec_char IsDigit 21 n (omega arith) λ d l. omega arith);
          value =
              value_from-low_first 10 dec_char (λ c. c - b'0') 21 n (omega arith) dec_value
                (omega arith);
          shortest =
              inr (rw (length-reversed s) (low_first_shortest 10 dec_char 21 n (omega arith) pos));
        },
      )
]
