-- ===== src/Text/Number/Hex.antt =====
-- hex2str writes "0x", and then the hexadecimal print of its argument on two digits or more.
use mathlib.Core.List.{reverse, reverse-append}
use mksd_old_archive.Base.Bits.Masks.{bit_and-low_mask}
use mksd_old_archive.Base.{
  ℕ, zero, suc, ◌+◌, ◌-◌, ◌*◌, ◌/◌, ◌%◌, ◌^◌, ◌≤◌, ◌<◌, ◌≡◌, ◌≢◌, refl, ap, All, All-reverse,
  All-append, subst, ◌∙◌, arith, some, true, false, ◌==◌, ltb, leb, ◌&&◌, ◌||◌, if◌then◌else◌,
  Memory, store, Holds, IsString, List, [], ◌∷◌, ◌++◌, length, length-append, u8, Bool, Bool-cases,
  ==_iff, ne→==, ltb→lt, inl, inr, get_or, bit_and, all_below, all_below_at,
}
use mksd_old_archive.Text.Number.{◌>>=◌, hex_digits, hex2str, pad_digit, ascii_numbers}
use mksd_old_archive.Text.Number.Reverse.{
  reverse_from-Turned, Turned-IsString, Holds-store, length-reverse,
}
use mksd_old_archive.Text.Number.Digits.{
  low_first, value_from, emit, emit-low_first, value_from-low_first, low_first_shortest,
  low_first-le, low_first_two, All-low_first,
}

abbrev pub hex_char : ℕ → ℕ
hex_char d = get_or ascii_numbers d 0

abbrev pub hex_digit : ℕ → ℕ
hex_digit c = if ltb c b'A' then c - b'0' else c - 55

abbrev pub hex_value : List ℕ → ℕ
hex_value = value_from 16 hex_char hex_digit 0

abbrev is_hex : ℕ → Bool
is_hex c = (leb b'0' c && leb c b'9') || (leb b'A' c && leb c b'F')

abbrev pub IsHexDigit : ℕ → Type 0
IsHexDigit c = is_hex c ≡ true

both : (a b : Bool) → (a && b) ≡ true → (a ≡ true) × (b ≡ true)
both true b h = (refl, h)
both false b h = cc

table :
    all_below 16 (λ d. (hex_digit (hex_char d) == d) && (is_hex (hex_char d) && ltb 0 (hex_char d)))
    ≡ true
unfolding all_below
table = refl

hex_char_lem :
    (d : ℕ) → d < 16 → (hex_digit (hex_char d) ≡ d) × IsHexDigit (hex_char d) × (hex_char d ≢ 0)
hex_char_lem d h =
    let row =
      all_below_at 16 d
        (λ d. (hex_digit (hex_char d) == d) && (is_hex (hex_char d) && ltb 0 (hex_char d))) table
        h in
    let (value, rest) = both (hex_digit (hex_char d) == d) _ row in
    let (hex, pos) = both (is_hex (hex_char d)) _ rest in ((==_iff _ _).0 value, hex, ground arith)

hex_digits-emit : (fuel n i : ℕ) (m : Memory) → hex_digits fuel n i m ≡ emit 16 hex_char fuel n i m
unfolding hex_digits emit
hex_digits-emit zero n i m = refl
hex_digits-emit (suc fuel) n i m =
    let nibble : bit_and (u8 n) 0x0F ≡ n % 16 = bit_and-low_mask 4 (u8 n) ∙ omega arith in
    ground
      (arith, nibble, hex_digits-emit fuel (n / 16) (u8 (i + 1)) (store i (hex_char (n % 16)) m))

abbrev prefixed : List ℕ → List ℕ
prefixed w = (w ++ b'x' ∷ []) ++ b'0' ∷ []

reverse-prefixed : (w : List ℕ) → reverse (prefixed w) ≡ b'0' ∷ b'x' ∷ reverse w
reverse-prefixed w =
    reverse-append (w ++ b'x' ∷ []) (b'0' ∷ [])
    ∙ ap (λ (t : List ℕ). b'0' ∷ t) (reverse-append w (b'x' ∷ []))

length-prefixed : (w : List ℕ) → length (prefixed w) ≡ length w + 2
length-prefixed w =
    length-append (w ++ b'x' ∷ []) (b'0' ∷ []) ∙ omega (arith, length-append w (b'x' ∷ []))

-- What follows the digits `w`, whichever way they were written.
hex_finish :
    (n k : ℕ) (m m₂ : Memory) (digits : ℕ × Memory) (w : List ℕ)
    → (if n == 0 then hex_digits 32 n 1 (store 1 0 (store 0 b'0' m)) else hex_digits 32 n 0 m)
      ≡ some digits
    → pad_digit n digits ≡ (k, m₂)
    → k ≡ length w
    → k < 32
    → Holds m₂ 0 w
    → All (λ c. c ≢ 0) w
    → (m' : Memory) × (hex2str 32 n m ≡ some m') × IsString m' 0 (b'0' ∷ b'x' ∷ reverse w)
unfolding hex2str
hex_finish n k m m₂ digits w run pad len room holds nz =
    let m₃ = store (k + 1) b'0' (store k b'x' m₂) in
    let (m', turn, turned) =
      reverse_from-Turned 32 0 (k + 2 - 1) (store (k + 2) 0 m₃) (omega arith) (omega arith)
        (omega arith) (omega arith) in
    let one : u8 (k + 1) ≡ k + 1 = omega arith in
    let two : u8 (k + 1 + 1) ≡ k + 2 = omega arith in
    let last : u8 (k + 2 + 255) ≡ k + 2 - 1 = omega arith in
    (
      m',
      rw (run, ◌>>=◌, pad, one, two, last) turn,
      subst (IsString m' 0) (reverse-prefixed w) (
          Turned-IsString (k + 2) (prefixed w) m₃ m' (omega (arith, length-prefixed w))
            (omega arith)
            (Holds-store (store k b'x' m₂) (k + 1) b'0' (w ++ b'x' ∷ [])
              (omega (arith, length-append w (b'x' ∷ []))) (Holds-store m₂ k b'x' w len holds))
            (All-append (λ c. c ≢ 0) (w ++ b'x' ∷ []) (b'0' ∷ [])
              (All-append (λ c. c ≢ 0) w (b'x' ∷ []) nz (omega arith, tt)) (omega arith, tt))
            turned),
    )

hex_run :
    (n : ℕ) (m : Memory)
    → 0 < n
    → n < 2 ^ 64
    → (m₁ : Memory) × ((if n == 0
          then hex_digits 32 n 1 (store 1 0 (store 0 b'0' m))
          else hex_digits 32 n 0 m)
        ≡ some (length (low_first 16 hex_char 31 n), m₁))
      × Holds m₁ 0 (low_first 16 hex_char 31 n)
hex_run n m pos h =
    let (m₁, run, holds, _, short) =
      emit-low_first 16 hex_char 31 n 0 m (omega arith) (omega arith) (omega arith) in
    let more : (n == 0) ≡ false = ground arith in
    (
      m₁,
      rw more (hex_digits-emit 32 n 0 m ∙ run ∙ ap (λ (t : ℕ). some (t, m₁)) (omega arith)),
      holds,
    )

-- A print with its value, on at least two digits, and on no more than needed.
pub record IsHex (n : ℕ) (s : List ℕ) : Type 0 where
  pub digits : All IsHexDigit s
  pub value : hex_value s ≡ n
  pub padded : 2 ≤ length s
  pub shortest : (n < 16 → length s ≡ 2) × (16 ≤ n → 16 ^ length s ≤ n * 16)

low_single : (fuel n : ℕ) → 0 < n → n < 16 → low_first 16 hex_char (suc fuel) n ≡ hex_char n ∷ []
unfolding low_first
low_single zero n pos h = ground arith
low_single (suc fuel) n pos h =
    let e : n % 16 ≡ n = omega arith in
    let z : n / 16 ≡ 0 = omega arith in rw (ne→== n 0 (omega arith), e, z)

abbrev HexString : ℕ → Memory → Type 0
HexString n m =
    (m' : Memory) × (s : List ℕ) × (hex2str 32 n m ≡ some m')
    × IsString m' 0 (b'0' ∷ b'x' ∷ s)
    × IsHex n s

hex_zero : (m : Memory) → HexString 0 m
hex_zero m =
    let (m', run, string) =
      hex_finish 0 2 m (store 1 b'0' (store 1 0 (store 0 b'0' m))) (1, store 1 0 (store 0 b'0' m))
        (b'0' ∷ b'0' ∷ []) (unfold hex_digits in refl) (unfold pad_digit in refl) refl (omega arith)
        (omega arith) (omega arith) in
    (
      m',
      b'0' ∷ b'0' ∷ [],
      run,
      string,
      record {
        digits = (refl, (refl, tt));
        value = unfold value_from in refl;
        padded = omega arith;
        shortest = ((λ _. refl), λ l. absurd (omega arith));
      },
    )

hex_small : (n : ℕ) (m : Memory) → 0 < n → n < 16 → HexString n m
hex_small n m pos h =
    let (m₁, run, holds) = hex_run n m pos (omega arith) in
    let one = low_single 30 n pos h in
    let (value, hex, nz) = hex_char_lem n h in
    let (m', done, string) =
      hex_finish n 2 m (store 1 b'0' m₁) (1, m₁) (hex_char n ∷ b'0' ∷ [])
        (run ∙ ap (λ (w : List ℕ). some (length w, m₁)) one) (unfold pad_digit in ground arith) refl
        (omega arith) (Holds-store m₁ 1 b'0' (hex_char n ∷ []) refl (subst (Holds m₁ 0) one holds))
        (nz, omega arith) in
    (
      m',
      b'0' ∷ hex_char n ∷ [],
      done,
      string,
      record {
        digits = (refl, (hex, tt));
        value = unfold value_from in omega arith;
        padded = omega arith;
        shortest = ((λ _. refl), λ l. absurd (omega arith));
      },
    )

hex_large : (n : ℕ) (m : Memory) → 16 ≤ n → n < 2 ^ 64 → HexString n m
hex_large n m large h =
    let s = low_first 16 hex_char 31 n in
    let (m₁, run, holds) = hex_run n m (omega arith) h in
    let fits = low_first-le 16 hex_char 31 n in
    let (m', done, string) =
      hex_finish n (length s) m m₁ (length s, m₁) s run (unfold pad_digit in ground arith) refl
        (omega arith) holds
        (All-low_first 16 hex_char (λ c. c ≢ 0) 31 n (omega arith) λ d l. (hex_char_lem d l).2) in
    (
      m',
      reverse s,
      done,
      string,
      record {
        digits =
            All-reverse IsHexDigit s
              (All-low_first 16 hex_char IsHexDigit 31 n (omega arith) λ d l. (hex_char_lem d l).1);
        value =
            value_from-low_first 16 hex_char hex_digit 31 n (omega arith)
              (λ d l. (hex_char_lem d l).0) (omega arith);
        padded = rw length-reverse (low_first_two 16 hex_char 29 n (omega arith) large);
        shortest = (
          (λ l. absurd (omega arith)),
          λ _. rw length-reverse (low_first_shortest 16 hex_char 31 n (omega arith) (omega arith)),
        );
      },
    )

-- For every `uint64_t` the loops of `hex2str` end, and leave "0x" and the hexadecimal print of the
-- number at the start of the buffer: only digits, with that value, two of them for a number below
-- 16, and no digit more than needed for any other.
pub hex2str-IsHex :
    (n : ℕ) (m : Memory)
    → n < 2 ^ 64
    → (m' : Memory) × (s : List ℕ) × (hex2str 32 n m ≡ some m')
      × IsString m' 0 (b'0' ∷ b'x' ∷ s)
      × IsHex n s
hex2str-IsHex n m h = elim (Bool-cases (n == 0)) [
  | inl e ↦ rw ((==_iff n 0).0 e) (hex_zero m)
  | inr e ↦ elim (Bool-cases (ltb n 16)) [
    | inl l ↦ hex_small n m (ground arith) (ltb→lt n 16 l)
    | inr l ↦ hex_large n m (ground arith) h
  ]
]
