-- ===== src/Net/Checksum/Sum.antt =====
-- The Internet checksum as RFC 1071 describes it: the words of a block and its checksum, both read
-- high byte first, add up to a multiple of 65535.
use mksd_old_archive.Base.{
  ℕ, zero, suc, ◌+◌, ◌*◌, ◌/◌, ◌%◌, ◌^◌, ◌≤◌, ◌<◌, bit_and, ◌≡◌, inl, inr, refl, ap, ◌∙◌, arith,
  some, ◌==◌, Bool-cases, u8, u16, u32, ◌>>>◌, complement, Memory, load,
}
use mksd_old_archive.Base.Bits.Masks.{bit_or_fields, bit_and-low_mask, bit_and-two-pow, bit_eq_div}
use mksd_old_archive.Net.Checksum.{convert, add_word, sum_from, fold_carry, internet_checksum}

-- The sum of the whole words of a block of `count` bytes; an odd last byte is left out.
unfoldable pub words_sum : ℕ → Memory → ℕ → ℕ
words_sum zero m w = 0
words_sum (suc zero) m w = 0
words_sum (suc (suc count)) m w = 256 * u8 (m w) + u8 (m (w + 1)) + words_sum count m (w + 2)

pub convert_lem : (os : ℕ) → convert os ≡ os % 256 * 256 + os / 256 % 256
unfolding convert
convert_lem os = omega (arith, bit_or_fields 8 (u8 os) (u8 (os >>> 8)) (omega arith))

word_lem : (m : Memory) (w : ℕ) → convert (load 2 m w) ≡ 256 * u8 (m w) + u8 (m (w + 1))
unfolding load
word_lem m w = omega (arith, convert_lem (load 2 m w))

add_word_lem :
    (checksum word : ℕ)
    → checksum + convert word < 2 ^ 31
    → add_word checksum word ≡ checksum + convert word
unfolding add_word
add_word_lem checksum word h =
    let sum = u32 (checksum + convert word) in
    ground (arith, bit_and-two-pow 31 sum, bit_eq_div 31 sum)

words_sum-lt : (count : ℕ) (m : Memory) (w : ℕ) → words_sum count m w * 2 ≤ count * 65535
unfolding words_sum
words_sum-lt zero m w = omega arith
words_sum-lt (suc zero) m w = omega arith
words_sum-lt (suc (suc count)) m w = omega (arith, words_sum-lt count m (w + 2))

sum_from-words_sum :
    (count : ℕ) (m : Memory) (w checksum : ℕ)
    → checksum + words_sum count m w < 2 ^ 31
    → sum_from count m w checksum ≡ checksum + words_sum count m w
unfolding sum_from words_sum
sum_from-words_sum zero m w checksum h = omega arith
sum_from-words_sum (suc zero) m w checksum h = omega arith
sum_from-words_sum (suc (suc count)) m w checksum h =
    let step = add_word_lem checksum (load 2 m w) (omega (arith, word_lem m w)) in
    ap (sum_from count m (w + 2)) step
    ∙ sum_from-words_sum count m (w + 2) (checksum + convert (load 2 m w))
        (omega (arith, word_lem m w))
    ∙ omega (arith, word_lem m w)

fold_step : (c : ℕ) → c < 2 ^ 32 → u32 (bit_and c 0xFFFF + (c >>> 16)) ≡ c % 2 ^ 16 + c / 2 ^ 16
fold_step c h = omega (arith, bit_and-low_mask 16 c)

-- The carries fold away with this fuel.
abbrev Folds : ℕ → ℕ → Type 0
Folds fuel c = (r : ℕ) × (fold_carry fuel c ≡ some r) × (r < 2 ^ 16) × (r % 65535 ≡ c % 65535)

fold_done : (fuel c : ℕ) → c < 2 ^ 16 → Folds (suc fuel) c
unfolding fold_carry
fold_done fuel c h = (c, ground arith, h, refl)

fold_next : (fuel c : ℕ) → c < 2 ^ 32 → Folds fuel (c % 2 ^ 16 + c / 2 ^ 16) → Folds (suc fuel) c
unfolding fold_carry
fold_next fuel c h (r, run, small, same) = elim (Bool-cases (c >>> 16 == 0)) [
  | inl e ↦ fold_done fuel c (ground arith)
  | inr e ↦ (r, rw e (ap (fold_carry fuel) (fold_step c h) ∙ run), small, omega arith)
]

fold_carry-Folds : (c : ℕ) → c < 2 ^ 32 → Folds 4 c
fold_carry-Folds c h =
    let c₁ = c % 2 ^ 16 + c / 2 ^ 16 in
    fold_next 3 c h
      (fold_next 2 c₁ (omega arith) (fold_done 1 (c₁ % 2 ^ 16 + c₁ / 2 ^ 16) (omega arith)))

sum_from-odd :
    (half : ℕ) (m : Memory) (w checksum : ℕ)
    → sum_from (2 * half + 1) m w checksum ≡ sum_from (2 * half) m w checksum
unfolding sum_from
sum_from-odd zero m w checksum = refl
sum_from-odd (suc half) m w checksum =
    ap (λ (t : ℕ). sum_from t m w checksum) {x = 2 * suc half + 1} {y = suc (suc (2 * half + 1))}
      (omega arith)
    ∙ sum_from-odd half m (w + 2) (add_word checksum (load 2 m w))
    ∙ ap (λ (t : ℕ). sum_from t m w checksum) {x = suc (suc (2 * half))} {y = 2 * suc half}
        (omega arith)

-- For a block of at most 65536 bytes, `internet_checksum` ends, and its result, read high byte
-- first, adds up with the whole words of the block to a multiple of 65535.
pub internet_checksum_lem :
    (m : Memory) (ptr count : ℕ)
    → count ≤ 65536
    → (c : ℕ) × (internet_checksum 4 m ptr count ≡ some c)
      × (c < 2 ^ 16)
      × ((convert c + words_sum count m ptr) % 65535 ≡ 0)
unfolding internet_checksum
internet_checksum_lem m ptr count h =
    let bound = words_sum-lt count m ptr in
    let sum = sum_from-words_sum count m ptr 0 (omega arith) in
    let (r, run, small, same) = fold_carry-Folds (sum_from count m ptr 0) (omega arith) in
    let inverse = u16 (complement 32 r) in
    (
      convert inverse,
      rw (run, internet_checksum) refl,
      omega (arith, convert_lem inverse),
      omega (arith, convert_lem inverse, convert_lem (convert inverse)),
    )

-- The checksum of a block with an odd number of bytes is that of the block without its last byte.
pub internet_checksum-odd :
    (fuel half : ℕ) (m : Memory) (ptr : ℕ)
    → internet_checksum fuel m ptr (2 * half + 1) ≡ internet_checksum fuel m ptr (2 * half)
unfolding internet_checksum
internet_checksum-odd fuel half m ptr = rw (sum_from-odd half m ptr 0, internet_checksum) refl
