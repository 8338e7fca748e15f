-- ===== src/Net/Checksum.antt =====
-- sys/src/net/checksum.c. `none` means that the fuel of the last loop ran out.
pub mod Sum
use mksd_old_archive.Base.{
  ℕ, zero, suc, ◌+◌, ◌-◌, ◌*◌, ◌/◌, ◌%◌, ◌^◌, bit_and, bit_or, Option, none, some, ◌==◌,
  if◌then◌else◌, u8, u16, u32, ◌<<<◌, ◌>>>◌, complement, Memory, load,
}

-- The bytes of the word, the first one high.
unfoldable pub convert : ℕ → ℕ
convert os = u16 (bit_or (u8 os <<< 8) (u8 (os >>> 8)))

-- `checksum` after one round of the first loop.
unfoldable pub add_word : ℕ → ℕ → ℕ
add_word checksum word =
    let sum = u32 (checksum + convert word) in
    if bit_and sum 0x80000000 == 0 then sum else bit_or (bit_and sum 0xFFFF) (sum >>> 16)

-- `while (count > 1)`
unfoldable pub sum_from : ℕ → Memory → ℕ → ℕ → ℕ
sum_from zero m w checksum = checksum
sum_from (suc zero) m w checksum = checksum
sum_from (suc (suc count)) m w checksum = sum_from count m (w + 2) (add_word checksum (load 2 m w))

-- `while (checksum >> 16)`
unfoldable pub fold_carry : ℕ → ℕ → Option ℕ
fold_carry zero checksum = none
fold_carry (suc fuel) checksum =
    let rest = fold_carry fuel (u32 (bit_and checksum 0xFFFF + (checksum >>> 16))) in
    if checksum >>> 16 == 0 then some checksum else rest

unfoldable pub internet_checksum : ℕ → Memory → ℕ → ℕ → Option ℕ
internet_checksum fuel m ptr count = elim (fold_carry fuel (sum_from count m ptr 0)) [
  | none ↦ none
  | some checksum ↦ some (convert (u16 (complement 32 checksum)))
]
