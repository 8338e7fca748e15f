-- ===== src/Text/Number.antt =====
-- dec2str and hex2str of sys/src/lib/string.c. The static buffer is a memory of its own, indexed
-- from 0; its old content is an argument. `none` means that a loop's fuel ran out.
pub mod Reverse
pub mod Digits
pub mod Decimal
pub mod Hex
use mksd_old_archive.Base.{
  ℕ, zero, suc, ◌+◌, ◌-◌, ◌*◌, ◌/◌, ◌%◌, ◌^◌, bit_and, Bool, true, false, Option, none, some, List,
  [], ◌∷◌, ltb, ◌==◌, if◌then◌else◌, u8, Memory, store, get_or,
}

infixl 5 ◌>>=◌
abbrev pub ◌>>=◌ {ℓ κ} : {A : Type ℓ} {B : Type κ} → Option A → (A → Option B) → Option B
none >>= f = none
some a >>= f = f a

-- `for (j; j < i; j++, i--)` with the swap of `string[j]` and `string[i]`.
unfoldable pub reverse_from : ℕ → ℕ → ℕ → Memory → Option Memory
reverse_from zero j i string = none
reverse_from (suc fuel) j i string =
    let rest =
      reverse_from fuel (u8 (j + 1)) (u8 (i - 1))
        (store i (string j) (store j (string i) string)) in
    if ltb j i then rest else some string

-- `while (number > 0)` of `dec2str`
unfoldable pub dec_digits : ℕ → ℕ → ℕ → Memory → Option (ℕ × Memory)
dec_digits zero number i dec_string = none
dec_digits (suc fuel) number i dec_string =
    let rest =
      dec_digits fuel (number / 10) (u8 (i + 1)) (store i (u8 (number % 10 + b'0')) dec_string) in
    if number == 0 then some (i, dec_string) else rest

-- On an unsigned number the test `number < 0` fails, so no sign is written.
unfoldable pub dec2str : ℕ → ℕ → Memory → Option Memory
dec2str fuel number dec_string = do
  (i, filled) ←
      (if number == 0
        then dec_digits fuel number 1 (store 0 b'0' dec_string)
        else dec_digits fuel number 0 dec_string)
  reverse_from fuel 0 (u8 (i + 255)) (store i 0 filled)

abbrev pub ascii_numbers : List ℕ
ascii_numbers =
    b'0' ∷ b'1' ∷ b'2' ∷ b'3' ∷ b'4' ∷ b'5' ∷ b'6' ∷ b'7' ∷ b'8' ∷ b'9' ∷ b'A' ∷ b'B' ∷ b'C' ∷ b'D'
    ∷ b'E' ∷ b'F' ∷ []

-- `while (hex_num > 0)` of `hex2str`
unfoldable pub hex_digits : ℕ → ℕ → ℕ → Memory → Option (ℕ × Memory)
hex_digits zero hex_num i hex_string = none
hex_digits (suc fuel) hex_num i hex_string =
    let rest =
      hex_digits fuel (hex_num / 2 ^ 4) (u8 (i + 1))
        (store i (get_or ascii_numbers (bit_and (u8 hex_num) 0x0F) 0) hex_string) in
    if hex_num == 0 then some (i, hex_string) else rest

-- The second digit of a number below 16.
unfoldable pub pad_digit : ℕ → ℕ × Memory → ℕ × Memory
pad_digit hex_num (i, hex_string) =
    if ltb hex_num 0x10 then (u8 (i + 1), store i b'0' hex_string) else (i, hex_string)

unfoldable pub hex2str : ℕ → ℕ → Memory → Option Memory
hex2str fuel hex_num hex_string = do
  digits ←
      (if hex_num == 0
        then hex_digits fuel hex_num 1 (store 1 0 (store 0 b'0' hex_string))
        else hex_digits fuel hex_num 0 hex_string)
  (let (i, padded) = pad_digit hex_num digits in
      reverse_from fuel 0 (u8 (u8 (u8 (i + 1) + 1) + 255))
        (store (u8 (u8 (i + 1) + 1)) 0 (store (u8 (i + 1)) b'0' (store i b'x' padded))))
