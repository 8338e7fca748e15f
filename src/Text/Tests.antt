-- ===== src/Text/Tests.antt =====
-- Runs of string.c on concrete strings, and its theorems applied there.
use mksd_old_archive.Base.{
  ℕ, ◌+◌, ◌≤◌, ◌<◌, ◌≡◌, ◌⊎◌, inl, inr, refl, arith, Option, some, List, [], ◌∷◌, ◌++◌, Memory,
  get_or, IsString,
}
use mksd_old_archive.Text.{strdilm_count, count_from, strsplit}
use mksd_old_archive.Text.Split.{from_part, IsPart, strsplit-IsPart}
use mksd_old_archive.Text.Number.{dec2str, hex2str}
use mksd_old_archive.Text.Number.Hex.{IsHex, hex2str-IsHex}
use mksd_old_archive.Text.Number.Decimal.{IsDecimal, dec2str-IsDecimal}
use mksd_old_archive.Base.Outcome.{Outcome}
use mksd_old_archive.Text.Printk.{Arg, Terminal, printk}
use mksd_old_archive.Text.Printk.Pieces as Printk
use mksd_old_archive.Text.Printk.Prints.{printk-Prints}
use mksd_old_archive.Text.Snprintf.{Print, snprintf}
use mksd_old_archive.Text.Snprintf.Format.{Piece, Prints}
use mksd_old_archive.Text.Snprintf.Prints.{snprintf-Prints}

-- The string "a.bc" at 0, and "bc" at 16.
abbrev dotted : List ℕ
dotted = b'a' ∷ b'.' ∷ b'b' ∷ b'c' ∷ []

abbrev plain : List ℕ
plain = b'b' ∷ b'c' ∷ []

abbrev ram : Memory
ram = λ a.
    get_or
      (b'a' ∷ b'.' ∷ b'b' ∷ b'c' ∷ 0 ∷ 0 ∷ 0 ∷ 0 ∷ 0 ∷ 0 ∷ 0 ∷ 0 ∷ 0 ∷ 0 ∷ 0 ∷ 0 ∷ b'b' ∷ b'c' ∷ 0
        ∷ [])
      a 0

dotted_at : IsString ram 0 dotted
dotted_at = (refl, omega arith, (refl, omega arith, (refl, omega arith, (refl, omega arith, refl))))

plain_at : IsString ram 16 plain
plain_at = (refl, omega arith, (refl, omega arith, refl))

strsplit-IsPart_example :
    (out : Option ℕ × Memory) × (strsplit 8 64 ram 0 b'.' 1 ≡ some out)
    × IsPart 64 b'.' (from_part b'.' 1 dotted) ram out
strsplit-IsPart_example =
    strsplit-IsPart 8 64 0 b'.' 1 dotted ram dotted_at (omega arith) (inr (omega arith))

dec2str-IsDecimal_example :
    (m' : Memory) × (s : List ℕ) × (dec2str 22 1234 ram ≡ some m')
    × IsString m' 0 s
    × IsDecimal 1234 s
dec2str-IsDecimal_example = dec2str-IsDecimal 1234 ram (omega arith)

hex2str-IsHex_example :
    (m' : Memory) × (s : List ℕ) × (hex2str 32 0x1F4 ram ≡ some m')
    × IsString m' 0 (b'0' ∷ b'x' ∷ s)
    × IsHex 0x1F4 s
hex2str-IsHex_example = hex2str-IsHex 0x1F4 ram (omega arith)

part_of : strdilm_count 8 ram 0 b'.' ≡ some 1
unfolding strdilm_count count_from
part_of = refl

-- The format "a%d" at 0.
abbrev pieces : List Piece
pieces = Piece.char b'a' ∷ Piece.number 42 ∷ []

abbrev with_format : Memory
with_format a = get_or (b'a' ∷ b'%' ∷ b'd' ∷ []) a 0

snprintf-Prints_example :
    (s' : Print) × (out : List ℕ) × (snprintf 4 100 23 0 (42 ∷ []) ram with_format
      ≡ Outcome.done s')
    × IsString s'.memory 100 out
    × Prints pieces out
    × ((a : ℕ) → (a < 100) ⊎ (100 + 23 ≤ a) → s'.memory a ≡ with_format a)
snprintf-Prints_example =
    snprintf-Prints pieces 4 100 23 0 ram with_format
      ((omega arith, omega arith), (omega arith, tt)) (omega arith) (omega arith) (omega arith)
      (refl, omega arith, (refl, omega arith, (refl, omega arith, refl))) (inl (omega arith))

-- The format "a%s%x" at 0, with the string "bc" at 16.
abbrev printed_pieces : List Printk.Piece
printed_pieces = Printk.Piece.text b'a' ∷ Printk.Piece.string 16 plain ∷ Printk.Piece.hex 300 ∷ []

abbrev printk_memory : Memory
printk_memory a =
    get_or
      (b'a' ∷ b'%' ∷ b's' ∷ b'%' ∷ b'x' ∷ 0 ∷ 0 ∷ 0 ∷ 0 ∷ 0 ∷ 0 ∷ 0 ∷ 0 ∷ 0 ∷ 0 ∷ 0 ∷ b'b' ∷ b'c'
        ∷ [])
      a 0

abbrev terminal : Terminal
terminal = record { written = b'>' ∷ []; dec_string = λ a. 0; hex_string = λ a. 0 }

printk-Prints_example :
    (t' : Terminal) × (out : List ℕ) × (printk 22 printk_memory 0
        (Arg.string 16 ∷ Arg.number 300 ∷ [])
        terminal
      ≡ Outcome.done t')
    × (t'.written ≡ (b'>' ∷ []) ++ out)
    × Printk.Prints printed_pieces out
printk-Prints_example =
    printk-Prints printed_pieces 22 0 printk_memory terminal
      (
        (omega arith, omega arith),
        (((refl, omega arith, (refl, omega arith, refl)), omega arith), (omega arith, tt)),
      )
      (omega arith) (omega arith)
      (
        refl,
        omega arith,
        (refl, omega arith, (refl, omega arith, (refl, omega arith, (refl, omega arith, refl)))),
      )
