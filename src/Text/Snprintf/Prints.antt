-- ===== src/Text/Snprintf/Prints.antt =====
-- snprintf writes the characters of its format and its arguments in decimal.
use mksd_old_archive.Base.{
  ℕ, zero, suc, ◌+◌, ◌^◌, ◌≤◌, ◌<◌, ◌≡◌, ◌≢◌, ◌⊎◌, inl, refl, sym, ap, subst, ◌∙◌, arith, true,
  false, some, List, [], ◌∷◌, ◌++◌, leb, ◌==◌, sub64, length, Memory, store, IsString, IsString-ext,
  All,
}
use mksd_old_archive.Base.Outcome.{Outcome, ◌>>=◌}
use mksd_old_archive.Text.{strlen}
use mksd_old_archive.Text.Compare.{strlen-IsString}
use mksd_old_archive.Text.Number.Decimal.{IsDecimal, dec2str-IsDecimal}
use mksd_old_archive.Text.Snprintf.{
  Print, put, put_digits, put_number, convert, print_from, snprintf,
}
use mksd_old_archive.Text.Snprintf.Format.{
  Piece, format, arguments, IsPiece, Prints, width, IsDecimal-length, digit_bound_range,
  put_digits-outside, put_digits-at, IsString-join,
}

-- The state after a number is printed as the digits `w`, which stand in the buffer `d`.
abbrev numbered : ℕ → List ℕ → Memory → List ℕ → Print → Print
numbered str w d args s = record {
  at = s.at + length w;
  args = args;
  memory = put_digits (length w) (str + s.at) 0 d s.memory;
  dec_string = d;
}

convert-number :
    (str n : ℕ) (args : List ℕ) (s : Print)
    → s.args ≡ n ∷ args
    → n < 2 ^ 64
    → (d : Memory) × (w : List ℕ) × (convert str b'd' s ≡ Outcome.done (numbered str w d args s))
      × IsString d 0 w
      × IsDecimal n w
unfolding convert put_number
convert-number str n args s e l =
    let (d, w, run, string, decimal) = dec2str-IsDecimal n s.dec_string l in
    let short = IsDecimal-length n w l decimal in
    let len : strlen 22 d 0 ≡ some (length w) =
      strlen-IsString 22 d 0 w string (omega (arith, digit_bound_range n)) in
    (d, w, rw (e, put_number, run, len) refl, string, decimal)

-- The loop has written `out` from its index on, and nothing else in memory.
abbrev Printed : ℕ → ℕ → List Piece → Print → Outcome Print → Type 0
Printed str size ps s o =
    (s' : Print) × (out : List ℕ) × (o ≡ Outcome.done s')
    × IsString s'.memory (str + s.at) out
    × Prints ps out
    × ((a : ℕ) → (a < str + s.at) ⊎ (str + size ≤ a) → s'.memory a ≡ s.memory a)

Printed-char :
    (str size c : ℕ) (ps : List Piece) (s : Print) (o : Outcome Print)
    → c ≢ 0
    → s.at < size
    → Printed str size ps (put str c s) o
    → Printed str size (Piece.char c ∷ ps) s o
Printed-char str size c ps s o ne l (s', out, run, string, prints, kept) =
    let at : s'.memory (str + s.at) ≡ c = ground (arith, kept (str + s.at) (inl (omega arith))) in
    let rest : IsString s'.memory (str + s.at + 1) out =
      subst (λ (a : ℕ). IsString s'.memory a out) {x = str + (s.at + 1)} {y = str + s.at + 1}
        (omega arith) string in
    (s', c ∷ out, run, (at, ne, rest), (out, refl, prints), λ a h. ground (arith, kept a))

Printed-number :
    (str size n : ℕ) (ps : List Piece) (w : List ℕ) (d : Memory) (args : List ℕ) (s : Print)
    (o : Outcome Print)
    → IsString d 0 w
    → IsDecimal n w
    → s.at + length w < size
    → Printed str size ps (numbered str w d args s) o
    → Printed str size (Piece.number n ∷ ps) s o
Printed-number str size n ps w d args s o digits decimal l (s', out, run, string, prints, kept) =
    let same : (k : ℕ) → k < length w → s'.memory (str + s.at + k) ≡ d (0 + k) = λ k lt.
      kept (str + s.at + k) (inl (omega arith))
      ∙ put_digits-at (length w) (str + s.at) 0 d s.memory k lt in
    let rest : IsString s'.memory (str + s.at + length w) out =
      subst (λ (a : ℕ). IsString s'.memory a out) {x = str + (s.at + length w)}
        {y = str + s.at + length w} (omega arith) string in
    (
      s',
      w ++ out,
      run,
      IsString-join d s'.memory (str + s.at) 0 w out same digits rest,
      (w, out, decimal, refl, prints),
      λ a h.
          kept a (ground arith)
          ∙ put_digits-outside (length w) (str + s.at) 0 d s.memory a (ground arith),
    )

-- The buffer of `size` bytes at `str` does not meet the `n` bytes and their 0 at `ptr`.
abbrev pub Apart : ℕ → ℕ → ℕ → ℕ → Type 0
Apart str size ptr n = (ptr + n < str) ⊎ (str + size ≤ ptr)

-- The rest of the format after a store into the buffer.
pub format-kept :
    (str size ptr skip : ℕ) (w : List ℕ) (m m' : Memory)
    → Apart str size ptr (skip + length w)
    → ((a : ℕ) → (a < str) ⊎ (str + size ≤ a) → m' a ≡ m a)
    → IsString m (ptr + skip) w
    → IsString m' (ptr + skip) w
format-kept str size ptr skip w m m' apart kept =
    IsString-ext m m' (ptr + skip) w (λ a lo hi. kept a (ground arith))

pub print_from-char :
    (fuel str size ptr c : ℕ) (s : Print)
    → s.memory ptr ≡ c
    → IsPiece (Piece.char c)
    → s.at + 1 < size
    → size < 2 ^ 64
    → print_from (suc fuel) str size ptr s ≡ print_from fuel str size (ptr + 1) (put str c s)
unfolding print_from
print_from-char fuel str size ptr c s e (ne, plain) l small =
    let not_end : s.memory ptr == 0 ≡ false = ground arith in
    let room : leb (sub64 size 1) s.at ≡ false = ground arith in
    let not_percent : s.memory ptr == b'%' ≡ false = ground arith in
    rw (print_from, not_end, room, not_percent, e) refl

print_from-number :
    (fuel str size ptr : ℕ) (s : Print)
    → s.memory ptr ≡ b'%'
    → s.memory (ptr + 1) ≡ b'd'
    → s.at + 1 < size
    → size < 2 ^ 64
    → print_from (suc fuel) str size ptr s
      ≡ convert str b'd' s >>= (λ s'. print_from fuel str size (ptr + 2) s')
unfolding print_from
print_from-number fuel str size ptr s e d l small =
    let not_end : s.memory ptr == 0 ≡ false = ground arith in
    let room : leb (sub64 size 1) s.at ≡ false = ground arith in
    let percent : s.memory ptr == b'%' ≡ true = ground arith in
    rw (print_from, not_end, room, percent, d) refl

print_from-end :
    (fuel str size ptr : ℕ) (s : Print)
    → s.memory ptr ≡ 0
    → print_from (suc fuel) str size ptr s
      ≡ Outcome.done (record s { memory = store (str + s.at) 0 s.memory })
unfolding print_from
print_from-end fuel str size ptr s e = rw (print_from, e) refl

print_from-Printed :
    (ps : List Piece) (fuel str size ptr : ℕ) (s : Print)
    → All IsPiece ps
    → length ps < fuel
    → size < 2 ^ 64
    → s.at + width ps < size
    → IsString s.memory ptr (format ps)
    → s.args ≡ arguments ps
    → Apart str size ptr (length (format ps))
    → Printed str size ps s (print_from fuel str size ptr s)
print_from-Printed ps zero str size ptr s ok more small fits h e apart = absurd (omega arith)
print_from-Printed [] (suc fuel) str size ptr s ok more small fits h e apart = (
  record s { memory = store (str + s.at) 0 s.memory },
  [],
  print_from-end fuel str size ptr s h,
  ground arith,
  refl,
  λ a out. ground arith,
)
print_from-Printed (Piece.char c ∷ ps) (suc fuel) str size ptr s ok more small fits h e apart =
    let step = print_from-char fuel str size ptr c s h.0 ok.0 (omega arith) small in
    let kept =
      format-kept str size ptr 1 (format ps) s.memory (store (str + s.at) c s.memory) (ground arith)
        (λ a out. ground arith) h.2 in
    let rest =
      print_from-Printed ps fuel str size (ptr + 1) (put str c s) ok.1 (omega arith) small
        (omega arith) kept e (ground arith) in
    subst (Printed str size (Piece.char c ∷ ps) s) (sym step)
      (Printed-char str size c ps s _ ok.0.0 (omega arith) rest)
print_from-Printed (Piece.number n ∷ ps) (suc fuel) str size ptr s ok more small fits h e apart =
    let (percent, _, (d_char, _, behind)) = h in
    let step =
      print_from-number fuel str size ptr s percent d_char (omega (arith, digit_bound_range n))
        small in
    let (d, w, run, digits, decimal) = convert-number str n (arguments ps) s e ok.0 in
    let short = IsDecimal-length n w ok.0 decimal in
    let s₁ = numbered str w d (arguments ps) s in
    let kept =
      format-kept str size ptr 2 (format ps) s.memory s₁.memory (ground arith)
        (λ a out. put_digits-outside (length w) (str + s.at) 0 d s.memory a (ground arith))
        (subst (λ (a : ℕ). IsString s.memory a (format ps)) {x = ptr + 1 + 1} {y = ptr + 2}
          (omega arith) behind) in
    let rest =
      print_from-Printed ps fuel str size (ptr + 2) s₁ ok.1 (omega arith) small
        (omega (arith, short)) kept refl (ground arith) in
    let continued = step ∙ ap (λ o. o >>= print_from fuel str size (ptr + 2)) run in
    subst (Printed str size (Piece.number n ∷ ps) s) (sym continued) (
      Printed-number str size n ps w d (arguments ps) s _ digits decimal (omega (arith, short))
        rest)

-- For a format of characters and of %d, each with a 64-bit argument, whose longest output fits into
-- the `size` bytes of the buffer, which does not meet the format: `snprintf` ends, the buffer holds
-- as a C string the characters with each number in decimal, and no byte outside the buffer has
-- changed.
pub snprintf-Prints :
    (ps : List Piece) (fuel str size fmt : ℕ) (dec_string m : Memory)
    → All IsPiece ps
    → length ps < fuel
    → size < 2 ^ 64
    → width ps < size
    → IsString m fmt (format ps)
    → Apart str size fmt (length (format ps))
    → (s' : Print) × (out : List ℕ) × (snprintf fuel str size fmt (arguments ps) dec_string m
        ≡ Outcome.done s')
      × IsString s'.memory str out
      × Prints ps out
      × ((a : ℕ) → (a < str) ⊎ (str + size ≤ a) → s'.memory a ≡ m a)
unfolding snprintf
snprintf-Prints ps fuel str size fmt dec_string m ok more small fits h apart =
    let s : Print = record { at = 0; args = arguments ps; memory = m; dec_string = dec_string } in
    let (s', out, run, string, prints, kept) =
      print_from-Printed ps fuel str size fmt s ok more small (omega arith) h refl apart in
    let at_start =
      subst (λ (a : ℕ). IsString s'.memory a out) {x = str + 0} {y = str} (omega arith) string in
    (s', out, run, at_start, prints, λ a o. kept a (ground arith))
