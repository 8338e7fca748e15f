-- ===== src/Text/Printk/Pieces.antt =====
-- The parts of a format of printk, and what the terminal gets for each.
use native.Mathlib.Nat.{pow-suc}
use mksd_old_archive.Base.{
  ℕ, zero, suc, ◌+◌, ◌-◌, ◌*◌, ◌^◌, ◌≤◌, ◌<◌, ◌≡◌, ◌≢◌, inl, inr, refl, sym, ap, ap₂, subst, arith,
  List, [], ◌∷◌, ◌++◌, leb, length, Memory, IsString, Bool-cases,
}
use mksd_old_archive.Base.Outcome.{Outcome}
use mksd_old_archive.Text.Compare.{strlen-IsString}
use mksd_old_archive.Text.Number.Decimal.{IsDecimal, dec2str-IsDecimal}
use mksd_old_archive.Text.Number.Hex.{IsHex, hex2str-IsHex}
use mksd_old_archive.Text.Snprintf.Format.{IsDecimal-length, digit_bound_range}
use mksd_old_archive.Net.{bytes_of}
use mksd_old_archive.Text.Printk.{Arg, Terminal, putstr, put_hex, put_decimal}

-- A part of a format with its argument: a character that stands for itself, %d, %x, %X, %s with the
-- string `w` at `p`, and %c.
pub data Piece : Type 0 where
  text : (c : ℕ) → Piece
  decimal : (n : ℕ) → Piece
  hex : (n : ℕ) → Piece
  short_hex : (n : ℕ) → Piece
  string : (p : ℕ) (w : List ℕ) → Piece
  char : (c : ℕ) → Piece

abbrev pub format : List Piece → List ℕ
format [] = []
format (Piece.text c ∷ ps) = c ∷ format ps
format (Piece.decimal n ∷ ps) = b'%' ∷ b'd' ∷ format ps
format (Piece.hex n ∷ ps) = b'%' ∷ b'x' ∷ format ps
format (Piece.short_hex n ∷ ps) = b'%' ∷ b'X' ∷ format ps
format (Piece.string p w ∷ ps) = b'%' ∷ b's' ∷ format ps
format (Piece.char c ∷ ps) = b'%' ∷ b'c' ∷ format ps

abbrev pub arguments : List Piece → List Arg
arguments [] = []
arguments (Piece.text c ∷ ps) = arguments ps
arguments (Piece.decimal n ∷ ps) = Arg.number n ∷ arguments ps
arguments (Piece.hex n ∷ ps) = Arg.number n ∷ arguments ps
arguments (Piece.short_hex n ∷ ps) = Arg.number n ∷ arguments ps
arguments (Piece.string p w ∷ ps) = Arg.string p ∷ arguments ps
arguments (Piece.char c ∷ ps) = Arg.char c ∷ arguments ps

abbrev pub IsPiece : ℕ → Memory → Piece → Type 0
IsPiece fuel m (Piece.text c) = (c ≢ 0) × (c ≢ b'%')
IsPiece fuel m (Piece.decimal n) = n < 2 ^ 64
IsPiece fuel m (Piece.hex n) = n < 2 ^ 64
IsPiece fuel m (Piece.short_hex n) = n < 2 ^ 64
IsPiece fuel m (Piece.string p w) = IsString m p w × (length w < fuel)
IsPiece fuel m (Piece.char c) = (c ≢ 0) × (c < 256)

-- What a part prints.
abbrev pub Shows : Piece → List ℕ → Type 0
Shows (Piece.text c) s = s ≡ c ∷ []
Shows (Piece.decimal n) s = IsDecimal n s
Shows (Piece.hex n) s = (d : List ℕ) × (s ≡ b'0' ∷ b'x' ∷ d) × IsHex n d
Shows (Piece.short_hex n) s = IsHex n s
Shows (Piece.string p w) s = s ≡ w
Shows (Piece.char c) s = s ≡ c ∷ []

abbrev pub Prints : List Piece → List ℕ → Type 0
Prints [] out = out ≡ []
Prints (p ∷ ps) out =
    (s : List ℕ) × (rest : List ℕ) × Shows p s × (out ≡ s ++ rest) × Prints ps rest

bytes_of-IsString : (w : List ℕ) (m : Memory) (p : ℕ) → IsString m p w → bytes_of (length w) m p ≡ w
unfolding bytes_of
bytes_of-IsString [] m p h = refl
bytes_of-IsString (c ∷ w) m p (e, _, h) =
    ap₂ (λ (b : ℕ) (r : List ℕ). b ∷ r) e (bytes_of-IsString w m (p + 1) h)

pub putstr-IsString :
    (fuel : ℕ) (m : Memory) (p : ℕ) (w : List ℕ) (t : Terminal)
    → IsString m p w
    → length w < fuel
    → putstr fuel m p t ≡ Outcome.done (record t { written = t.written ++ w })
unfolding putstr
putstr-IsString fuel m p w t h l =
    rw (strlen-IsString fuel m p w h l, bytes_of-IsString w m p h) refl

pow-big : (k : ℕ) → 16 ^ 17 ≤ 16 ^ (17 + k)
pow-big zero = omega arith
pow-big (suc k) =
    let at : 16 ^ (17 + suc k) ≡ 16 ^ suc (17 + k) = ap (λ (t : ℕ). 16 ^ t) (omega arith) in
    omega (arith, at, pow-big k, pow-suc 16 (17 + k))

IsHex-length : (n : ℕ) (s : List ℕ) → n < 2 ^ 64 → IsHex n s → length s ≤ 16
IsHex-length n s l h = elim (Bool-cases (leb (length s) 16)) [
  | inl e ↦ ground arith
  | inr e ↦ elim (Bool-cases (leb 16 n)) [
    | inl big ↦
        let at : length s ≡ 17 + (length s - 17) = ground arith in
        let grows : 16 ^ 17 ≤ 16 ^ length s =
          subst (λ (t : ℕ). 16 ^ 17 ≤ 16 ^ t) (sym at) (pow-big (length s - 17)) in
        let short : 16 ^ length s ≤ n * 16 = h.shortest.1 (ground arith) in
        absurd (omega (arith, grows, short, l))
    | inr small ↦ let two : length s ≡ 2 = h.shortest.0 (ground arith) in absurd (ground arith)
  ]
]

-- The terminal has been given what the part prints.
abbrev pub Shown : Piece → Terminal → Outcome Terminal → Type 0
Shown p t o =
    (t' : Terminal) × (s : List ℕ) × (o ≡ Outcome.done t')
    × (t'.written ≡ t.written ++ s)
    × Shows p s

pub put_decimal-Shown :
    (fuel n : ℕ) (t : Terminal)
    → 21 < fuel
    → n < 2 ^ 64
    → Shown (Piece.decimal n) t (put_decimal fuel n t)
put_decimal-Shown fuel n t big l =
    let (d, w, run, holds, print) = dec2str-IsDecimal n t.dec_string l in
    let put =
      putstr-IsString fuel d 0 w (record t { dec_string = d }) holds
        (omega (arith, IsDecimal-length n w l print, digit_bound_range n)) in
    (
      record t { dec_string = d; written = t.written ++ w },
      w,
      unfold put_decimal in rw (run, put) refl,
      refl,
      print,
    )

pub put_hex-Shown :
    (fuel n : ℕ) (t : Terminal)
    → 21 < fuel
    → n < 2 ^ 64
    → Shown (Piece.hex n) t (put_hex fuel 0 n t)
put_hex-Shown fuel n t big l =
    let (d, w, run, holds, print) = hex2str-IsHex n t.hex_string l in
    let put =
      putstr-IsString fuel d 0 (b'0' ∷ b'x' ∷ w) (record t { hex_string = d }) holds
        (omega (arith, IsHex-length n w l print)) in
    (
      record t { hex_string = d; written = t.written ++ b'0' ∷ b'x' ∷ w },
      b'0' ∷ b'x' ∷ w,
      unfold put_hex in rw (run, put) refl,
      refl,
      (w, refl, print),
    )

pub put_short-Shown :
    (fuel n : ℕ) (t : Terminal)
    → 21 < fuel
    → n < 2 ^ 64
    → Shown (Piece.short_hex n) t (put_hex fuel 2 n t)
put_short-Shown fuel n t big l =
    let (d, w, run, holds, print) = hex2str-IsHex n t.hex_string l in
    let put =
      putstr-IsString fuel d 2 w (record t { hex_string = d }) holds.2.2
        (omega (arith, IsHex-length n w l print)) in
    (
      record t { hex_string = d; written = t.written ++ w },
      w,
      unfold put_hex in rw (run, put) refl,
      refl,
      print,
    )
