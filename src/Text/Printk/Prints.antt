-- ===== src/Text/Printk/Prints.antt =====
-- printk writes the characters of its format and its arguments to the terminal.
use mksd_old_archive.Base.{
  ℕ, zero, suc, ◌+◌, ◌<◌, ◌≡◌, ◌≢◌, refl, sym, ap, subst, ◌∙◌, arith, true, false, List, [], ◌∷◌,
  ◌++◌, append-nil, append_assoc, ◌==◌, u8, length, Memory, IsString, All,
}
use mksd_old_archive.Base.Outcome.{Outcome}
use mksd_old_archive.Text.Printk.{
  Arg, Terminal, put_arg, with_next, takes_arg, convert, print_from, printk,
}
use mksd_old_archive.Text.Printk.Pieces.{
  Piece, format, arguments, IsPiece, Shows, Prints, Shown, putstr-IsString, put_decimal-Shown,
  put_hex-Shown, put_short-Shown,
}

-- The terminal has been given what the parts print, one after the other.
abbrev pub Printed : List Piece → Terminal → Outcome Terminal → Type 0
Printed ps t o =
    (t' : Terminal) × (out : List ℕ) × (o ≡ Outcome.done t')
    × (t'.written ≡ t.written ++ out)
    × Prints ps out

Printed-next :
    (p : Piece) (ps : List Piece) (t t₁ : Terminal) (s : List ℕ) (o : Outcome Terminal)
    → t₁.written ≡ t.written ++ s
    → Shows p s
    → Printed ps t₁ o
    → Printed (p ∷ ps) t o
Printed-next p ps t t₁ s o e shows (t', out, run, written, prints) = (
  t',
  s ++ out,
  run,
  written ∙ ap (λ (w : List ℕ). w ++ out) e ∙ append_assoc t.written s out,
  (s, out, shows, refl, prints),
)

pub print_from-text :
    (n fuel ptr c : ℕ) (m : Memory) (args : List Arg) (t : Terminal)
    → m ptr ≡ c
    → c ≢ 0
    → c ≢ b'%'
    → print_from (suc n) fuel m ptr args t
      ≡ print_from n fuel m (ptr + 1) args (record t { written = t.written ++ c ∷ [] })
unfolding print_from
print_from-text n fuel ptr c m args t e ne plain =
    let not_end : m ptr == 0 ≡ false = ground arith in
    let not_percent : m ptr == b'%' ≡ false = ground arith in
    let known : c == 0 ≡ false = ground arith in
    rw (print_from, not_end, not_percent, e, known) refl

print_from-arg :
    (n fuel ptr k : ℕ) (m : Memory) (a : Arg) (args : List Arg) (t t' : Terminal)
    → m ptr ≡ b'%'
    → m (ptr + 1) ≡ k
    → takes_arg k ≡ true
    → put_arg fuel m k a t ≡ Outcome.done t'
    → print_from (suc n) fuel m ptr (a ∷ args) t ≡ print_from n fuel m (ptr + 2) args t'
unfolding print_from convert with_next
print_from-arg n fuel ptr k m a args t t' e h takes run =
    let not_end : m ptr == 0 ≡ false = ground arith in
    let percent : m ptr == b'%' ≡ true = ground arith in
    rw (print_from, not_end, percent, h, convert, takes, with_next, run) refl

-- A part that takes an argument, in front of the rest.
Printed-arg :
    (n fuel ptr k : ℕ) (m : Memory) (a : Arg) (args : List Arg) (t : Terminal) (p : Piece)
    (ps : List Piece)
    → m ptr ≡ b'%'
    → m (ptr + 1) ≡ k
    → takes_arg k ≡ true
    → Shown p t (put_arg fuel m k a t)
    → ((t₁ : Terminal) → Printed ps t₁ (print_from n fuel m (ptr + 2) args t₁))
    → Printed (p ∷ ps) t (print_from (suc n) fuel m ptr (a ∷ args) t)
Printed-arg n fuel ptr k m a args t p ps e h takes (t₁, s, run, written, shows) rest =
    subst (Printed (p ∷ ps) t) (sym (print_from-arg n fuel ptr k m a args t t₁ e h takes run))
      (Printed-next p ps t t₁ s _ written shows (rest t₁))

behind : (ptr : ℕ) (w : List ℕ) (m : Memory) → IsString m (ptr + 1 + 1) w → IsString m (ptr + 2) w
behind ptr w m h = subst (λ (a : ℕ). IsString m a w) {x = ptr + 1 + 1} {y = ptr + 2} (omega arith) h

print_from-Printed :
    (ps : List Piece) (n fuel ptr : ℕ) (m : Memory) (t : Terminal)
    → All (IsPiece fuel m) ps
    → length ps < n
    → 21 < fuel
    → IsString m ptr (format ps)
    → Printed ps t (print_from n fuel m ptr (arguments ps) t)
unfolding put_arg
print_from-Printed ps zero fuel ptr m t ok more big h = absurd (omega arith)
print_from-Printed [] (suc n) fuel ptr m t ok more big h =
    (t, [], unfold print_from in rw (print_from, h) refl, sym (append-nil t.written), refl)
print_from-Printed (Piece.text c ∷ ps) (suc n) fuel ptr m t ((ne, plain), ok) more big (e, _, h) =
    let t₁ : Terminal = record t { written = t.written ++ c ∷ [] } in
    subst (Printed (Piece.text c ∷ ps) t)
      (sym (print_from-text n fuel ptr c m (arguments ps) t e ne plain))
      (Printed-next (Piece.text c) ps t t₁ (c ∷ []) _ refl refl
        (print_from-Printed ps n fuel (ptr + 1) m t₁ ok (omega arith) big h))
print_from-Printed (Piece.decimal k ∷ ps) (suc n) fuel ptr m t (l, ok) more big (e, _, (d, _, h)) =
    Printed-arg n fuel ptr b'd' m (Arg.number k) (arguments ps) t (Piece.decimal k) ps e d refl
      (put_decimal-Shown fuel k t big l)
      (λ t₁.
        print_from-Printed ps n fuel (ptr + 2) m t₁ ok (omega arith) big
          (behind ptr (format ps) m h))
print_from-Printed (Piece.hex k ∷ ps) (suc n) fuel ptr m t (l, ok) more big (e, _, (d, _, h)) =
    Printed-arg n fuel ptr b'x' m (Arg.number k) (arguments ps) t (Piece.hex k) ps e d refl
      (put_hex-Shown fuel k t big l)
      (λ t₁.
        print_from-Printed ps n fuel (ptr + 2) m t₁ ok (omega arith) big
          (behind ptr (format ps) m h))
print_from-Printed (Piece.short_hex k ∷ ps) (suc n) fuel ptr m t (l, ok) more big
      (e, _, (d, _, h)) =
    Printed-arg n fuel ptr b'X' m (Arg.number k) (arguments ps) t (Piece.short_hex k) ps e d refl
      (put_short-Shown fuel k t big l)
      (λ t₁.
        print_from-Printed ps n fuel (ptr + 2) m t₁ ok (omega arith) big
          (behind ptr (format ps) m h))
print_from-Printed (Piece.string p w ∷ ps) (suc n) fuel ptr m t ((str, l), ok) more big
      (e, _, (d, _, h)) =
    Printed-arg n fuel ptr b's' m (Arg.string p) (arguments ps) t (Piece.string p w) ps e d refl
      (record t { written = t.written ++ w }, w, putstr-IsString fuel m p w t str l, refl, refl)
      (λ t₁.
        print_from-Printed ps n fuel (ptr + 2) m t₁ ok (omega arith) big
          (behind ptr (format ps) m h))
print_from-Printed (Piece.char c ∷ ps) (suc n) fuel ptr m t ((ne, l), ok) more big
      (e, _, (d, _, h)) =
    let byte : u8 c ≡ c = omega arith in
    let known : c == 0 ≡ false = ground arith in
    Printed-arg n fuel ptr b'c' m (Arg.char c) (arguments ps) t (Piece.char c) ps e d refl
      (record t { written = t.written ++ c ∷ [] }, c ∷ [], rw (byte, known) refl, refl, refl)
      (λ t₁.
        print_from-Printed ps n fuel (ptr + 2) m t₁ ok (omega arith) big
          (behind ptr (format ps) m h))

-- For a format of characters and of the conversions %d, %x, %X, %s and %c with arguments of these
-- types, `printk` ends, and the terminal has got, behind what it had, the characters, the numbers
-- in decimal or in hexadecimal with or without 0x, and the strings, in the order of the format.
pub printk-Prints :
    (ps : List Piece) (fuel fmt : ℕ) (m : Memory) (t : Terminal)
    → All (IsPiece fuel m) ps
    → length ps < fuel
    → 21 < fuel
    → IsString m fmt (format ps)
    → (t' : Terminal) × (out : List ℕ) × (printk fuel m fmt (arguments ps) t ≡ Outcome.done t')
      × (t'.written ≡ t.written ++ out)
      × Prints ps out
unfolding printk
printk-Prints ps fuel fmt m t ok more big h = print_from-Printed ps fuel fuel fmt m t ok more big h
