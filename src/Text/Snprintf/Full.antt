-- ===== src/Text/Snprintf/Full.antt =====
-- snprintf on a format that is as long as the buffer or longer.
use mksd_old_archive.Base.{
  ℕ, zero, suc, ◌+◌, ◌≤◌, ◌<◌, ◌≡◌, ◌≢◌, ◌⊎◌, inl, inr, refl, ◌∙◌, arith, true, false, List, [],
  ◌∷◌, leb, ◌==◌, sub64, length, store, Memory, IsString, All, Bool-cases, ◌^◌,
}
use mksd_old_archive.Base.Outcome.{Outcome}
use mksd_old_archive.Text.Snprintf.{Print, put, print_from, snprintf}
use mksd_old_archive.Text.Snprintf.Prints.{Apart, format-kept, print_from-char}

-- The loop has ended with the index at the last byte of the buffer, which it has not written.
abbrev Cut : ℕ → ℕ → Print → Outcome Print → Type 0
Cut str size s o =
    (s' : Print) × (o ≡ Outcome.done s')
    × (s'.at + 1 ≡ size)
    × ((a : ℕ) → (a < str + s.at) ⊎ (str + size ≤ a + 1) → s'.memory a ≡ s.memory a)

print_from-stop :
    (fuel str size ptr c : ℕ) (s : Print)
    → s.memory ptr ≡ c
    → c ≢ 0
    → s.at + 1 ≡ size
    → size < 2 ^ 64
    → print_from (suc fuel) str size ptr s ≡ Outcome.done s
unfolding print_from
print_from-stop fuel str size ptr c s e ne l small =
    let not_end : s.memory ptr == 0 ≡ false = ground arith in
    let full : leb (sub64 size 1) s.at ≡ true = ground arith in rw (print_from, not_end, full) refl

print_from-Cut :
    (w : List ℕ) (fuel str size ptr : ℕ) (s : Print)
    → All (λ c. c ≢ b'%') w
    → length w < fuel
    → size < 2 ^ 64
    → s.at < size
    → size ≤ s.at + length w
    → IsString s.memory ptr w
    → Apart str size ptr (length w)
    → Cut str size s (print_from fuel str size ptr s)
print_from-Cut w zero str size ptr s ok more small room long h apart = absurd (omega arith)
print_from-Cut [] (suc fuel) str size ptr s ok more small room long h apart = absurd (omega arith)
print_from-Cut (c ∷ w) (suc fuel) str size ptr s (plain, ok) more small room long (e, ne, h) apart =
    elim (Bool-cases (s.at + 1 == size)) [
      | inl last ↦ (
        s,
        print_from-stop fuel str size ptr c s e ne (ground arith) small,
        ground arith,
        λ a o. refl,
      )
      | inr inside ↦
          let step = print_from-char fuel str size ptr c s e (ne, plain) (ground arith) small in
          let kept =
            format-kept str size ptr 1 w s.memory (store (str + s.at) c s.memory) (ground arith)
              (λ a o. ground arith) h in
          let (s', run, at, same) =
            print_from-Cut w fuel str size (ptr + 1) (put str c s) ok (omega arith) small
              (ground arith) (omega arith) kept (ground arith) in
          (s', step ∙ run, at, λ a o. ground (arith, same a))
    ]

-- For a format without '%' that is not shorter than the buffer of `size` bytes, which does not meet
-- it and is not empty: `snprintf` ends with `i` at the last byte of the buffer and leaves that byte
-- as it was, so that it puts no 0 behind the characters.
pub snprintf-full :
    (w : List ℕ) (fuel str size fmt : ℕ) (args : List ℕ) (dec_string m : Memory)
    → All (λ c. c ≢ b'%') w
    → length w < fuel
    → size < 2 ^ 64
    → 0 < size
    → size ≤ length w
    → IsString m fmt w
    → Apart str size fmt (length w)
    → (s' : Print) × (snprintf fuel str size fmt args dec_string m ≡ Outcome.done s')
      × (s'.at + 1 ≡ size)
      × (s'.memory (str + s'.at) ≡ m (str + s'.at))
unfolding snprintf
snprintf-full w fuel str size fmt args dec_string m ok more small room long h apart =
    let s : Print = record { at = 0; args = args; memory = m; dec_string = dec_string } in
    let (s', run, at, same) =
      print_from-Cut w fuel str size fmt s ok more small room (omega arith) h apart in
    (s', run, at, same (str + s'.at) (inr (omega arith)))
