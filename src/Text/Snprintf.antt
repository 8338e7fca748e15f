-- ===== src/Text/Snprintf.antt =====
-- snprintf of sys/src/lib/string.c. The variable arguments are a list; to take more of them than
-- were given is undefined. The buffer of dec2str is a memory of its own, as in Text/Number.
pub mod Format
pub mod Prints
pub mod Full
use mksd_old_archive.Base.{
  ℕ, zero, suc, ◌+◌, true, false, none, some, List, [], ◌∷◌, leb, ◌==◌, sub64, Memory, store,
}
use mksd_old_archive.Base.Outcome.{Outcome, ◌>>=◌}
use mksd_old_archive.Text.{strlen}
use mksd_old_archive.Text.Number.{dec2str}

-- `i`, `ap`, the memory and the buffer of dec2str.
pub record Print : Type 0 where
  pub at : ℕ
  pub args : List ℕ
  pub memory : Memory
  pub dec_string : Memory

-- `str[i++] = c`
abbrev pub put : ℕ → ℕ → Print → Print
put str c s = record s { at = s.at + 1; memory = store (str + s.at) c s.memory }

-- `str[i++] = strdec[j]` for `n` rounds from `j` on.
unfoldable pub put_digits : ℕ → ℕ → ℕ → Memory → Memory → Memory
put_digits zero p j strdec m = m
put_digits (suc n) p j strdec m = put_digits n (p + 1) (j + 1) strdec (store p (strdec j) m)

unfoldable pub put_number : ℕ → List ℕ → Print → Outcome Print
put_number str [] s = Outcome.undefined
put_number str (n ∷ args) s = elim (dec2str 22 n s.dec_string) [
  | none ↦ Outcome.waits
  | some strdec ↦ elim (strlen 22 strdec 0) [
    | none ↦ Outcome.waits
    | some len ↦ Outcome.done (record {
      at = s.at + len;
      args = args;
      memory = put_digits len (str + s.at) 0 strdec s.memory;
      dec_string = strdec;
    })
  ]
]

-- The switch on the character after a '%'.
unfoldable pub convert : ℕ → ℕ → Print → Outcome Print
convert str c s = elim (c == b'd') [ true ↦ put_number str s.args s | false ↦ Outcome.done s ]

-- The loop over the format from `ptr` on, with what follows it. A full buffer ends it without a 0.
unfoldable pub print_from : ℕ → ℕ → ℕ → ℕ → Print → Outcome Print
print_from zero str size ptr s = Outcome.waits
print_from (suc fuel) str size ptr s = elim (s.memory ptr == 0) [
  | true ↦ Outcome.done (record s { memory = store (str + s.at) 0 s.memory })
  | false ↦ elim (leb (sub64 size 1) s.at) [
    | true ↦ Outcome.done s
    | false ↦ elim (s.memory ptr == b'%') [
      | true ↦ convert str (s.memory (ptr + 1)) s >>= (λ s'. print_from fuel str size (ptr + 2) s')
      | false ↦ print_from fuel str size (ptr + 1) (put str (s.memory ptr) s)
    ]
  ]
]

unfoldable pub snprintf : ℕ → ℕ → ℕ → ℕ → List ℕ → Memory → Memory → Outcome Print
snprintf fuel str size fmt args dec_string m =
    print_from fuel str size fmt
      (record { at = 0; args = args; memory = m; dec_string = dec_string })
