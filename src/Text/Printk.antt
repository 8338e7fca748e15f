-- ===== src/Text/Printk.antt =====
-- sys/src/lib/log.c: printk. The terminal of the boot loader keeps the bytes that it is given. The
-- variable arguments are a list; to take more of them than were given, or one of another type, is
-- undefined. The static buffers of dec2str and hex2str are memories of their own, as in Text/Number.
pub mod Pieces
pub mod Prints
use mksd_old_archive.Base.{
  ℕ, zero, suc, ◌+◌, ◌==◌, true, false, Bool, ◌||◌, Option, none, some, List, [], ◌∷◌, ◌++◌, Memory,
  u8, if◌then◌else◌,
}
use mksd_old_archive.Base.Outcome.{Outcome, ◌>>=◌}
use mksd_old_archive.Text.{strlen}
use mksd_old_archive.Text.Number.{dec2str, hex2str}
use mksd_old_archive.Net.{bytes_of}

pub data Arg : Type 0 where
  number : (n : ℕ) → Arg
  string : (p : ℕ) → Arg
  char : (c : ℕ) → Arg

pub record Terminal : Type 0 where
  pub written : List ℕ
  pub dec_string : Memory
  pub hex_string : Memory

abbrev pub or_waits {ℓ} : {A : Type ℓ} → Option A → Outcome A
or_waits none = Outcome.waits
or_waits (some a) = Outcome.done a

-- `write(terminals[0], str, strlen(str))`
unfoldable pub putstr : ℕ → Memory → ℕ → Terminal → Outcome Terminal
putstr fuel m str t =
    or_waits (strlen fuel m str)
    >>= (λ len. Outcome.done (record t { written = t.written ++ bytes_of len m str }))

-- `putstr((char[2]){c, 0})`
abbrev pub putchar : ℕ → Terminal → Terminal
putchar c t = if c == 0 then t else record t { written = t.written ++ c ∷ [] }

-- `hex2str`, put from byte `skip` on.
unfoldable pub put_hex : ℕ → ℕ → ℕ → Terminal → Outcome Terminal
put_hex fuel skip n t =
    or_waits (hex2str 32 n t.hex_string)
    >>= (λ hex_string. putstr fuel hex_string skip (record t { hex_string = hex_string }))

unfoldable pub put_decimal : ℕ → ℕ → Terminal → Outcome Terminal
put_decimal fuel n t =
    or_waits (dec2str 22 n t.dec_string)
    >>= (λ dec_string. putstr fuel dec_string 0 (record t { dec_string = dec_string }))

-- A case of the switch, with the argument that it takes.
unfoldable pub put_arg : ℕ → Memory → ℕ → Arg → Terminal → Outcome Terminal
put_arg fuel m c (Arg.number n) t =
    if c == b'd'
    then put_decimal fuel n t
    else if c == b'x'
    then put_hex fuel 0 n t
    else if c == b'X'
    then put_hex fuel 2 n t
    else Outcome.undefined
put_arg fuel m c (Arg.string p) t = if c == b's' then putstr fuel m p t else Outcome.undefined
put_arg fuel m c (Arg.char a) t =
    if c == b'c' then Outcome.done (putchar (u8 a) t) else Outcome.undefined

unfoldable pub with_next : List Arg → (Arg → Outcome Terminal) → Outcome (List Arg × Terminal)
with_next [] f = Outcome.undefined
with_next (a ∷ args) f = f a >>= (λ t. Outcome.done (args, t))

-- Whether the switch takes an argument for the character.
abbrev pub takes_arg : ℕ → Bool
takes_arg c = (c == b'd') || (c == b'x') || (c == b'X') || (c == b's') || (c == b'c')

-- The switch on the character behind a '%'.
unfoldable pub convert : ℕ → Memory → ℕ → List Arg → Terminal → Outcome (List Arg × Terminal)
convert fuel m c args t =
    if takes_arg c then with_next args (λ a. put_arg fuel m c a t) else Outcome.done (args, t)

-- The loop over the format from `ptr` on with `n` rounds of fuel left.
unfoldable pub print_from : ℕ → ℕ → Memory → ℕ → List Arg → Terminal → Outcome Terminal
print_from zero fuel m ptr args t = Outcome.waits
print_from (suc n) fuel m ptr args t = elim (m ptr == 0) [
  | true ↦ Outcome.done t
  | false ↦ elim (m ptr == b'%') [
    | true ↦
        convert fuel m (m (ptr + 1)) args t
        >>= (λ (args', t'). print_from n fuel m (ptr + 2) args' t')
    | false ↦ print_from n fuel m (ptr + 1) args (putchar (m ptr) t)
  ]
]

unfoldable pub printk : ℕ → Memory → ℕ → List Arg → Terminal → Outcome Terminal
printk fuel m fmt args t = print_from fuel fuel m fmt args t
