-- ===== src/Text.antt =====
-- sys/src/lib/string.c: the functions that read C strings. A loop that runs to the NUL is on fuel,
-- and `none` means that the fuel ran out. The block operations are in Base/Store.
pub mod Compare
pub mod Split
pub mod Append
pub mod Number
pub mod Snprintf
pub mod Printk
mod Tests
use mksd_old_archive.Base.{
  ℕ, zero, suc, ◌+◌, ◌-◌, ◌*◌, ◌/◌, ◌%◌, ◌^◌, Bool, true, false, ◌&&◌, ◌||◌, Option, none, some,
  ltb, leb, ◌==◌, if◌then◌else◌, u32, u64, Memory, store,
}

infixl 5 ◌>>=◌
abbrev pub ◌>>=◌ {ℓ κ} : {A : Type ℓ} {B : Type κ} → Option A → (A → Option B) → Option B
none >>= f = none
some a >>= f = f a

-- `while (*s2) s2++`
unfoldable pub end_of : ℕ → Memory → ℕ → Option ℕ
end_of zero m s2 = none
end_of (suc fuel) m s2 = let rest = end_of fuel m (s2 + 1) in if m s2 == 0 then some s2 else rest

unfoldable pub strlen : ℕ → Memory → ℕ → Option ℕ
strlen fuel m str = do s2 ← end_of fuel m str; some (s2 - str)

-- The loop that `strcmp` and `memcmp` share, at index `i` with `n` rounds left.
unfoldable pub compare_from : ℕ → ℕ → Memory → ℕ → ℕ → ℕ
compare_from zero i m str1 str2 = 0
compare_from (suc n) i m str1 str2 =
    let rest = compare_from n (i + 1) m str1 str2 in
    if m (str1 + i) == m (str2 + i) then rest else 1

unfoldable pub memcmp : Memory → ℕ → ℕ → ℕ → ℕ
memcmp m str1 str2 n = compare_from n 0 m str1 str2

unfoldable pub strcmp : ℕ → Memory → ℕ → ℕ → Option ℕ
strcmp fuel m str1 str2 = do
  len1 ← strlen fuel m str1
  len2 ← strlen fuel m str2
  some (if u32 len1 == u32 len2 then compare_from (u32 len1) 0 m str1 str2 else 1)

-- `strdilm_count`
unfoldable pub count_from : ℕ → Memory → ℕ → ℕ → ℕ → Option ℕ
count_from zero m str dilm count = none
count_from (suc fuel) m str dilm count =
    let rest =
      count_from fuel m (str + 1) dilm (if m str == dilm then u64 (count + 1) else count) in
    if m str == 0 then some count else rest

unfoldable pub strdilm_count : ℕ → Memory → ℕ → ℕ → Option ℕ
strdilm_count fuel m str dilm = count_from fuel m str dilm 0

-- The inner loop of `strsplit`: past the next delimiter. `some none` is the return of NULL.
unfoldable pub skip_part : ℕ → Memory → ℕ → ℕ → Option (Option ℕ)
skip_part zero m str dilm = none
skip_part (suc fuel) m str dilm =
    let rest = skip_part fuel m (str + 1) dilm in
    if m str == 0 then some none else if m str == dilm then some (some (str + 1)) else rest

-- What the outer loop of `strsplit` does with the end of one round.
unfoldable pub after_skip : (ℕ → Option (Option ℕ)) → Option (Option ℕ) → Option (Option ℕ)
after_skip next none = none
after_skip next (some none) = some none
after_skip next (some (some str)) = next str

unfoldable pub skip_parts : ℕ → ℕ → Memory → ℕ → ℕ → Option (Option ℕ)
skip_parts fuel zero m str dilm = some (some str)
skip_parts fuel (suc idx) m str dilm =
    after_skip (λ next. skip_parts fuel idx m next dilm) (skip_part fuel m str dilm)

-- The last loop of `strsplit`: `at` is `split + split_idx`.
unfoldable pub copy_part : ℕ → ℕ → ℕ → ℕ → Memory → Option Memory
copy_part zero at str dilm m = none
copy_part (suc fuel) at str dilm m =
    let rest = copy_part fuel (at + 1) (str + 1) dilm (store at (m str) m) in
    if m str == 0
    then some m
    else if (m str == dilm) || (m str == 0)
    then some (store at 0 m)
    else rest

-- `split` is the block that `kmalloc` returned. The result is NULL, or that block and the memory.
unfoldable pub strsplit : ℕ → ℕ → Memory → ℕ → ℕ → ℕ → Option (Option ℕ × Memory)
strsplit fuel split m str dilm idx = elim (skip_parts fuel idx m str dilm) [
  | none ↦ none
  | some none ↦ some (none, m)
  | some (some part) ↦ (do m' ← copy_part fuel split part dilm m; some (some split, m'))
]

-- The loop of `strappend`: `count` bytes from `str2 + idx` to `i`.
unfoldable pub append_from : ℕ → ℕ → ℕ → Memory → ℕ × Memory
append_from zero i src m = (i, m)
append_from (suc n) i src m = append_from n (i + 1) (src + 1) (store i (m src) m)

unfoldable pub strappend : ℕ → ℕ → ℕ → Memory → Option Memory
strappend fuel str1 str2 m = do
  str1_len ← strlen fuel m str1
  str2_len ← strlen fuel m str2
  (let (i, m') = append_from (str2_len + 1) (str1 + str1_len) str2 m in some (store i 0 m'))
