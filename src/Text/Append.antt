-- ===== src/Text/Append.antt =====
-- strappend of string.c.
use native.Mathlib.Nat.{add-zero}
use mksd_old_archive.Base.{
  ℕ, zero, suc, ◌+◌, ◌-◌, ◌≤◌, ◌<◌, ◌≡◌, ◌⊎◌, sym, ap, subst, ◌∙◌, arith, some, Memory, store,
  memcpy, memcpy_lem, IsString, IsString-ext, List, [], ◌∷◌, ◌++◌, length,
}
use mksd_old_archive.Text.{append_from, strappend}
use mksd_old_archive.Text.Compare.{strlen-IsString}

append_from-memcpy : (n i src : ℕ) (m : Memory) → append_from n i src m ≡ (i + n, memcpy i src n m)
unfolding append_from memcpy
append_from-memcpy zero i src m = ap (λ (t : ℕ). (t, m)) (sym (add-zero i))
append_from-memcpy (suc n) i src m =
    append_from-memcpy n (i + 1) (src + 1) (store i (m src) m)
    ∙ ap (λ (t : ℕ). (t, memcpy (i + 1) (src + 1) n (store i (m src) m))) (omega arith)

-- A string carried from `p` in one memory to `q` in another.
IsString-move :
    (m m' : Memory) (p q : ℕ) (s : List ℕ)
    → ((j : ℕ) → j ≤ length s → m' (q + j) ≡ m (p + j))
    → IsString m p s
    → IsString m' q s
IsString-move m m' p q [] same h = ground (arith, same 0, add-zero q, add-zero p)
IsString-move m m' p q (c ∷ s) same (e, ne, rest) = (
  ground (arith, same 0, add-zero q, add-zero p),
  ne,
  IsString-move m m' (p + 1) (q + 1) s
      (λ j l.
        ap m' {x = q + 1 + j} {y = q + suc j} (omega arith)
        ∙ same (suc j) (omega arith)
        ∙ ap m {x = p + suc j} {y = p + 1 + j} (omega arith))
      rest,
)

-- A string whose end is replaced by another string.
IsString-append :
    (m m' : Memory) (p : ℕ) (s t : List ℕ)
    → ((a : ℕ) → p ≤ a → a < p + length s → m' a ≡ m a)
    → IsString m p s
    → IsString m' (p + length s) t
    → IsString m' p (s ++ t)
IsString-append m m' p [] t same h k = rw (add-zero p) at k
IsString-append m m' p (c ∷ s) t same (e, ne, rest) k = (
  same p (omega arith) (omega arith) ∙ e,
  ne,
  IsString-append m m' (p + 1) s t (λ a l u. same a (omega arith) (omega arith)) rest
      (subst (λ (a : ℕ). IsString m' a t) {x = p + suc (length s)} {y = p + 1 + length s}
        (omega arith) k),
)

-- `strappend` puts the second string behind the first, where their blocks do not meet. It writes
-- nothing but the second string, its 0 and one more 0.
strappend-IsString :
    (fuel p q : ℕ) (s t : List ℕ) (m : Memory)
    → IsString m p s
    → IsString m q t
    → length s < fuel
    → length t < fuel
    → (p + length s + length t + 2 ≤ q) ⊎ (q + length t + 1 ≤ p)
    → (m' : Memory) × (strappend fuel p q m ≡ some m')
      × IsString m' p (s ++ t)
      × IsString m' q t
      × (m' (p + length s + length t + 1) ≡ 0)
      × ((a : ℕ) → (a < p + length s) ⊎ (p + length s + length t + 1 < a) → m' a ≡ m a)
unfolding strappend
strappend-IsString fuel p q s t m h k l l' apart =
    let dst = p + length s in
    let n = length t + 1 in
    let m₁ = memcpy dst q n m in
    let m₂ = store (dst + n) 0 m₁ in
    let copied = λ (a : ℕ). memcpy_lem n dst q m a (ground arith) in
    (
      m₂,
      ground (
        arith,
        strlen-IsString fuel m p s h l,
        strlen-IsString fuel m q t k l',
        append_from-memcpy n dst q m,
      ),
      IsString-append m m₂ p s t (λ a lo hi. ground (arith, copied a)) h
          (IsString-move m m₂ q dst t
            (λ j hi.
              ground
                (arith, copied (dst + j), ap m {x = q + (dst + j - dst)} {y = q + j} (omega arith)))
            k),
      IsString-ext m m₂ q t (λ a lo hi. ground (arith, copied a)) k,
      ground arith,
      (λ a o. ground (arith, copied a)),
    )
