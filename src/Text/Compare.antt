-- ===== src/Text/Compare.antt =====
-- strlen, strcmp, memcmp and strdilm_count of string.c on the strings that memory holds.
use mksd_old_archive.Base.{
  ℕ, zero, suc, ◌+◌, ◌^◌, ◌≤◌, ◌<◌, ◌≡◌, ◌≢◌, ◌↔◌, ◌⊎◌, inl, inr, refl, sym, ap, subst, ap₂, ◌∙◌,
  arith, some, ◌==◌, if◌then◌else◌, Bool-cases, ==_iff, u64, Memory, IsString, List, [], ◌∷◌,
  length,
}
use native.Mathlib.Nat.{add-zero}
use mksd_old_archive.Text.{end_of, strlen, compare_from, memcmp, strcmp, count_from, strdilm_count}

end_of-IsString :
    (fuel : ℕ) (m : Memory) (p : ℕ) (s : List ℕ)
    → IsString m p s
    → length s < fuel
    → end_of fuel m p ≡ some (p + length s)
unfolding end_of
end_of-IsString zero m p s h l = absurd (omega arith)
end_of-IsString (suc fuel) m p [] h l = ground arith
end_of-IsString (suc fuel) m p (c ∷ s) (e, ne, rest) l =
    ground (arith, end_of-IsString fuel m (p + 1) s rest)

-- `strlen` of a string is its length.
pub strlen-IsString :
    (fuel : ℕ) (m : Memory) (p : ℕ) (s : List ℕ)
    → IsString m p s
    → length s < fuel
    → strlen fuel m p ≡ some (length s)
unfolding strlen
strlen-IsString fuel m p s h l = ground (arith, end_of-IsString fuel m p s h l)

-- The bytes `lo` to `hi` of two blocks agree.
abbrev pub Agree : Memory → ℕ → ℕ → ℕ → ℕ → Type 0
Agree m a b lo hi = (j : ℕ) → lo ≤ j → j < hi → m (a + j) ≡ m (b + j)

compare_from-Agree :
    (n i : ℕ) (m : Memory) (a b : ℕ)
    → ((compare_from n i m a b ≡ 0) × Agree m a b i (i + n))
      ⊎ ((compare_from n i m a b ≡ 1) × ((j : ℕ) × (i ≤ j) × (j < i + n) × (m (a + j) ≢ m (b + j))))
unfolding compare_from
compare_from-Agree zero i m a b = inl (refl, λ j l u. absurd (omega arith))
compare_from-Agree (suc n) i m a b = elim (Bool-cases (m (a + i) == m (b + i))) [
  | inr e ↦ rw e (inr (refl, (i, omega arith, omega arith, ground arith)))
  | inl e ↦ rw e (elim (compare_from-Agree n (i + 1) m a b) [
    | inl (r, all) ↦ inl (
      r,
      λ j l u. elim (Bool-cases (i == j)) [
        | inl same ↦
            subst (λ (t : ℕ). m (a + t) ≡ m (b + t)) ((==_iff i j).0 same) ((==_iff _ _).0 e)
        | inr other ↦ all j (ground arith) (omega arith)
      ],
    )
    | inr (r, (j, l, u, ne)) ↦ inr (r, (j, omega arith, omega arith, ne))
  ])
]

-- `memcmp` returns 0 exactly when the blocks agree, and 1 otherwise.
pub memcmp-Agree :
    (m : Memory) (a b n : ℕ)
    → ((memcmp m a b n ≡ 0) ↔ Agree m a b 0 n) × ((memcmp m a b n ≡ 0) ⊎ (memcmp m a b n ≡ 1))
unfolding memcmp
memcmp-Agree m a b n = elim (compare_from-Agree n 0 m a b) [
  | inl (r, all) ↦ (((λ _ j l u. all j l (omega arith)), λ _. r), inl r)
  | inr (r, (j, l, u, ne)) ↦
      (((λ z. absurd (omega arith)), λ all. absurd (ne (all j l (omega arith)))), inr r)
]

shift : (a j : ℕ) → a + suc j ≡ a + 1 + j
shift a j = omega arith

-- Two strings of one length whose bytes agree are one list.
Agree-eq :
    (m : Memory) (a b : ℕ) (s t : List ℕ)
    → IsString m a s
    → IsString m b t
    → length s ≡ length t
    → Agree m a b 0 (length s)
    → s ≡ t
Agree-eq m a b [] [] h k e all = refl
Agree-eq m a b [] (d ∷ t) h k e all = absurd (omega arith)
Agree-eq m a b (c ∷ s) [] h k e all = absurd (omega arith)
Agree-eq m a b (c ∷ s) (d ∷ t) (h, _, h') (k, _, k') e all =
    ap₂ ◌∷◌ (ground (arith, all 0 (omega arith) (omega arith))) (
      Agree-eq m (a + 1) (b + 1) s t h' k' (omega arith)
        (λ j l u. ground (arith, all (suc j), shift a j, shift b j)))

IsString-Agree :
    (m : Memory) (a b : ℕ) (s : List ℕ) → IsString m a s → IsString m b s → Agree m a b 0 (length s)
IsString-Agree m a b [] h k j l u = absurd (omega arith)
IsString-Agree m a b (c ∷ s) (h, _, h') (k, _, k') zero l u = rw (add-zero, add-zero) (h ∙ sym k)
IsString-Agree m a b (c ∷ s) (h, _, h') (k, _, k') (suc j) l u =
    ground (arith, shift a j, shift b j, IsString-Agree m (a + 1) (b + 1) s h' k' j)

-- `strcmp` of two strings returns 0 exactly when they are equal, and 1 otherwise.
pub strcmp-IsString :
    (fuel : ℕ) (m : Memory) (a b : ℕ) (s t : List ℕ)
    → IsString m a s
    → IsString m b t
    → length s < fuel
    → length t < fuel
    → length s < 2 ^ 32
    → length t < 2 ^ 32
    → (r : ℕ) × (strcmp fuel m a b ≡ some r) × ((r ≡ 0) ↔ (s ≡ t)) × ((r ≡ 0) ⊎ (r ≡ 1))
strcmp-IsString fuel m a b s t h k l l' small small' =
    let left = strlen-IsString fuel m a s h l in
    let right = strlen-IsString fuel m b t k l' in
    elim (Bool-cases (length s == length t)) [
      | inr other ↦ (
        1,
        unfold strcmp in ground (arith, left, right),
        ((λ z. absurd (omega arith)), λ e. absurd (ground (arith, ap (length {A = ℕ}) e))),
        inr refl,
      )
      | inl same ↦
          let n : length s ≡ length t = (==_iff _ _).0 same in
          let run : strcmp fuel m a b ≡ some (compare_from (length s) 0 m a b) =
            unfold strcmp in ground (arith, left, right) in
          elim (compare_from-Agree (length s) 0 m a b) [
            | inl (r, all) ↦ (
              0,
              rw run (ap some r),
              ((λ _. Agree-eq m a b s t h k n (λ j lo hi. all j lo (omega arith))), λ _. refl),
              inl refl,
            )
            | inr (r, (j, lo, hi, ne)) ↦ (
              1,
              rw run (ap some r),
              (
                (λ z. absurd (omega arith)),
                λ e. absurd (ne (IsString-Agree m a b s h (rw (← e) at k) j lo (omega arith))),
              ),
              inr refl,
            )
          ]
    ]

-- How often `c` stands in a list.
unfoldable pub count : ℕ → List ℕ → ℕ
count c [] = 0
count c (d ∷ s) = (if d == c then 1 else 0) + count c s

pub count-le : (c : ℕ) (s : List ℕ) → count c s ≤ length s
unfolding count
count-le c [] = omega arith
count-le c (d ∷ s) = ground (arith, count-le c s)

count_from-count :
    (fuel : ℕ) (m : Memory) (p c n : ℕ) (s : List ℕ)
    → IsString m p s
    → length s < fuel
    → n + length s < 2 ^ 64
    → count_from fuel m p c n ≡ some (n + count c s)
unfolding count_from count
count_from-count zero m p c n s h l u = absurd (omega arith)
count_from-count (suc fuel) m p c n [] h l u = ground arith
count_from-count (suc fuel) m p c n (d ∷ s) (e, ne, rest) l u =
    ground (arith, count_from-count fuel m (p + 1) c (if m p == c then u64 (n + 1) else n) s rest)

-- `strdilm_count` counts the delimiter.
pub strdilm_count-count :
    (fuel : ℕ) (m : Memory) (p c : ℕ) (s : List ℕ)
    → IsString m p s
    → length s < fuel
    → length s < 2 ^ 64
    → strdilm_count fuel m p c ≡ some (count c s)
unfolding strdilm_count
strdilm_count-count fuel m p c s h l u =
    count_from-count fuel m p c 0 s h l (omega arith) ∙ ap some (omega arith)
