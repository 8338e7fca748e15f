-- ===== src/Mm/Heap/Unlink.antt =====
-- kfree takes a header out of the list.
use mksd_old_archive.Base.{
  ℕ, ◌+◌, ◌^◌, ◌≤◌, ◌<◌, ◌≡◌, ◌≢◌, ◌⊎◌, inl, inr, ◌∙◌, arith, List, [], ◌∷◌, ◌++◌, if◌then◌else◌,
  ◌==◌, Bool-cases, Memory, load, load-ext, load-store_word, store_word-outside,
  load-store_word_apart, store_word,
}
use mksd_old_archive.Mm.Heap.Chain.{
  Block, first, Between, Chain, Between-ext, Chain-above, Chain-le,
}

-- The address of the last header, `prev` if there is none.
abbrev pub last : List Block → ℕ → ℕ
last [] prev = prev
last (b ∷ bs) prev = last bs b.at

-- The two links of a removal are written, one only if `prev` is 0, and nothing else.
pub record Relinked (m m' : Memory) (prev next : ℕ) : Type 0 where
  pub forward : prev ≢ 0 → load 8 m' (prev + 16) ≡ next
  pub back : load 8 m' (next + 24) ≡ prev
  pub same :
      (a : ℕ) → (a < prev + 16) ⊎ (prev + 24 ≤ a) → (a < next + 24) ⊎ (next + 32 ≤ a) → m' a ≡ m a

-- The header of a block in the midst of the list, and where it lies.
pub Chain-at :
    (xs ys : List Block) (b : Block) (m : Memory) (prev lo free_ptr : ℕ)
    → Chain m prev lo (xs ++ b ∷ ys) free_ptr
    → prev + 32 ≤ lo
    → Between m (last xs prev) (first ys free_ptr) b
      × (lo ≤ b.at)
      × (last xs prev + 32 ≤ b.at)
      × (b.at + 32 + b.size ≤ first ys free_ptr)
Chain-at [] ys b m prev lo free_ptr (l, here, rest) low =
    (here, l, omega arith, (Chain-le m b.at (b.at + 32 + b.size) ys free_ptr rest).0)
Chain-at (x ∷ xs) ys b m prev lo free_ptr (l, here, rest) low =
    let (at, above, behind, before) =
      Chain-at xs ys b m x.at (x.at + 32 + x.size) free_ptr rest (omega arith) in
    (at, omega arith, behind, before)

last-le :
    (xs ys : List Block) (x b : Block) (m : Memory) (prev lo free_ptr : ℕ)
    → Chain m prev lo (x ∷ xs ++ b ∷ ys) free_ptr
    → x.at ≤ last xs x.at
last-le [] ys x b m prev lo free_ptr h = omega arith
last-le (y ∷ xs) ys x b m prev lo free_ptr (_, _, (l, here, rest)) =
    omega (arith, last-le xs ys y b m x.at (x.at + 32 + x.size) free_ptr (l, here, rest))

Chain-relink :
    (ys : List Block) (m m' : Memory) (p prev lo lo' free_ptr : ℕ)
    → Chain m p lo ys free_ptr
    → lo' ≤ lo
    → prev + 32 ≤ lo
    → Relinked m m' prev (first ys free_ptr)
    → Chain m' prev lo' ys free_ptr
Chain-relink [] m m' p prev lo lo' free_ptr (l, back) low above r = (omega arith, r.back)
Chain-relink (q ∷ ys) m m' p prev lo lo' free_ptr (l, here, rest) low above r =
    let kept : (a : ℕ) → q.at ≤ a → a < q.at + 24 → m' a ≡ m a =
      λ a lo hi. r.same a (inr (omega arith)) (inl hi) in
    (
      omega arith,
      record {
        magic = load-ext 4 m m' q.at (λ a lo hi. kept a lo (omega arith)) ∙ here.magic;
        size =
            load-ext 8 m m' (q.at + 8) (λ a lo hi. kept a (omega arith) (omega arith)) ∙ here.size;
        next_link =
            load-ext 8 m m' (q.at + 16) (λ a lo hi. kept a (omega arith) (omega arith))
            ∙ here.next_link;
        prev_link = r.back;
      },
      Chain-above m m' q.at (q.at + 32 + q.size) ys free_ptr
          (λ a lo. r.same a (inr (omega arith)) (inr (omega arith))) rest,
    )

-- Once the two links are written, the list is the one without the block.
pub Chain-remove :
    (xs ys : List Block) (b : Block) (m m' : Memory) (prev lo free_ptr : ℕ)
    → Chain m prev lo (xs ++ b ∷ ys) free_ptr
    → prev + 32 ≤ lo
    → Relinked m m' (last xs prev) (first ys free_ptr)
    → Chain m' prev lo (xs ++ ys) free_ptr
Chain-remove [] ys b m m' prev lo free_ptr (l, here, rest) low r =
    Chain-relink ys m m' b.at prev (b.at + 32 + b.size) lo free_ptr rest (omega arith) (omega arith)
      r
Chain-remove (x ∷ []) ys b m m' prev lo free_ptr (l, here, rest) low r =
    let next = (Chain-at [] ys b m x.at (x.at + 32 + x.size) free_ptr rest (omega arith)) in
    let kept : (a : ℕ) → (a < x.at + 16) ⊎ (x.at + 24 ≤ a) → a < x.at + 32 → m' a ≡ m a =
      λ a off hi. r.same a off (inl (omega (arith, next.1, next.3))) in
    (
      l,
      record {
        magic =
            load-ext 4 m m' x.at (λ a lo hi. kept a (inl (omega arith)) (omega arith)) ∙ here.magic;
        size =
            load-ext 8 m m' (x.at + 8) (λ a lo hi. kept a (inl (omega arith)) (omega arith))
            ∙ here.size;
        next_link = r.forward (omega arith);
        prev_link =
            load-ext 8 m m' (x.at + 24) (λ a lo hi. kept a (inr (omega arith)) (omega arith))
            ∙ here.prev_link;
      },
      Chain-remove [] ys b m m' x.at (x.at + 32 + x.size) free_ptr rest (omega arith) r,
    )
Chain-remove (x ∷ y ∷ xs) ys b m m' prev lo free_ptr (l, here, rest) low r =
    let next = Chain-at (y ∷ xs) ys b m x.at (x.at + 32 + x.size) free_ptr rest (omega arith) in
    let behind = last-le xs ys y b m x.at (x.at + 32 + x.size) free_ptr rest in
    (
      l,
      Between-ext m m' prev y.at x
          (λ a lo hi.
            r.same a (inl (omega (arith, behind, rest.0))) (inl (omega (arith, next.1, next.3))))
          here,
      Chain-remove (y ∷ xs) ys b m m' x.at (x.at + 32 + x.size) free_ptr rest (omega arith) r,
    )

-- The memory after the two writes of `kfree`.
abbrev pub unlinked : ℕ → ℕ → Memory → Memory
unlinked prev next m =
    store_word 8 (next + 24) prev (if prev == 0 then m else store_word 8 (prev + 16) next m)

pub unlinked-Relinked :
    (prev next : ℕ) (m : Memory)
    → prev + 32 ≤ next
    → next < 2 ^ 64
    → Relinked m (unlinked prev next m) prev next
unlinked-Relinked prev next m l small = elim (Bool-cases (prev == 0)) [
  | inl e ↦ rw e (record {
    forward = λ ne. absurd (ground arith);
    back = load-store_word 8 (next + 24) prev m (omega arith);
    same = λ a _ off. store_word-outside 8 (next + 24) prev m a (ground arith);
  })
  | inr e ↦
      let m₁ = store_word 8 (prev + 16) next m in
      rw e (record {
        forward = λ ne.
            load-store_word_apart 8 8 (prev + 16) (next + 24) prev m₁ (inl (omega arith))
            ∙ load-store_word 8 (prev + 16) next m (omega arith);
        back = load-store_word 8 (next + 24) prev m₁ (omega arith);
        same = λ a off off'.
            store_word-outside 8 (next + 24) prev m₁ a (ground arith)
            ∙ store_word-outside 8 (prev + 16) next m a (ground arith);
      })
]
