-- ===== src/Mm/Heap/Resize.antt =====
-- krealloc of heap.c: a new block, a copy of the old one, and kfree.
use mksd_old_archive.Base.{
  ℕ, ◌+◌, ◌^◌, ◌≤◌, ◌<◌, ◌≡◌, ◌⊎◌, inl, inr, refl, ap, sym, subst, ◌∙◌, arith, List, [], ◌∷◌, ◌++◌,
  append_assoc, Memory, memcpy, memcpy-outside, memcpy-forward,
}
use mksd_old_archive.Mm.Heap.{Heap, heap_bytes, kmalloc, kfree, krealloc}
use mksd_old_archive.Mm.Heap.Blocks.{kmalloc-Allocated}
use mksd_old_archive.Mm.Heap.Chain.{Block, Chain}
use mksd_old_archive.Mm.Heap.History.{
  IsHeap, alloc-IsHeap, free-IsHeap, write-IsHeap, kmalloc-granted,
}
use mksd_old_archive.Mm.Heap.Kept.{InBlock, InBlock-le, kmalloc-Kept, kfree-Kept}

InBlock-mid :
    (xs ys : List Block) (b : Block) (a : ℕ)
    → b.at + 32 ≤ a
    → a < b.at + 32 + b.size
    → InBlock a (xs ++ b ∷ ys)
InBlock-mid [] ys b a l u = inl (l, u)
InBlock-mid (x ∷ xs) ys b a l u = inr (InBlock-mid xs ys b a l u)

InBlock-insert :
    (xs ys : List Block) (b : Block) (a : ℕ) → InBlock a (xs ++ ys) → InBlock a (xs ++ b ∷ ys)
InBlock-insert [] ys b a h = inr h
InBlock-insert (x ∷ xs) ys b a (inl h) = inl h
InBlock-insert (x ∷ xs) ys b a (inr h) = inr (InBlock-insert xs ys b a h)

InBlock-append : (xs ys : List Block) (a : ℕ) → InBlock a xs → InBlock a (xs ++ ys)
InBlock-append [] ys a h = elim h [ ]
InBlock-append (x ∷ xs) ys a (inl h) = inl h
InBlock-append (x ∷ xs) ys a (inr h) = inr (InBlock-append xs ys a h)

at-le :
    (xs ys : List Block) (b : Block) (m : Memory) (prev lo free_ptr : ℕ)
    → Chain m prev lo (xs ++ b ∷ ys) free_ptr
    → lo ≤ b.at
at-le [] ys b m prev lo free_ptr (l, _, _) = l
at-le (x ∷ xs) ys b m prev lo free_ptr (l, _, rest) =
    omega (arith, at-le xs ys b m x.at (x.at + 32 + x.size) free_ptr rest)

-- A byte of another block than `b`.
pub InBlock-other :
    (xs ys : List Block) (b : Block) (m : Memory) (prev lo a free_ptr : ℕ)
    → Chain m prev lo (xs ++ b ∷ ys) free_ptr
    → InBlock a (xs ++ ys)
    → (a < b.at + 32) ⊎ (b.at + 32 + b.size ≤ a)
InBlock-other [] ys b m prev lo a free_ptr (_, _, rest) byte =
    inr (omega (arith, (InBlock-le m b.at (b.at + 32 + b.size) a ys free_ptr rest byte).0))
InBlock-other (x ∷ xs) ys b m prev lo a free_ptr (_, _, rest) (inl byte) =
    inl (omega (arith, at-le xs ys b m x.at (x.at + 32 + x.size) free_ptr rest))
InBlock-other (x ∷ xs) ys b m prev lo a free_ptr (_, _, rest) (inr byte) =
    InBlock-other xs ys b m x.at (x.at + 32 + x.size) a free_ptr rest byte

-- The block that the next call of kmalloc for `n` bytes returns.
abbrev pub new_block : ℕ → Heap → Block
new_block n s = record { at = s.free_ptr; size = n }

-- What `krealloc` has before it calls kfree.
abbrev pub copied : ℕ → ℕ → ℕ → Heap → Heap
copied mapped old n s =
    let s₁ = (kmalloc mapped n s).1 in
    record s₁ { memory = memcpy (s.free_ptr + 32) old n s₁.memory }

pub kmalloc-at :
    (mapped n : ℕ) (s : Heap)
    → 32 ≤ s.heap_start
    → s.free_ptr + 64 + n < 2 ^ 64
    → s.bytes_allocated + n ≤ heap_bytes
    → (kmalloc mapped n s).0 ≡ s.free_ptr + 32
kmalloc-at mapped n s on h k = elim (kmalloc-Allocated mapped n s (ground arith) h (omega arith)) [
  | inl (over, _) ↦ absurd (omega arith)
  | inr (_, out) ↦ out.at
]

copied-IsHeap :
    (mapped old n : ℕ) (s : Heap) (live : List Block)
    → s.free_ptr + 64 + n < 2 ^ 64
    → s.bytes_allocated + n ≤ heap_bytes
    → IsHeap s live
    → IsHeap (copied mapped old n s) (live ++ new_block n s ∷ [])
copied-IsHeap mapped old n s live h k v =
    write-IsHeap live [] (new_block n s) (copied mapped old n s).memory ((kmalloc mapped n s).1)
      (λ a outside.
        memcpy-outside n (s.free_ptr + 32) old ((kmalloc mapped n s).1).memory a outside)
      (alloc-IsHeap mapped n s live h k v)

copied-Kept :
    (mapped old n : ℕ) (s : Heap) (live : List Block) (a : ℕ)
    → s.free_ptr + 64 + n < 2 ^ 64
    → s.bytes_allocated + n ≤ heap_bytes
    → IsHeap s live
    → InBlock a live
    → (copied mapped old n s).memory a ≡ s.memory a
copied-Kept mapped old n s live a h k v byte =
    let below = InBlock-le s.memory 0 s.heap_start a live s.free_ptr v.chain byte in
    memcpy-outside n (s.free_ptr + 32) old ((kmalloc mapped n s).1).memory a
      (inl (omega (arith, below.1)))
    ∙ kmalloc-Kept mapped n s live a h k v byte

pub krealloc-copied :
    (mapped old n : ℕ) (s : Heap)
    → 32 ≤ s.heap_start
    → s.free_ptr + 64 + n < 2 ^ 64
    → s.bytes_allocated + n ≤ heap_bytes
    → krealloc mapped old n s ≡ (s.free_ptr + 32, kfree old (copied mapped old n s))
unfolding krealloc
krealloc-copied mapped old n s on h k = rw (krealloc, kmalloc-at mapped n s on h k) refl

pub kfree-free_ptr : (ptr : ℕ) (s : Heap) → (kfree ptr s).free_ptr ≡ s.free_ptr
unfolding kfree
kfree-free_ptr ptr s = refl

-- A heap with the blocks `live` after `krealloc` has moved `b` to a block of `n` bytes: the block that
-- is returned, the bytes that it has from the old one, and those of the other blocks.
pub record Moved (b : Block) (n : ℕ) (others : List Block) (s : Heap) (out : ℕ × Heap)
    : Type 0 where
  pub at : out.0 ≡ s.free_ptr + 32
  pub heap : IsHeap (out.1) (others ++ new_block n s ∷ [])
  pub behind : (out.1).free_ptr ≡ s.free_ptr + 32 + n
  pub same :
      (i : ℕ) → i < n → i < b.size → (out.1).memory (s.free_ptr + 32 + i) ≡ s.memory (b.at + 32 + i)
  pub kept : (a : ℕ) → InBlock a others → (out.1).memory a ≡ s.memory a

-- In a heap with room for `n` bytes, `krealloc` of a live block returns a new block of `n` bytes and
-- leaves a heap with it in place of the old one. It begins with the bytes of the old block, as
-- many as both have, and the other blocks have the bytes that they had.
pub krealloc-Moved :
    (mapped n : ℕ) (xs ys : List Block) (b : Block) (s : Heap)
    → IsHeap s (xs ++ b ∷ ys)
    → s.free_ptr + 64 + n < 2 ^ 64
    → s.bytes_allocated + n ≤ heap_bytes
    → Moved b n (xs ++ ys) s (krealloc mapped (b.at + 32) n s)
krealloc-Moved mapped n xs ys b s v h k =
    let old = b.at + 32 in
    let s₂ = copied mapped old n s in
    let new = new_block n s in
    let v₂ : IsHeap s₂ (xs ++ b ∷ (ys ++ new ∷ [])) =
      subst (λ (bs : List Block). IsHeap s₂ bs) (append_assoc xs (b ∷ ys) (new ∷ []))
        (copied-IsHeap mapped old n s (xs ++ b ∷ ys) h k v) in
    let at_new : (a : ℕ)
        → InBlock a ((xs ++ ys) ++ new ∷ [])
        → InBlock a (xs ++ b ∷ (ys ++ new ∷ [])) =
      λ a byte.
        InBlock-insert xs (ys ++ new ∷ []) b a
          (subst (InBlock a) (append_assoc xs ys (new ∷ [])) byte) in
    let freed : (a : ℕ)
        → InBlock a ((xs ++ ys) ++ new ∷ [])
        → (kfree old s₂).memory a ≡ s₂.memory a =
      λ a byte. kfree-Kept xs (ys ++ new ∷ []) b s₂ a v₂ (at_new a byte) in
    rw (krealloc-copied mapped old n s v.start h k) (record {
      at = refl;
      behind =
          kfree-free_ptr old s₂
          ∙ ap (λ (t : Heap). t.free_ptr)
              (kmalloc-granted mapped n s (ground (arith, v.start)) h k);
      heap =
          subst (λ (bs : List Block). IsHeap (kfree old s₂) bs)
            (sym (append_assoc xs ys (new ∷ []))) (free-IsHeap xs (ys ++ new ∷ []) b s₂ v₂);
      same = λ i l u.
          let mid = InBlock-mid xs ys b (old + i) (omega arith) (omega arith) in
          let below =
            InBlock-le s.memory 0 s.heap_start (old + i) (xs ++ b ∷ ys) s.free_ptr v.chain mid in
          freed (s.free_ptr + 32 + i)
            (InBlock-mid (xs ++ ys) [] new (s.free_ptr + 32 + i) (omega arith) (omega arith))
          ∙ memcpy-forward i n (s.free_ptr + 32) old ((kmalloc mapped n s).1).memory l
              (omega (arith, below.1))
          ∙ kmalloc-Kept mapped n s (xs ++ b ∷ ys) (old + i) h k v mid;
      kept = λ a byte.
          freed a (InBlock-append (xs ++ ys) (new ∷ []) a byte)
          ∙ copied-Kept mapped old n s (xs ++ b ∷ ys) a h k v (InBlock-insert xs ys b a byte);
    })
