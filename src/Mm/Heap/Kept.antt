-- ===== src/Mm/Heap/Kept.antt =====
-- What kmalloc and kfree leave alone, and where kmalloc's check of the size does not help.
use mksd_old_archive.Base.{
  ℕ, zero, suc, ◌+◌, ◌*◌, ◌^◌, ◌≤◌, ◌<◌, ◌≡◌, ◌⊎◌, inl, inr, ap, subst, ◌∙◌, arith, List, [], ◌∷◌,
  ◌++◌, ltb, leb, ◌&&◌, Bool-cases, Memory,
}
use mksd_old_archive.Mm.Heap.{Heap, heap_bytes, kmalloc, kfree}
use mksd_old_archive.Mm.Heap.Blocks.{linked, linked-outside, kmalloc-Allocated}
use mksd_old_archive.Mm.Heap.Chain.{
  Block, first, Chain, InHeader, InHeader-le, Chain-le, Chain-first-le,
}
use mksd_old_archive.Mm.Heap.Unlink.{last, Chain-at, unlinked-Relinked}
use mksd_old_archive.Mm.Heap.History.{
  IsHeap, Step, kmalloc-granted, kmalloc-refused, kfree-unlinked,
}

-- A byte of a live block, behind its header.
abbrev pub InBlock : ℕ → List Block → Type 0
InBlock a [] = ⊥
InBlock a (b ∷ bs) = ((b.at + 32 ≤ a) × (a < b.at + 32 + b.size)) ⊎ InBlock a bs

pub InBlock-le :
    (m : Memory) (prev lo a : ℕ) (bs : List Block) (free_ptr : ℕ)
    → Chain m prev lo bs free_ptr
    → InBlock a bs
    → (lo + 32 ≤ a) × (a < free_ptr)
InBlock-le m prev lo a [] free_ptr h byte = elim byte [ ]
InBlock-le m prev lo a (b ∷ bs) free_ptr (l, _, rest) (inl h) =
    let low = Chain-le m b.at (b.at + 32 + b.size) bs free_ptr rest in
    (omega arith, omega (arith, low.1))
InBlock-le m prev lo a (b ∷ bs) free_ptr (l, _, rest) (inr h) =
    let low = InBlock-le m b.at (b.at + 32 + b.size) a bs free_ptr rest h in
    (omega (arith, low.0), low.1)

InBlock-InHeader :
    (m : Memory) (prev lo a : ℕ) (bs : List Block) (free_ptr : ℕ)
    → Chain m prev lo bs free_ptr
    → InBlock a bs
    → InHeader a bs free_ptr
    → ⊥
InBlock-InHeader m prev lo a [] free_ptr h byte k = elim byte [ ]
InBlock-InHeader m prev lo a (b ∷ bs) free_ptr (l, _, rest) (inl h) (inl k) = omega arith
InBlock-InHeader m prev lo a (b ∷ bs) free_ptr (l, _, rest) (inl h) (inr k) =
    omega (arith, InHeader-le m b.at (b.at + 32 + b.size) a bs free_ptr rest k)
InBlock-InHeader m prev lo a (b ∷ bs) free_ptr (l, _, rest) (inr h) (inl k) =
    omega (arith, (InBlock-le m b.at (b.at + 32 + b.size) a bs free_ptr rest h).0)
InBlock-InHeader m prev lo a (b ∷ bs) free_ptr (l, _, rest) (inr h) (inr k) =
    InBlock-InHeader m b.at (b.at + 32 + b.size) a bs free_ptr rest h k

-- The links that kfree writes are in headers.
first-InHeader :
    (xs ys : List Block) (b : Block) (a free_ptr : ℕ)
    → first ys free_ptr + 24 ≤ a
    → a < first ys free_ptr + 32
    → InHeader a (xs ++ b ∷ ys) free_ptr
first-InHeader [] [] b a free_ptr l u = inr (l, u)
first-InHeader [] (y ∷ ys) b a free_ptr l u = inr (inl (omega arith))
first-InHeader (x ∷ xs) ys b a free_ptr l u = inr (first-InHeader xs ys b a free_ptr l u)

last-InHeader :
    (x : Block) (xs bs : List Block) (a free_ptr : ℕ)
    → last xs x.at ≤ a
    → a < last xs x.at + 32
    → InHeader a (x ∷ xs ++ bs) free_ptr
last-InHeader x [] bs a free_ptr l u = inl (l, u)
last-InHeader x (y ∷ xs) bs a free_ptr l u = inr (last-InHeader y xs bs a free_ptr l u)

pub kmalloc-Kept :
    (mapped n : ℕ) (s : Heap) (live : List Block) (a : ℕ)
    → s.free_ptr + 64 + n < 2 ^ 64
    → s.bytes_allocated + n ≤ heap_bytes
    → IsHeap s live
    → InBlock a live
    → ((kmalloc mapped n s).1).memory a ≡ s.memory a
kmalloc-Kept mapped n s live a h k v byte =
    let below = InBlock-le s.memory 0 s.heap_start a live s.free_ptr v.chain byte in
    ap (λ (t : Heap). t.memory a) (kmalloc-granted mapped n s (ground (arith, v.start)) h k)
    ∙ linked-outside s.free_ptr n s.memory a (inl below.1) (inl (omega (arith, below.1)))

outside_of : (a p q : ℕ) → (p ≤ a → a < q → ⊥) → (a < p) ⊎ (q ≤ a)
outside_of a p q h = elim (Bool-cases (ltb a p)) [
  | inl e ↦ inl (ground arith)
  | inr e ↦ elim (Bool-cases (leb q a)) [
    | inl k ↦ inr (ground arith)
    | inr k ↦ absurd (h (ground arith) (ground arith))
  ]
]

off_back :
    (xs ys : List Block) (b : Block) (m : Memory) (lo a free_ptr : ℕ)
    → Chain m 0 lo (xs ++ b ∷ ys) free_ptr
    → 32 ≤ lo
    → InBlock a (xs ++ b ∷ ys)
    → (a < last xs 0 + 16) ⊎ (last xs 0 + 24 ≤ a)
off_back [] ys b m lo a free_ptr chain low byte =
    inr (omega (arith, (InBlock-le m 0 lo a (b ∷ ys) free_ptr chain byte).0))
off_back (x ∷ xs) ys b m lo a free_ptr chain low byte =
    outside_of a (last xs x.at + 16) (last xs x.at + 24) (λ l u.
      InBlock-InHeader m 0 lo a (x ∷ xs ++ b ∷ ys) free_ptr chain byte
        (last-InHeader x xs (b ∷ ys) a free_ptr (omega arith) (omega arith)))

pub kfree-Kept :
    (xs ys : List Block) (b : Block) (s : Heap) (a : ℕ)
    → IsHeap s (xs ++ b ∷ ys)
    → InBlock a (xs ++ b ∷ ys)
    → (kfree (b.at + 32) s).memory a ≡ s.memory a
kfree-Kept xs ys b s a v byte =
    let next = first ys s.free_ptr in
    let (at, above, behind, before) =
      Chain-at xs ys b s.memory 0 s.heap_start s.free_ptr v.chain v.start in
    let end = Chain-first-le xs ys b s.memory 0 s.heap_start s.free_ptr v.chain in
    let relinked =
      unlinked-Relinked (last xs 0) next s.memory (omega arith) (omega (arith, end, v.top)) in
    let off_next = outside_of a (next + 24) (next + 32) (λ l u.
      InBlock-InHeader s.memory 0 s.heap_start a (xs ++ b ∷ ys) s.free_ptr v.chain byte
        (first-InHeader xs ys b a s.free_ptr l u)) in
    ap (λ (t : Heap). t.memory a)
      (kfree-unlinked b s (last xs 0) next at behind before (omega (arith, end, v.top)))
    ∙ relinked.same a (off_back xs ys b s.memory s.heap_start a s.free_ptr v.chain v.start byte)
        off_next

-- A byte that the step writes as the owner of a block.
abbrev pub Owns : {s s' : Heap} {live live' : List Block} → Step s live s' live' → ℕ → Type 0
Owns (Step.alloc mapped n s live h k) a = ⊥
Owns (Step.refuse mapped n s live h k) a = ⊥
Owns (Step.free xs ys b s live e) a = ⊥
Owns (Step.write xs ys b m s live e same) a = (b.at + 32 ≤ a) × (a < b.at + 32 + b.size)

-- In each step of a history, a byte of a live block is as it was, but where the step is a write by
-- the owner of a block and the byte is in that block: kmalloc and kfree write to no live block, and
-- kfree not even to the block that it is given.
pub Step-Kept :
    {s s' : Heap} {live live' : List Block}
    → (step : Step s live s' live') → IsHeap s live
    → (a : ℕ) → InBlock a live
    → Owns step a ⊎ (s'.memory a ≡ s.memory a)
Step-Kept (Step.alloc mapped n s live h k) v a byte =
    inr (kmalloc-Kept mapped n s live a h k v byte)
Step-Kept (Step.refuse mapped n s live h k) v a byte =
    inr (ap (λ (t : Heap). t.memory a) (kmalloc-refused mapped n s (ground (arith, v.start)) h k))
Step-Kept (Step.free xs ys b s live e) v a byte = inr (
    kfree-Kept xs ys b s a (subst (λ (bs : List Block). IsHeap s bs) e v)
      (subst (λ (bs : List Block). InBlock a bs) e byte))
Step-Kept (Step.write xs ys b m s live e same) v a byte =
    elim (Bool-cases (leb (b.at + 32) a && ltb a (b.at + 32 + b.size))) [
      | inl own ↦ inl (ground arith)
      | inr other ↦
          inr (same a (outside_of a (b.at + 32) (b.at + 32 + b.size) (λ l u. ground arith)))
    ]

-- `k` calls of kmalloc for no bytes.
abbrev pub empty_blocks : ℕ → ℕ → Heap → Heap
empty_blocks mapped zero s = s
empty_blocks mapped (suc k) s = empty_blocks mapped k ((kmalloc mapped 0 s).1)

kmalloc-empty :
    (mapped k : ℕ) (s : Heap)
    → 32 ≤ s.heap_start
    → s.bytes_allocated ≤ heap_bytes
    → s.free_ptr + 32 * k + 64 < 2 ^ 64
    → (kmalloc mapped 0 (empty_blocks mapped k s)).0 ≡ s.free_ptr + 32 * k + 32
kmalloc-empty mapped zero s start fits top =
    elim (kmalloc-Allocated mapped 0 s (ground arith) (omega arith) (omega arith)) [
      | inl (over, _) ↦ absurd (omega arith)
      | inr (_, block) ↦ omega (arith, block.at)
    ]
kmalloc-empty mapped (suc k) s start fits top =
    rw (kmalloc-granted mapped 0 s (ground arith) (omega arith) (omega arith)) (
      kmalloc-empty mapped k
        (record s {
          free_ptr = s.free_ptr + 32 + 0;
          bytes_allocated = s.bytes_allocated + 0;
          memory = linked s.free_ptr 0 s.memory;
        })
        start (omega arith) (omega arith)
      ∙ omega arith)

-- On a started heap whose free pointer is at its start and which counts at most ten pages, kmalloc
-- grants any number of blocks of no bytes below the top of memory, one behind the other: from the
-- call 1281 on the block lies behind the ten pages that are mapped for the heap.
pub kmalloc-overrun :
    (mapped k : ℕ) (s : Heap)
    → 32 ≤ s.heap_start
    → s.free_ptr ≡ s.heap_start
    → s.bytes_allocated ≤ heap_bytes
    → s.free_ptr + 32 * k + 64 < 2 ^ 64
    → ((kmalloc mapped 0 (empty_blocks mapped k s)).0 ≡ s.heap_start + 32 * k + 32)
      × (1280 ≤ k → s.heap_start + heap_bytes < (kmalloc mapped 0 (empty_blocks mapped k s)).0)
kmalloc-overrun mapped k s start fresh fits top =
    let at = kmalloc-empty mapped k s start fits top in (omega (arith, at), λ l. omega (arith, at))
