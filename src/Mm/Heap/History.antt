-- ===== src/Mm/Heap/History.antt =====
-- Histories of kmalloc, of kfree, and of writes into blocks.
use mksd_old_archive.Base.{
  ℕ, ◌+◌, ◌^◌, ◌≤◌, ◌<◌, ◌≡◌, ◌⊎◌, inl, refl, sym, subst, ◌∙◌, arith, List, [], ◌∷◌, ◌++◌, true,
  false, if◌then◌else◌, ◌==◌, ltb, Memory, load, load-ext, store_word-outside,
  load-store_word_apart, store_word, u64, sub64,
}
use mksd_old_archive.Mm.Heap.{Heap, heap_bytes, kmalloc, kfree}
use mksd_old_archive.Mm.Heap.Blocks.{linked, link_header-linked}
use mksd_old_archive.Mm.Heap.Chain.{
  Block, first, total, Between, Chain, Chain-ext, Chain-append, Chain-first-le, InHeader-outside,
}
use mksd_old_archive.Mm.Heap.Unlink.{last, Chain-at, Chain-remove, unlinked, unlinked-Relinked}

-- A started heap with the blocks `live`: their headers are linked both ways in the order of their
-- addresses, no two blocks meet, and the bytes of the blocks are counted and within ten pages.
pub record IsHeap (s : Heap) (live : List Block) : Type 0 where
  pub chain : Chain s.memory 0 s.heap_start live s.free_ptr
  pub start : 32 ≤ s.heap_start
  pub top : s.free_ptr + 32 ≤ 2 ^ 64
  pub counted : s.bytes_allocated ≡ total live
  pub bounded : total live ≤ heap_bytes

-- The memory outside a block is as it was.
abbrev pub Within : Block → Memory → Memory → Type 0
Within b m m' = (a : ℕ) → (a < b.at + 32) ⊎ (b.at + 32 + b.size ≤ a) → m' a ≡ m a

-- A call of kmalloc below the top of memory, granted or refused, one of kfree for a block of the
-- heap, or a write by the owner of a block.
pub data Step : Heap → List Block → Heap → List Block → Type 0 where
  alloc :
      (mapped n : ℕ) (s : Heap) (live : List Block)
      → s.free_ptr + 64 + n < 2 ^ 64
      → s.bytes_allocated + n ≤ heap_bytes
      → Step s live ((kmalloc mapped n s).1) (live ++ record { at = s.free_ptr; size = n } ∷ [])
  refuse :
      (mapped n : ℕ) (s : Heap) (live : List Block)
      → s.bytes_allocated + n < 2 ^ 64
      → heap_bytes < s.bytes_allocated + n
      → Step s live ((kmalloc mapped n s).1) live
  free :
      (xs ys : List Block) (b : Block) (s : Heap) (live : List Block)
      → live ≡ xs ++ b ∷ ys
      → Step s live (kfree (b.at + 32) s) (xs ++ ys)
  write :
      (xs ys : List Block) (b : Block) (m : Memory) (s : Heap) (live : List Block)
      → live ≡ xs ++ b ∷ ys
      → Within b s.memory m
      → Step s live (record s { memory = m }) live

pub data Reaches (s : Heap) : Heap → List Block → Type 0 where
  begin : Reaches s s []
  after :
      {t u : Heap} {live live' : List Block}
      → Reaches s t live
      → Step t live u live'
      → Reaches s u live'

pub total-append : (xs ys : List Block) → total (xs ++ ys) ≡ total xs + total ys
total-append [] ys = omega arith
total-append (b ∷ xs) ys = omega (arith, total-append xs ys)

pub kmalloc-granted :
    (mapped n : ℕ) (s : Heap)
    → (s.heap_start == 0) ≡ false
    → s.free_ptr + 64 + n < 2 ^ 64
    → s.bytes_allocated + n ≤ heap_bytes
    → (kmalloc mapped n s).1 ≡ record s {
      free_ptr = s.free_ptr + 32 + n;
      bytes_allocated = s.bytes_allocated + n;
      memory = linked s.free_ptr n s.memory;
    }
unfolding kmalloc
kmalloc-granted mapped n s on h k =
    let sum : u64 (s.bytes_allocated + n) ≡ s.bytes_allocated + n = omega arith in
    let next : u64 (s.free_ptr + (32 + n)) ≡ s.free_ptr + 32 + n = omega arith in
    let fits : ltb heap_bytes (s.bytes_allocated + n) ≡ false = ground arith in
    rw (kmalloc, on, sum, next, fits, link_header-linked s.free_ptr n s.memory h) refl

pub kmalloc-refused :
    (mapped n : ℕ) (s : Heap)
    → (s.heap_start == 0) ≡ false
    → s.bytes_allocated + n < 2 ^ 64
    → heap_bytes < s.bytes_allocated + n
    → (kmalloc mapped n s).1 ≡ s
unfolding kmalloc
kmalloc-refused mapped n s on h k =
    let sum : u64 (s.bytes_allocated + n) ≡ s.bytes_allocated + n = omega arith in
    let over : ltb heap_bytes (s.bytes_allocated + n) ≡ true = ground arith in
    rw (kmalloc, on, sum, over) refl

-- `kfree` of a block in the midst of the list.
pub kfree-unlinked :
    (b : Block) (s : Heap) (prev next : ℕ)
    → Between s.memory prev next b
    → prev + 32 ≤ b.at
    → b.at + 32 + b.size ≤ next
    → next + 32 ≤ 2 ^ 64
    → kfree (b.at + 32) s ≡ record s {
      memory = unlinked prev next s.memory;
      bytes_allocated = sub64 s.bytes_allocated b.size;
    }
unfolding kfree
kfree-unlinked b s prev next here below above top =
    let m = s.memory in
    let m₁ = if prev == 0 then m else store_word 8 (prev + 16) next m in
    let hdr : sub64 (b.at + 32) 32 ≡ b.at = omega arith in
    let kept : (a : ℕ) → b.at ≤ a → m₁ a ≡ m a =
      λ a l. ground (arith, store_word-outside 8 (prev + 16) next m a) in
    let next₁ : load 8 m₁ (b.at + 16) ≡ next =
      load-ext 8 m m₁ (b.at + 16) (λ a l u. kept a (omega arith)) ∙ here.next_link in
    let prev₁ : load 8 m₁ (b.at + 24) ≡ prev =
      load-ext 8 m m₁ (b.at + 24) (λ a l u. kept a (omega arith)) ∙ here.prev_link in
    let some_next : next == 0 ≡ false = ground arith in
    let size : load 8 (unlinked prev next m) (b.at + 8) ≡ b.size =
      load-store_word_apart 8 8 (b.at + 8) (next + 24) prev m₁ (inl (omega arith))
      ∙ load-ext 8 m m₁ (b.at + 8) (λ a l u. kept a (omega arith))
      ∙ here.size in
    rw (kfree, hdr, here.next_link, here.prev_link, next₁, some_next, prev₁, size) refl

pub alloc-IsHeap :
    (mapped n : ℕ) (s : Heap) (live : List Block)
    → s.free_ptr + 64 + n < 2 ^ 64
    → s.bytes_allocated + n ≤ heap_bytes
    → IsHeap s live
    → IsHeap ((kmalloc mapped n s).1) (live ++ record { at = s.free_ptr; size = n } ∷ [])
alloc-IsHeap mapped n s live h k v =
    let sizes = total-append live (record { at = s.free_ptr; size = n } ∷ []) in
    rw (kmalloc-granted mapped n s (ground (arith, v.start)) h k) (record {
      chain = Chain-append s.memory 0 s.heap_start live s.free_ptr n h v.chain;
      start = v.start;
      top = omega arith;
      counted = omega (arith, sizes, v.counted);
      bounded = omega (arith, sizes, v.counted);
    })

pub free-IsHeap :
    (xs ys : List Block) (b : Block) (s : Heap)
    → IsHeap s (xs ++ b ∷ ys)
    → IsHeap (kfree (b.at + 32) s) (xs ++ ys)
free-IsHeap xs ys b s v =
    let (at, above, behind, before) =
      Chain-at xs ys b s.memory 0 s.heap_start s.free_ptr v.chain v.start in
    let end = Chain-first-le xs ys b s.memory 0 s.heap_start s.free_ptr v.chain in
    let relinked =
      unlinked-Relinked (last xs 0) (first ys s.free_ptr) s.memory (omega arith)
        (omega (arith, end)) in
    let sizes = total-append xs (b ∷ ys) in
    let rest = total-append xs ys in
    rw (kfree-unlinked b s (last xs 0) (first ys s.free_ptr) at behind before (omega (arith, end)))
      (record {
        chain = Chain-remove xs ys b s.memory _ 0 s.heap_start s.free_ptr v.chain v.start relinked;
        start = v.start;
        top = v.top;
        counted = omega (arith, sizes, rest, v.counted, v.bounded);
        bounded = omega (arith, sizes, rest, v.bounded);
      })

pub write-IsHeap :
    (xs ys : List Block) (b : Block) (m : Memory) (s : Heap)
    → Within b s.memory m
    → IsHeap s (xs ++ b ∷ ys)
    → IsHeap (record s { memory = m }) (xs ++ b ∷ ys)
write-IsHeap xs ys b m s same v = record {
  chain =
      Chain-ext s.memory m 0 s.heap_start (xs ++ b ∷ ys) s.free_ptr
        (λ a h. same a (InHeader-outside xs ys b s.memory 0 s.heap_start a s.free_ptr v.chain h))
        v.chain;
  start = v.start;
  top = v.top;
  counted = v.counted;
  bounded = v.bounded;
}

Step-IsHeap :
    {s s' : Heap} {live live' : List Block} → Step s live s' live' → IsHeap s live → IsHeap s' live'
Step-IsHeap (Step.alloc mapped n s live h k) v = alloc-IsHeap mapped n s live h k v
Step-IsHeap (Step.refuse mapped n s live h k) v =
    subst (λ (t : Heap). IsHeap t live)
      (sym (kmalloc-refused mapped n s (ground (arith, v.start)) h k)) v
Step-IsHeap (Step.free xs ys b s live e) v =
    free-IsHeap xs ys b s (subst (λ (bs : List Block). IsHeap s bs) e v)
Step-IsHeap (Step.write xs ys b m s live e same) v =
    subst (λ (bs : List Block). IsHeap (record s { memory = m }) bs) (sym e)
      (write-IsHeap xs ys b m s same (subst (λ (bs : List Block). IsHeap s bs) e v))

-- After every history of calls of kmalloc below the top of memory, of kfree for live blocks, and of
-- writes by the owners of blocks, on a started heap whose first link back is 0: the headers of the
-- live blocks are linked both ways in the order of their addresses, no two blocks meet, and
-- `bytes_allocated` is the sum of their sizes, at most ten pages.
pub Reaches-IsHeap :
    {s s' : Heap} {live : List Block} → IsHeap s [] → Reaches s s' live → IsHeap s' live
Reaches-IsHeap v Reaches.begin = v
Reaches-IsHeap v (Reaches.after r step) = Step-IsHeap step (Reaches-IsHeap v r)
