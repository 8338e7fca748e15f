-- ===== src/Vector/Stack.antt =====
-- A vector whose elements are pushed and popped is a stack.
use native.Mathlib.Nat.{mul-add}
use mksd_old_archive.Base.{
  ℕ, ◌+◌, ◌-◌, ◌*◌, ◌^◌, ◌≤◌, ◌<◌, ◌≡◌, inl, refl, ap, sym, ◌∙◌, arith, ◌⊎◌, List, [], ◌∷◌, ◌++◌,
  length, length-append, some, true, false, ltb, ◌==◌, load, store_word, store_word-outside,
  load-store_word, u64,
}
use mksd_old_archive.Mm.Heap.{Heap, heap_bytes, krealloc}
use mksd_old_archive.Mm.Heap.Chain.{Block}
use mksd_old_archive.Mm.Heap.History.{IsHeap, write-IsHeap}
use mksd_old_archive.Mm.Heap.Kept.{InBlock}
use mksd_old_archive.Mm.Heap.Resize.{InBlock-other, new_block, krealloc-Moved}
use mksd_old_archive.Vector.{Vector, slot, append, resize, start, vector_push, vector_pop}
use mksd_old_archive.Vector.Elements.{
  span, span-length, span-append, Stand, Stand-shift, Stand-append, Stand-init,
}

-- The elements `es` of a vector in the block `b` of a heap, with room for one more.
pub record IsVector (size : ℕ) (v : Vector) (s : Heap) (xs ys : List Block) (b : Block)
    (es : List ℕ) : Type 0 where
  pub heap : IsHeap s (xs ++ b ∷ ys)
  pub at : v.elements ≡ b.at + 32
  pub count : v.len ≡ length es
  pub room : span size es + size ≤ b.size
  pub stand : Stand size s.memory (b.at + 32) es
  pub top : b.at + 32 + b.size < 2 ^ 64

-- A heap that grants `n` bytes.
pub record Grants (n : ℕ) (s : Heap) : Type 0 where
  pub below : s.free_ptr + 64 + n < 2 ^ 64
  pub within : s.bytes_allocated + n ≤ heap_bytes

-- A vector with the elements `es` in a new block of `n` bytes, in a heap that was `s` before, and the
-- other blocks as they were.
pub record Next (size n : ℕ) (others : List Block) (es : List ℕ) (s : Heap) (v' : Vector)
    (s' : Heap) : Type 0 where
  pub vector : IsVector size v' s' others [] (new_block n s) es
  pub kept : (a : ℕ) → InBlock a others → s'.memory a ≡ s.memory a
  pub behind : s'.free_ptr ≡ s.free_ptr + 32 + n

-- `resize` of a vector whose elements fit.
resize-IsVector :
    (mapped size n : ℕ) (v : Vector) (s : Heap) (xs ys : List Block) (b : Block) (es : List ℕ)
    → IsHeap s (xs ++ b ∷ ys)
    → v.elements ≡ b.at + 32
    → v.len ≡ length es
    → Stand size s.memory (b.at + 32) es
    → span size es ≤ b.size
    → span size es + size ≤ size * n
    → Grants (size * n) s
    → let out = resize mapped size n v s in Next size (size * n) (xs ++ ys) es s (out.0) (out.1)
resize-IsVector mapped size n v s xs ys b es heap at count stand fits more grants =
    let n' : u64 (size * n) ≡ size * n = omega (arith, grants.below) in
    let moved = krealloc-Moved mapped (size * n) xs ys b s heap grants.below grants.within in
    rw (n', at)
      (record {
        vector = record {
          heap = moved.heap;
          at = moved.at;
          count = count;
          room = more;
          stand =
              Stand-shift size s.memory ((krealloc mapped (b.at + 32) (size * n) s).1).memory
                (b.at + 32) (s.free_ptr + 32) es (λ i l. moved.same i (omega arith) (omega arith))
                stand;
          top = omega (arith, grants.below);
        };
        kept = moved.kept;
        behind = moved.behind;
      })

length-le_span : (size : ℕ) (es : List ℕ) → 0 < size → length es ≤ span size es
length-le_span size [] pos = omega arith
length-le_span size (e ∷ es) pos = omega (arith, length-le_span size es pos)

-- The place of the next element.
slot-next :
    (size : ℕ) (v : Vector) (s : Heap) (xs ys : List Block) (b : Block) (es : List ℕ)
    → IsVector size v s xs ys b es
    → slot size v v.len ≡ b.at + 32 + span size es
slot-next size v s xs ys b es h =
    rw (h.count, h.at) (omega (arith, span-length size es, h.room, h.top))

-- A vector in the midst of a push, after `elements[len++] = e`.
record Appended (size : ℕ) (v : Vector) (s : Heap) (xs ys : List Block) (b : Block) (es : List ℕ)
    (s₀ : Heap) : Type 0 where
  heap : IsHeap s (xs ++ b ∷ ys)
  count : v.len ≡ length es
  stand : Stand size s.memory (b.at + 32) es
  kept : (a : ℕ) → InBlock a (xs ++ ys) → s.memory a ≡ s₀.memory a

append-Appended :
    (size e : ℕ) (v : Vector) (s : Heap) (xs ys : List Block) (b : Block) (es : List ℕ)
    → 0 < size
    → e < 256 ^ size
    → IsVector size v s xs ys b es
    → let out = append size e v s in Appended size (out.0) (out.1) xs ys b (es ++ e ∷ []) s
append-Appended size e v s xs ys b es pos small h =
    let at = slot-next size v s xs ys b es h in
    let m' = store_word size (slot size v v.len) e s.memory in
    let len = length-le_span size es pos in
    let apart : (a : ℕ)
        → (a < b.at + 32 + span size es) ⊎ (b.at + 32 + b.size ≤ a)
        → m' a ≡ s.memory a =
      λ a o.
        store_word-outside size (slot size v v.len) e s.memory a (omega (arith, at, h.room, o)) in
    record {
      heap = write-IsHeap xs ys b m' s (λ a o. apart a (omega arith)) h.heap;
      count = omega (arith, len, h.count, h.room, h.top, length-append es (e ∷ []));
      stand =
          Stand-append size m' (b.at + 32) e es
            (Stand-shift size s.memory m' (b.at + 32) (b.at + 32) es
              (λ i l. apart (b.at + 32 + i) (inl (omega arith))) h.stand)
            (ap (load size m') (sym at)
              ∙ load-store_word size (slot size v v.len) e s.memory small);
      kept = λ a byte. apart a (
          omega
            (arith, InBlock-other xs ys b s.memory 0 s.heap_start a s.free_ptr h.heap.chain byte));
    }

-- A push with the block there.
pub append-resize :
    (mapped size e : ℕ) (v : Vector) (s : Heap) (xs ys : List Block) (b : Block) (es : List ℕ)
    → 0 < size
    → e < 256 ^ size
    → IsVector size v s xs ys b es
    → Grants (size * (length es + 3)) s
    → let (v₁, s₁) = append size e v s in
      let out = resize mapped size (u64 (v₁.len + 2)) v₁ s₁ in
      Next size (size * (length es + 3)) (xs ++ ys) (es ++ e ∷ []) s (out.0) (out.1)
append-resize mapped size e v s xs ys b es pos small h grants =
    let v₁ = (append size e v s).0 in
    let s₁ = (append size e v s).1 in
    let now = append-Appended size e v s xs ys b es pos small h in
    let bytes = span-append size e es in
    let product : size * (length es + 3) ≡ size * length es + size * 3 =
      mul-add size (length es) 3 in
    let whole = span-length size es in
    let len = length-le_span size es pos in
    let next : u64 (v₁.len + 2) ≡ length es + 3 =
      omega (arith, now.count, length-append es (e ∷ []), product, whole, len, grants.below) in
    let after =
      resize-IsVector mapped size (length es + 3) v₁ s₁ xs ys b (es ++ e ∷ []) now.heap h.at
        now.count now.stand (omega (arith, bytes, h.room)) (omega (arith, bytes, product, whole))
        (record { below = grants.below; within = grants.within }) in
    rw next (record {
      vector = after.vector;
      kept = λ a byte. after.kept a byte ∙ now.kept a byte;
      behind = after.behind;
    })

start-started :
    (mapped size : ℕ) (v : Vector) (s : Heap) (p : ℕ)
    → v.elements ≡ p + 32
    → start mapped size v s ≡ (v, s)
unfolding start
start-started mapped size v s p at =
    let there : v.elements == 0 ≡ false = ground arith in rw (start, there) refl

-- `VECTOR_PUSH` puts the element behind the others of a vector, and writes to no other block.
pub vector_push-IsVector :
    (mapped size e : ℕ) (v : Vector) (s : Heap) (xs ys : List Block) (b : Block) (es : List ℕ)
    → 0 < size
    → e < 256 ^ size
    → IsVector size v s xs ys b es
    → Grants (size * (length es + 3)) s
    → let out = vector_push mapped size e v s in
      Next size (size * (length es + 3)) (xs ++ ys) (es ++ e ∷ []) s (out.0) (out.1)
unfolding vector_push
vector_push-IsVector mapped size e v s xs ys b es pos small h grants =
    rw (vector_push, start-started mapped size v s b.at h.at)
      (append-resize mapped size e v s xs ys b es pos small h grants)

-- `VECTOR_POP` of a vector with the elements `es` and `e` behind them.
pub vector_pop-IsVector :
    (mapped size e : ℕ) (v : Vector) (s : Heap) (xs ys : List Block) (b : Block) (es : List ℕ)
    → 0 < size
    → IsVector size v s xs ys b (es ++ e ∷ [])
    → Grants (size * (length es + 1)) s
    → let out = vector_pop mapped size v s in
      (out.0 ≡ some e) × Next size (size * (length es + 1)) (xs ++ ys) es s (out.1) (out.2)
unfolding vector_pop
vector_pop-IsVector mapped size e v s xs ys b es pos h grants =
    let bytes = span-append size e es in
    let product : size * (length es + 1) ≡ size * length es + size * 1 =
      mul-add size (length es) 1 in
    let whole = span-length size es in
    let len = length-le_span size es pos in
    let count : v.len ≡ length es + 1 = omega (arith, h.count, length-append es (e ∷ [])) in
    let less : v.len - 1 ≡ length es = omega arith in
    let more : ltb 0 v.len ≡ true = ground arith in
    let next : u64 (v.len - 1 + 1) ≡ length es + 1 =
      omega (arith, product, whole, len, grants.below) in
    let (front, last) = Stand-init size s.memory (b.at + 32) e es h.stand in
    let v₁ : Vector = record v { len = v.len - 1 } in
    let at : slot size v (v.len - 1) ≡ b.at + 32 + span size es =
      rw (less, h.at) (omega (arith, whole, bytes, h.room, h.top)) in
    let after =
      resize-IsVector mapped size (length es + 1) v₁ s xs ys b es h.heap h.at less front
        (omega (arith, bytes, h.room)) (omega (arith, product, whole)) grants in
    rw (vector_pop, more, next) (ap some (ap (load size s.memory) at ∙ last), after)
