-- ===== src/Vector/Step.antt =====
-- One push or pop, on a vector that may have no block yet.
use native.Mathlib.Nat.{suc-mul}
use mksd_old_archive.Base.{
  ℕ, suc, ◌+◌, ◌*◌, ◌^◌, ◌≤◌, ◌<◌, ◌≡◌, refl, ap, sym, subst, ◌∙◌, arith, List, [], ◌∷◌, ◌++◌,
  append-nil, length, some, none, true, false, ltb, ◌==◌, u64,
}
use mksd_old_archive.Mm.Heap.{Heap, heap_bytes}
use mksd_old_archive.Mm.Heap.Chain.{Block, total}
use mksd_old_archive.Mm.Heap.History.{IsHeap, alloc-IsHeap, total-append, kmalloc-granted}
use mksd_old_archive.Mm.Heap.Kept.{InBlock, kmalloc-Kept}
use mksd_old_archive.Mm.Heap.Resize.{new_block, kmalloc-at}
use mksd_old_archive.Vector.{Vector, start, vector_push, vector_pop}
use mksd_old_archive.Vector.Stack.{
  IsVector, Grants, Next, append-resize, vector_push-IsVector, vector_pop-IsVector,
}

-- A vector in a block of at most `most` bytes, among other blocks, or one that has no block yet.
pub data IsStack (size most : ℕ) (others : List Block) (v : Vector) (s : Heap) (es : List ℕ)
    : Type 0 where
  fresh : v.elements ≡ 0 → v.len ≡ 0 → es ≡ [] → IsHeap s others → IsStack size most others v s es
  held :
      (xs ys : List Block) (b : Block)
      → xs ++ ys ≡ others
      → b.size ≤ most
      → IsVector size v s xs ys b es
      → IsStack size most others v s es

-- Room for `n` operations with blocks of at most `most` bytes each.
pub record Room (most : ℕ) (others : List Block) (n : ℕ) (s : Heap) : Type 0 where
  pub below : s.free_ptr + n * (64 + 2 * most) + 64 < 2 ^ 64
  pub within : total others + 2 * most ≤ heap_bytes

Room-Grants :
    (most k n : ℕ) (others xs ys : List Block) (b : Block) (s : Heap)
    → xs ++ ys ≡ others
    → b.size ≤ most
    → k ≤ most
    → IsHeap s (xs ++ b ∷ ys)
    → Room most others (suc n) s
    → Grants k s
Room-Grants most k n others xs ys b s e small l heap room =
    let all = total-append xs (b ∷ ys) in
    let rest = ap total (sym e) ∙ total-append xs ys in
    let product = suc-mul n (64 + 2 * most) in
    record {
      below = omega (arith, room.below, product);
      within = omega (arith, room.within, heap.counted, all, rest);
    }

-- After one of the operations from `s`, with `n` left.
pub record After (size most n : ℕ) (others : List Block) (es : List ℕ) (s : Heap) (v' : Vector)
    (s' : Heap) : Type 0 where
  pub stack : IsStack size most others v' s' es
  pub room : Room most others n s'
  pub kept : (a : ℕ) → InBlock a others → s'.memory a ≡ s.memory a

Next-After :
    (size k most n : ℕ) (others : List Block) (es : List ℕ) (s s' : Heap) (v' : Vector)
    → k ≤ most
    → Room most others (suc n) s
    → Next size k others es s v' s'
    → After size most n others es s v' s'
Next-After size k most n others es s s' v' l room next = record {
  stack = IsStack.held others [] (new_block k s) (append-nil others) l next.vector;
  room = record {
    below = omega (arith, room.below, next.behind, suc-mul n (64 + 2 * most));
    within = room.within;
  };
  kept = next.kept;
}

-- The first block of a vector.
start-Next :
    (mapped size : ℕ) (v : Vector) (s : Heap) (others : List Block)
    → v.elements ≡ 0
    → IsHeap s others
    → Grants size s
    → let out = start mapped size v s in Next size size others [] s (out.0) (out.1)
unfolding start
start-Next mapped size v s others null heap grants =
    let none_yet : v.elements == 0 ≡ true = ground arith in
    let bytes : u64 (size * 1) ≡ size = omega (arith, grants.below) in
    rw (start, none_yet, bytes)
      (record {
        vector = record {
          heap = alloc-IsHeap mapped size s others grants.below grants.within heap;
          at = kmalloc-at mapped size s heap.start grants.below grants.within;
          count = refl;
          room = omega arith;
          stand = tt;
          top = omega (arith, grants.below);
        };
        kept = λ a byte. kmalloc-Kept mapped size s others a grants.below grants.within heap byte;
        behind =
            ap (λ (t : Heap). t.free_ptr)
              (kmalloc-granted mapped size s (ground (arith, heap.start)) grants.below
                grants.within);
      })

push-After_fresh :
    (mapped size most n e : ℕ) (others : List Block) (v : Vector) (s : Heap)
    → 0 < size
    → e < 256 ^ size
    → v.elements ≡ 0
    → IsHeap s others
    → size * 3 ≤ most
    → Room most others (suc n) s
    → let out = vector_push mapped size e v s in After size most n others (e ∷ []) s (out.0) (out.1)
unfolding vector_push
push-After_fresh mapped size most n e others v s pos small null heap l room =
    let product = suc-mul n (64 + 2 * most) in
    let v₁ = (start mapped size v s).0 in
    let s₁ = (start mapped size v s).1 in
    let first : Next size size others [] s v₁ s₁ =
      start-Next mapped size v s others null heap (record {
        below = omega (arith, room.below, product);
        within = omega (arith, room.within, heap.counted);
      }) in
    let all = total-append others (new_block size s ∷ []) in
    let after =
      append-resize mapped size e v₁ s₁ others [] (new_block size s) [] pos small first.vector
        (record {
          below = omega (arith, room.below, product, first.behind);
          within = omega (arith, room.within, first.vector.heap.counted, all);
        }) in
    record {
      stack =
          IsStack.held (others ++ []) [] (new_block (size * 3) s₁)
            (append-nil (others ++ []) ∙ append-nil others) l after.vector;
      room = record {
        below = omega (arith, room.below, product, first.behind, after.behind);
        within = room.within;
      };
      kept = λ a byte.
          after.kept a (subst (InBlock a) (sym (append-nil others)) byte) ∙ first.kept a byte;
    }

pub push-After :
    (mapped size most n e : ℕ) (others : List Block) (v : Vector) (s : Heap) (es : List ℕ)
    → 0 < size
    → e < 256 ^ size
    → size * (length es + 3) ≤ most
    → Room most others (suc n) s
    → IsStack size most others v s es
    → let out = vector_push mapped size e v s in
      After size most n others (es ++ e ∷ []) s (out.0) (out.1)
push-After mapped size most n e others v s es pos small l room (IsStack.fresh null _ nothing heap) =
    let three : size * 3 ≤ most =
      subst (λ (xs : List ℕ). size * (length xs + 3) ≤ most) nothing l in
    subst
      (λ (xs : List ℕ).
        let out = vector_push mapped size e v s in
        After size most n others (xs ++ e ∷ []) s (out.0) (out.1))
      (sym nothing)
      (push-After_fresh mapped size most n e others v s pos small null heap three room)
push-After mapped size most n e others v s es pos small l room (IsStack.held xs ys b same fits h) =
    let out = vector_push mapped size e v s in
    let next =
      vector_push-IsVector mapped size e v s xs ys b es pos small h
        (Room-Grants most (size * (length es + 3)) n others xs ys b s same fits l h.heap room) in
    Next-After size (size * (length es + 3)) most n others (es ++ e ∷ []) s (out.1) (out.0) l room (
      subst
        (λ (bs : List Block).
          Next size (size * (length es + 3)) bs (es ++ e ∷ []) s (out.0) (out.1))
        same next)

pub vector_pop-none :
    (mapped size : ℕ) (v : Vector) (s : Heap)
    → v.len ≡ 0
    → vector_pop mapped size v s ≡ (none, v, s)
unfolding vector_pop
vector_pop-none mapped size v s e =
    let less : ltb 0 v.len ≡ false = ground arith in rw (vector_pop, less) refl

pub pop-After_held :
    (mapped size most n e : ℕ) (others : List Block) (v : Vector) (s : Heap) (es : List ℕ)
    → 0 < size
    → size * (length es + 1) ≤ most
    → Room most others (suc n) s
    → (xs ys : List Block) (b : Block) → xs ++ ys ≡ others
    → b.size ≤ most
    → IsVector size v s xs ys b (es ++ e ∷ [])
    → let out = vector_pop mapped size v s in
      (out.0 ≡ some e) × After size most n others es s (out.1) (out.2)
pop-After_held mapped size most n e others v s es pos l room xs ys b same fits h =
    let out = vector_pop mapped size v s in
    let (popped, next) =
      vector_pop-IsVector mapped size e v s xs ys b es pos h
        (Room-Grants most (size * (length es + 1)) n others xs ys b s same fits l h.heap room) in
    (
      popped,
      Next-After size (size * (length es + 1)) most n others es s (out.2) (out.1) l room (
          subst (λ (bs : List Block). Next size (size * (length es + 1)) bs es s (out.1) (out.2))
            same next),
    )
