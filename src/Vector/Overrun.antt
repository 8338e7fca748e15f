-- ===== src/Vector/Overrun.antt =====
-- What VECTOR_POP_AT leaves for the next push.
use mksd_old_archive.Base.{
  ℕ, zero, suc, ◌+◌, ◌-◌, ◌*◌, ◌/◌, ◌^◌, ◌≤◌, ◌<◌, ◌≡◌, refl, ap, sym, ◌∙◌, arith, load, store_word,
  load-store_word, u64, sub64,
}
use mksd_old_archive.Mm.Heap.{Heap, heap_bytes, krealloc}
use mksd_old_archive.Mm.Heap.History.{kmalloc-granted}
use mksd_old_archive.Mm.Heap.Resize.{copied, krealloc-copied, kfree-free_ptr}
use mksd_old_archive.Vector.{Vector, slot, put, get, append, shift_from, vector_pop_at}
use mksd_old_archive.Vector.Stack.{Grants}

-- Two states with the same variables of heap.c.
record Alike (s s' : Heap) : Type 0 where
  start : s'.heap_start ≡ s.heap_start
  free_ptr : s'.free_ptr ≡ s.free_ptr
  allocated : s'.bytes_allocated ≡ s.bytes_allocated

shift_from-Alike : (n size : ℕ) (v : Vector) (i : ℕ) (s : Heap) → Alike s (shift_from n size v i s)
unfolding shift_from
shift_from-Alike zero size v i s = record { start = refl; free_ptr = refl; allocated = refl }
shift_from-Alike (suc n) size v i s =
    let rest = shift_from-Alike n size v (i + 2) (put size v i (get size v (i + 1) s) s) in
    record { start = rest.start; free_ptr = rest.free_ptr; allocated = rest.allocated }

-- `VECTOR_POP_AT` of a vector that is not empty leaves no room in its block: the next element has its
-- place at the free pointer of the heap, and an element that is put there stands over the header.
pub vector_pop_at-overrun :
    (mapped size idx e : ℕ) (v : Vector) (s : Heap)
    → 32 ≤ s.heap_start
    → 0 < v.len
    → v.len < 2 ^ 64
    → Grants (size * (v.len - 1)) s
    → e < 256 ^ size
    → let (x, v', s') = vector_pop_at mapped size idx v s in
      (slot size v' v'.len ≡ s'.free_ptr)
      × (load size ((append size e v' s').1).memory s'.free_ptr ≡ e)
unfolding vector_pop_at
vector_pop_at-overrun mapped size idx e v s start some_left len grants small =
    let s₁ = shift_from ((v.len - idx + 1) / 2) size v idx s in
    let alike = shift_from-Alike ((v.len - idx + 1) / 2) size v idx s in
    let n = size * (v.len - 1) in
    let less : sub64 v.len 1 ≡ v.len - 1 = omega arith in
    let bytes : u64 (size * (v.len - 1)) ≡ n = omega (arith, grants.below) in
    let below : s₁.free_ptr + 64 + n < 2 ^ 64 = omega (arith, alike.free_ptr, grants.below) in
    let within : s₁.bytes_allocated + n ≤ heap_bytes =
      omega (arith, alike.allocated, grants.within) in
    let moved = krealloc-copied mapped v.elements n s₁ (omega (arith, alike.start)) below within in
    let behind : (krealloc mapped v.elements n s₁).1.free_ptr ≡ s₁.free_ptr + 32 + n =
      ap (λ (out : ℕ × Heap). (out.1).free_ptr) moved
      ∙ kfree-free_ptr v.elements (copied mapped v.elements n s₁)
      ∙ ap (λ (t : Heap). t.free_ptr)
          (kmalloc-granted mapped n s₁ (ground (arith, alike.start)) below within) in
    let at : (krealloc mapped v.elements n s₁).0 ≡ s₁.free_ptr + 32 =
      ap (λ (out : ℕ × Heap). out.0) moved in
    let place : u64 ((krealloc mapped v.elements n s₁).0 + n)
        ≡ (krealloc mapped v.elements n s₁).1.free_ptr =
      omega (arith, behind, at, below) in
    rw (less, bytes)
      (
        place,
        ap
              (load size (
                store_word size (u64 ((krealloc mapped v.elements n s₁).0 + n)) e
                  (krealloc mapped v.elements n s₁).1.memory))
              (sym place)
            ∙ load-store_word size (u64 ((krealloc mapped v.elements n s₁).0 + n)) e
                (krealloc mapped v.elements n s₁).1.memory small,
      )
