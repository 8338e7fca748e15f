-- ===== src/Mm/Heap/Tests.antt =====
-- A heap that has been started, and the theorem on heap.c applied there.
use mksd_old_archive.Base.{load, ◌*◌, inl, inr, [], ◌∷◌, ◌+◌, ◌<◌, ◌≤◌, ◌≡◌, ◌⊎◌, refl, arith}
use mksd_old_archive.Mm.Heap.{Heap, heap_bytes, kmalloc, kfree, krealloc}
use mksd_old_archive.Mm.Heap.Chain.{Block}
use mksd_old_archive.Mm.Heap.History.{IsHeap, Step, Reaches, Reaches-IsHeap}
use mksd_old_archive.Mm.Heap.Kept.{Owns, Step-Kept, empty_blocks, kmalloc-overrun}
use mksd_old_archive.Mm.Heap.Resize.{Moved, krealloc-Moved}

abbrev heap : Heap
heap = record { heap_start = 0x1000; free_ptr = 0x1000; bytes_allocated = 0; memory = λ a. 0 }

heap-IsHeap : IsHeap heap []
unfolding load
heap-IsHeap = omega arith

-- Two blocks are allocated, and the first is given back.
abbrev block : Block
block = record { at = 0x1000; size = 21 }

abbrev second : Block
second = record { at = 0x1035; size = 8 }

abbrev one_block : Heap
one_block = (kmalloc 0 21 heap).1

abbrev two_blocks : Heap
two_blocks = (kmalloc 0 8 one_block).1

allocated : Reaches heap one_block (block ∷ [])
allocated = Reaches.after Reaches.begin (Step.alloc 0 21 heap [] (omega arith) (omega arith))

allocated_second : Step one_block (block ∷ []) two_blocks (block ∷ second ∷ [])
unfolding kmalloc
allocated_second = Step.alloc 0 8 one_block (block ∷ []) (omega arith) (omega arith)

freed : Step two_blocks (block ∷ second ∷ []) (kfree (block.at + 32) two_blocks) (second ∷ [])
freed = Step.free [] (second ∷ []) block two_blocks (block ∷ second ∷ []) refl

Reaches-IsHeap_example : IsHeap (kfree (block.at + 32) two_blocks) (second ∷ [])
Reaches-IsHeap_example =
    Reaches-IsHeap heap-IsHeap (Reaches.after (Reaches.after allocated allocated_second) freed)

Step-Kept_example :
    Owns freed 0x1056
    ⊎ ((kfree (block.at + 32) two_blocks).memory 0x1056 ≡ two_blocks.memory 0x1056)
Step-Kept_example =
    Step-Kept freed (Reaches-IsHeap heap-IsHeap (Reaches.after allocated allocated_second)) 0x1056
      (inr (inl (omega arith, omega arith)))

kmalloc-overrun_example :
    ((kmalloc 0 0 (empty_blocks 0 1280 heap)).0 ≡ 0x1000 + 32 * 1280 + 32)
    × (1280 ≤ 1280 → 0x1000 + heap_bytes < (kmalloc 0 0 (empty_blocks 0 1280 heap)).0)
kmalloc-overrun_example = kmalloc-overrun 0 1280 heap (omega arith) refl (omega arith) (omega arith)

krealloc-Moved_example :
    Moved block 30 (second ∷ []) two_blocks (krealloc 0 (block.at + 32) 30 two_blocks)
unfolding kmalloc
krealloc-Moved_example =
    krealloc-Moved 0 30 [] (second ∷ []) block two_blocks
      (Reaches-IsHeap heap-IsHeap (Reaches.after allocated allocated_second)) (omega arith)
      (omega arith)
