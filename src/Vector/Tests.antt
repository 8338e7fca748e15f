-- ===== src/Vector/Tests.antt =====
-- Vectors on a heap that has been started, and the theorems on vector.h applied there.
use mksd_old_archive.Base.{ℕ, ◌≡◌, refl, arith, List, [], ◌∷◌, some, none, load}
use mksd_old_archive.Mm.Heap.{Heap}
use mksd_old_archive.Mm.Heap.Kept.{InBlock}
use mksd_old_archive.Mm.Heap.History.{IsHeap}
use mksd_old_archive.Vector.{Vector, empty, slot, append, vector_pop_at}
use mksd_old_archive.Vector.Step.{IsStack}
use mksd_old_archive.Vector.History.{Op, run, stack_run, run-stack_run}
use mksd_old_archive.Vector.Overrun.{vector_pop_at-overrun}

abbrev heap : Heap
heap = record { heap_start = 0x1000; free_ptr = 0x1000; bytes_allocated = 0; memory = λ a. 0 }

heap-IsHeap : IsHeap heap []
unfolding load
heap-IsHeap = omega arith

abbrev ops : List Op
ops = Op.push 7 ∷ Op.push 9 ∷ Op.pop ∷ Op.pop ∷ Op.pop ∷ []

popped : (stack_run ops []).0 ≡ some 9 ∷ some 7 ∷ none ∷ []
unfolding stack_run
popped = refl

run-stack_run_example :
    let out = run 0 4 ops empty heap in
    (out.0 ≡ (stack_run ops []).0)
    × IsStack 4 28 [] (out.1) (out.2) (stack_run ops []).1
    × ((a : ℕ) → InBlock a [] → (out.2).memory a ≡ heap.memory a)
run-stack_run_example =
    run-stack_run 0 4 28 [] ops empty heap [] (omega arith) (omega arith) (omega arith)
      (record { below = omega arith; within = omega arith })
      (IsStack.fresh refl refl refl heap-IsHeap)

abbrev three : Vector
three = record { len = 3; elements = 0x1020 }

vector_pop_at-overrun_example :
    let (x, v', s') = vector_pop_at 0 4 0 three heap in
    (slot 4 v' v'.len ≡ s'.free_ptr) × (load 4 ((append 4 99 v' s').1).memory s'.free_ptr ≡ 99)
vector_pop_at-overrun_example =
    vector_pop_at-overrun 0 4 0 99 three heap (omega arith) (omega arith) (omega arith)
      (record { below = omega arith; within = omega arith }) (omega arith)
