-- ===== src/Vector/History.antt =====
-- Histories of pushes and pops.
use native.Mathlib.Nat.{mul-le-mul_left, suc-mul}
use mksd_old_archive.Base.{
  ℕ, suc, ◌+◌, ◌*◌, ◌^◌, ◌≤◌, ◌<◌, ◌≡◌, ◌⊎◌, inl, inr, refl, ap, ap₂, sym, subst, ◌∙◌, arith, List,
  [], ◌∷◌, ◌++◌, length, length-append, Option, some, none,
}
use mksd_old_archive.Mm.Heap.{Heap}
use mksd_old_archive.Mm.Heap.Chain.{Block}
use mksd_old_archive.Mm.Heap.Kept.{InBlock}
use mksd_old_archive.Vector.{Vector, vector_push, vector_pop}
use mksd_old_archive.Vector.Stack.{IsVector}
use mksd_old_archive.Vector.Step.{IsStack, Room, After, push-After, vector_pop-none, pop-After_held}

pub data Op : Type 0 where
  push : (e : ℕ) → Op
  pop : Op

-- What the pops give, and the state at the end.
unfoldable pub run : ℕ → ℕ → List Op → Vector → Heap → List (Option ℕ) × Vector × Heap
run mapped size [] v s = ([], v, s)
run mapped size (Op.push e ∷ ops) v s =
    let (v₁, s₁) = vector_push mapped size e v s in run mapped size ops v₁ s₁
run mapped size (Op.pop ∷ ops) v s =
    let (out, v₁, s₁) = vector_pop mapped size v s in
    let (outs, v₂, s₂) = run mapped size ops v₁ s₁ in (out ∷ outs, v₂, s₂)

-- The elements without the last, and the last.
abbrev pub split_last : List ℕ → Option ℕ × List ℕ
split_last [] = (none, [])
split_last (x ∷ []) = (some x, [])
split_last (x ∷ y ∷ xs) = let (last, front) = split_last (y ∷ xs) in (last, x ∷ front)

-- The same on a stack, its top at the end of the list.
unfoldable pub stack_run : List Op → List ℕ → List (Option ℕ) × List ℕ
stack_run [] es = ([], es)
stack_run (Op.push e ∷ ops) es = stack_run ops (es ++ e ∷ [])
stack_run (Op.pop ∷ ops) es =
    let (out, front) = split_last es in let (outs, es') = stack_run ops front in (out ∷ outs, es')

split_last-append : (xs : List ℕ) (x : ℕ) → split_last (xs ++ x ∷ []) ≡ (some x, xs)
split_last-append [] x = refl
split_last-append (y ∷ []) x = refl
split_last-append (y ∷ z ∷ xs) x = rw (split_last-append (z ∷ xs) x) refl

-- A list is empty, or it has a last element.
last-cases : (es : List ℕ) → (es ≡ []) ⊎ ((xs : List ℕ) × (x : ℕ) × (es ≡ xs ++ x ∷ []))
last-cases [] = inl refl
last-cases (e ∷ es) = inr (elim (last-cases es) [
  | inl nothing ↦ ([], e, ap (λ (xs : List ℕ). e ∷ xs) nothing)
  | inr (xs, x, more) ↦ (e ∷ xs, x, ap (λ (l : List ℕ). e ∷ l) more)
])

length-split_last : (es : List ℕ) → length (split_last es).1 ≤ length es
length-split_last [] = omega arith
length-split_last (x ∷ []) = omega arith
length-split_last (x ∷ y ∷ xs) = omega (arith, length-split_last (y ∷ xs))

fewer : (size a b most : ℕ) → a ≤ b → size * b ≤ most → size * a ≤ most
fewer size a b most l h = omega (arith, mul-le-mul_left size l)

Room-fewer :
    (most n : ℕ) (others : List Block) (s : Heap)
    → Room most others (suc n) s
    → Room most others n s
Room-fewer most n others s room = record {
  below = omega (arith, room.below, suc-mul n (64 + 2 * most));
  within = room.within;
}

-- What a pop comes to.
abbrev Popped : ℕ → ℕ → ℕ → List Block → List ℕ → Heap → Option ℕ × Vector × Heap → Type 0
Popped size most n others es s (out, v', s') =
    (out ≡ (split_last es).0) × After size most n others (split_last es).1 s v' s'

pop-After_none :
    (mapped size most n : ℕ) (others : List Block) (v : Vector) (s : Heap)
    → v.len ≡ 0
    → Room most others (suc n) s
    → IsStack size most others v s []
    → Popped size most n others [] s (vector_pop mapped size v s)
pop-After_none mapped size most n others v s e room stack =
    subst (Popped size most n others [] s) (sym (vector_pop-none mapped size v s e)) (
      refl,
      record { stack = stack; room = Room-fewer most n others s room; kept = λ a byte. refl },
    )

pop-After :
    (mapped size most n : ℕ) (others : List Block) (v : Vector) (s : Heap) (es : List ℕ)
    → 0 < size
    → size * (length es + 1) ≤ most
    → Room most others (suc n) s
    → IsStack size most others v s es
    → Popped size most n others es s (vector_pop mapped size v s)
pop-After mapped size most n others v s es pos l room (IsStack.fresh null e nothing heap) =
    subst (λ (xs : List ℕ). Popped size most n others xs s (vector_pop mapped size v s))
      (sym nothing)
      (pop-After_none mapped size most n others v s e room (IsStack.fresh null e refl heap))
pop-After mapped size most n others v s es pos l room (IsStack.held xs ys b same fits h) =
    elim (last-cases es) [
      | inl nothing ↦
          subst (λ (xs : List ℕ). Popped size most n others xs s (vector_pop mapped size v s))
            (sym nothing)
            (pop-After_none mapped size most n others v s (h.count ∙ ap length nothing) room (
              IsStack.held xs ys b same fits
                (subst (λ (l : List ℕ). IsVector size v s xs ys b l) nothing h)))
      | inr (front, x, e) ↦
          subst (λ (xs : List ℕ). Popped size most n others xs s (vector_pop mapped size v s))
            (sym e)
            (rw (split_last-append front x) (
              pop-After_held mapped size most n x others v s front pos
                (fewer size (length front + 1) (length es + 1) most
                  (omega (arith, ap length e, length-append front (x ∷ []))) l)
                room xs ys b same fits (subst (λ (l : List ℕ). IsVector size v s xs ys b l) e h)))
    ]

-- Whether every element that is pushed has `size` bytes.
abbrev pub Fit : ℕ → List Op → Type 0
Fit size [] = Unit
Fit size (Op.push e ∷ ops) = (e < 256 ^ size) × Fit size ops
Fit size (Op.pop ∷ ops) = Fit size ops

-- For elements of a size above 0, in a heap with room for the blocks that the operations ask for: any
-- sequence of pushes and pops, from an empty vector or one that has elements, gives what a stack of
-- its elements gives, and leaves a vector with the elements of that stack; a pop of an empty
-- vector gives nothing. No byte of another block changes.
pub run-stack_run :
    (mapped size most : ℕ) (others : List Block) (ops : List Op) (v : Vector) (s : Heap)
    (es : List ℕ)
    → 0 < size
    → Fit size ops
    → size * (length es + length ops + 2) ≤ most
    → Room most others (length ops) s
    → IsStack size most others v s es
    → let out = run mapped size ops v s in
      (out.0 ≡ (stack_run ops es).0)
      × IsStack size most others (out.1) (out.2) (stack_run ops es).1
      × ((a : ℕ) → InBlock a others → (out.2).memory a ≡ s.memory a)
unfolding run stack_run
run-stack_run mapped size most others [] v s es pos fit l room stack = (refl, stack, λ a byte. refl)
run-stack_run mapped size most others (Op.push e ∷ ops) v s es pos (small, fit) l room stack =
    let out = vector_push mapped size e v s in
    let step =
      push-After mapped size most (length ops) e others v s es pos small
        (fewer size (length es + 3) (length es + suc (length ops) + 2) most (omega arith) l) room
        stack in
    let (outs, rest, kept) =
      run-stack_run mapped size most others ops (out.0) (out.1) (es ++ e ∷ []) pos fit
        (fewer size (length (es ++ e ∷ []) + length ops + 2) (length es + suc (length ops) + 2) most
          (omega (arith, length-append es (e ∷ []))) l)
        step.room step.stack in
    (outs, rest, λ a byte. kept a byte ∙ step.kept a byte)
run-stack_run mapped size most others (Op.pop ∷ ops) v s es pos fit l room stack =
    let out = vector_pop mapped size v s in
    let (popped, step) =
      pop-After mapped size most (length ops) others v s es pos
        (fewer size (length es + 1) (length es + suc (length ops) + 2) most (omega arith) l) room
        stack in
    let (outs, rest, kept) =
      run-stack_run mapped size most others ops (out.1) (out.2) (split_last es).1 pos fit
        (fewer size (length (split_last es).1 + length ops + 2) (length es + suc (length ops) + 2)
          most (omega (arith, length-split_last es)) l)
        step.room step.stack in
    (
      ap₂ (λ (x : Option ℕ) (xs : List (Option ℕ)). x ∷ xs) popped outs,
      rest,
      λ a byte. kept a byte ∙ step.kept a byte,
    )
