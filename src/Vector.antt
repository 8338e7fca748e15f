-- ===== src/Vector.antt =====
-- The macros of sys/include/lib/vector.h, for elements of `size` bytes, which are words, on Mm/Heap.
-- `mapped` is the address that k_mmap returns. Memory is flat, so that an access at NULL is one at 0.
pub mod Elements
pub mod Stack
pub mod Step
pub mod History
pub mod Overrun
mod Tests
use mksd_old_archive.Base.{
  ℕ, zero, suc, ◌+◌, ◌-◌, ◌*◌, ◌/◌, Bool, Option, none, some, ltb, ◌==◌, if◌then◌else◌, u64, sub64,
  Memory, load, store_word,
}
use mksd_old_archive.Mm.Heap.{Heap, kmalloc, kfree, krealloc}

-- `VECTOR_TYPE`
pub record Vector : Type 0 where
  pub len : ℕ
  pub elements : ℕ

-- `VECTOR_INIT`
abbrev pub empty : Vector
empty = record { len = 0; elements = 0 }

-- `&elements[i]`
abbrev pub slot : ℕ → Vector → ℕ → ℕ
slot size v i = u64 (v.elements + size * i)

abbrev pub get : ℕ → Vector → ℕ → Heap → ℕ
get size v i s = load size s.memory (slot size v i)

abbrev pub put : ℕ → Vector → ℕ → ℕ → Heap → Heap
put size v i element s = record s { memory = store_word size (slot size v i) element s.memory }

-- `elements = krealloc(elements, sizeof(*elements) * n)`
abbrev pub resize : ℕ → ℕ → ℕ → Vector → Heap → Vector × Heap
resize mapped size n v s =
    let (elements, s') = krealloc mapped v.elements (u64 (size * n)) s in
    (record v { elements = elements }, s')

-- `elements = kmalloc(sizeof(*elements) * n)`
abbrev pub allocate : ℕ → ℕ → ℕ → Vector → Heap → Vector × Heap
allocate mapped size n v s =
    let (elements, s') = kmalloc mapped (u64 (size * n)) s in (record v { elements = elements }, s')

-- `VECTOR_TOP`
abbrev pub vector_top : ℕ → Vector → Heap → ℕ
vector_top size v s = get size v (sub64 v.len 1) s

-- `VECTOR_IS_EMPTY`
abbrev pub vector_is_empty : Vector → Bool
vector_is_empty v = v.len == 0

-- `VECTOR_ELEMENT_COUNT`
abbrev pub vector_element_count : Vector → ℕ
vector_element_count v = v.len

-- The block that `VECTOR_PUSH` starts with.
unfoldable pub start : ℕ → ℕ → Vector → Heap → Vector × Heap
start mapped size v s =
    let (fresh, s') = allocate mapped size 1 v s in
    if v.elements == 0 then (record fresh { len = 0 }, s') else (v, s)

-- `elements[len++] = element`
abbrev pub append : ℕ → ℕ → Vector → Heap → Vector × Heap
append size element v s = (record v { len = u64 (v.len + 1) }, put size v v.len element s)

-- `VECTOR_PUSH`
unfoldable pub vector_push : ℕ → ℕ → ℕ → Vector → Heap → Vector × Heap
vector_push mapped size element v s =
    let (v₁, s₁) = start mapped size v s in
    let (v₂, s₂) = append size element v₁ s₁ in resize mapped size (u64 (v₂.len + 2)) v₂ s₂

-- `VECTOR_INSERT_AT`
unfoldable pub vector_insert_at : ℕ → ℕ → ℕ → ℕ → Vector → Heap → Vector × Heap
vector_insert_at mapped size element idx v s =
    let (v₁, s₁) =
      if v.elements == 0
      then allocate mapped size (u64 (idx + 1)) v s
      else resize mapped size (u64 (idx + 1)) v s in
    let (v₂, s₂) = append size element (record v₁ { len = idx }) s₁ in
    resize mapped size (u64 (idx + 2)) v₂ s₂

-- `VECTOR_POP`; none leaves `*out_ptr` as it is.
unfoldable pub vector_pop : ℕ → ℕ → Vector → Heap → Option ℕ × Vector × Heap
vector_pop mapped size v s =
    let len = v.len - 1 in
    let (v₁, s₁) = resize mapped size (u64 (len + 1)) (record v { len = len }) s in
    if ltb 0 v.len then (some (get size v len s), v₁, s₁) else (none, v, s)

-- The loop of `VECTOR_POP_AT` from element `i` with `n` rounds left.
unfoldable pub shift_from : ℕ → ℕ → Vector → ℕ → Heap → Heap
shift_from zero size v i s = s
shift_from (suc n) size v i s = shift_from n size v (i + 2) (put size v i (get size v (i + 1) s) s)

-- `VECTOR_POP_AT`: a round for each second element from `idx` on; `i` does not wrap around.
unfoldable pub vector_pop_at : ℕ → ℕ → ℕ → Vector → Heap → ℕ × Vector × Heap
vector_pop_at mapped size idx v s =
    let s₁ = shift_from ((v.len - idx + 1) / 2) size v idx s in
    let len = sub64 v.len 1 in
    let (v₂, s₂) = resize mapped size len (record v { len = len }) s₁ in (get size v idx s, v₂, s₂)

-- `VECTOR_READ_AT`; none leaves `*out_ptr` as it is.
unfoldable pub vector_read_at : ℕ → ℕ → Vector → Heap → Option ℕ
vector_read_at size idx v s = if v.elements == 0 then none else some (get size v idx s)

-- `VECTOR_DESTROY`
unfoldable pub vector_destroy : Vector → Heap → Vector × Heap
vector_destroy v s = (record { len = 0; elements = 0 }, kfree v.elements s)
