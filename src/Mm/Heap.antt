-- ===== src/Mm/Heap.antt =====
-- sys/src/mm/heap.c. A header is 32 bytes: magic at 0, msize_bytes at 8, next at 16, prev at 24.
pub mod Blocks
pub mod Chain
pub mod Unlink
pub mod History
pub mod Kept
pub mod Resize
mod Tests
use mksd_old_archive.Base.{
  ℕ, ◌+◌, ◌-◌, ◌*◌, ◌%◌, ◌^◌, Bool, true, false, ltb, ◌==◌, if◌then◌else◌, u64, sub64, Memory, load,
  store_word, memcpy, memzero,
}

pub record Heap : Type 0 where
  pub heap_start : ℕ
  pub free_ptr : ℕ
  pub bytes_allocated : ℕ
  pub memory : Memory

abbrev pub heap_mag : ℕ
heap_mag = 0xCA7F00D

abbrev pub heap_bytes : ℕ
heap_bytes = 10 * 4096

-- `mapped` is the address that k_mmap returns.
unfoldable pub heap_init : ℕ → Heap → Heap
heap_init mapped s = record s { heap_start = mapped; free_ptr = mapped }

abbrev pub started : ℕ → Heap → Heap
started mapped s = if s.heap_start == 0 then heap_init mapped s else s

-- The header of the new block, and the link back to it from the header that follows.
unfoldable pub link_header : ℕ → ℕ → Memory → Memory
link_header free_ptr n_bytes m =
    let next = u64 (free_ptr + (32 + n_bytes)) in
    let m₁ = store_word 8 (free_ptr + 8) n_bytes m in
    let m₂ = store_word 4 free_ptr heap_mag m₁ in
    let m₃ = store_word 8 (free_ptr + 16) next m₂ in store_word 8 (next + 24) free_ptr m₃

unfoldable pub kmalloc : ℕ → ℕ → Heap → ℕ × Heap
kmalloc mapped n_bytes s₀ =
    let s = started mapped s₀ in
    let next = u64 (s.free_ptr + (32 + n_bytes)) in
    if ltb heap_bytes (u64 (s.bytes_allocated + n_bytes)) then (0, s) else (
      sub64 next n_bytes,
      record s {
        free_ptr = next;
        bytes_allocated = u64 (s.bytes_allocated + n_bytes);
        memory = link_header s.free_ptr n_bytes s.memory;
      },
    )

unfoldable pub kcalloc : ℕ → ℕ → ℕ → Heap → ℕ × Heap
kcalloc mapped nmemb size s =
    let (block, s') = kmalloc mapped (u64 (nmemb * size)) s in
    (block, record s' { memory = memzero block (u64 (nmemb * size)) s'.memory })

unfoldable pub kfree : ℕ → Heap → Heap
kfree ptr s =
    let hdr = sub64 ptr 32 in
    let m = s.memory in
    let next = load 8 m (hdr + 16) in
    let prev = load 8 m (hdr + 24) in
    let m₁ = if prev == 0 then m else store_word 8 (prev + 16) next m in
    let next₁ = load 8 m₁ (hdr + 16) in
    let m₂ = if next₁ == 0 then m₁ else store_word 8 (next₁ + 24) (load 8 m₁ (hdr + 24)) m₁ in
    record s { memory = m₂; bytes_allocated = sub64 s.bytes_allocated (load 8 m₂ (hdr + 8)) }

unfoldable pub krealloc : ℕ → ℕ → ℕ → Heap → ℕ × Heap
krealloc mapped old new_size s =
    let (new, s') = kmalloc mapped new_size s in
    (new, kfree old (record s' { memory = memcpy new old new_size s'.memory }))
