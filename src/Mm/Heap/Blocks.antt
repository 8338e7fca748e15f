-- ===== src/Mm/Heap/Blocks.antt =====
-- The blocks that kmalloc returns.
use mksd_old_archive.Base.{
  false, ℕ, ◌+◌, ◌^◌, ◌≤◌, ◌<◌, ◌≡◌, ◌⊎◌, inl, inr, refl, ap, ◌∙◌, arith, Bool-cases, ltb, ◌==◌,
  u64, Memory, load, store_word, store_word-outside, load-store_word, load-store_word_apart,
}
use mksd_old_archive.Mm.Heap.{Heap, heap_bytes, heap_mag, link_header, kmalloc}

-- What a header says: its magic number, the size of its block, and the header behind the block.
pub record Header (p n : ℕ) (m : Memory) : Type 0 where
  pub magic : load 4 m p ≡ heap_mag
  pub size : load 8 m (p + 8) ≡ n
  pub next : load 8 m (p + 16) ≡ p + 32 + n
  pub back : load 8 m (p + 32 + n + 24) ≡ p

-- A block of `n` bytes at the free pointer: its header and the link behind it are written, and no
-- other byte; in particular not those of the block or of what lies in front of its header.
pub record Allocated (n : ℕ) (s : Heap) (out : ℕ × Heap) : Type 0 where
  pub at : out.0 ≡ s.free_ptr + 32
  pub behind : (out.1).free_ptr ≡ s.free_ptr + 32 + n
  pub counted : (out.1).bytes_allocated ≡ s.bytes_allocated + n
  pub header : Header s.free_ptr n ((out.1).memory)
  pub outside :
      (a : ℕ)
      → (a < s.free_ptr) ⊎ (s.free_ptr + 32 ≤ a)
      → (a < s.free_ptr + 32 + n + 24) ⊎ (s.free_ptr + 32 + n + 32 ≤ a)
      → (out.1).memory a ≡ s.memory a

-- The header with the address of the next one written out.
abbrev pub linked : ℕ → ℕ → Memory → Memory
linked p n m =
    store_word 8 (p + 32 + n + 24) p
      (store_word 8 (p + 16) (p + 32 + n) (store_word 4 p heap_mag (store_word 8 (p + 8) n m)))

pub link_header-linked :
    (p n : ℕ) (m : Memory) → p + 64 + n < 2 ^ 64 → link_header p n m ≡ linked p n m
unfolding link_header
link_header-linked p n m h =
    ap
      (λ (x : ℕ).
        store_word 8 (x + 24) p
          (store_word 8 (p + 16) x (store_word 4 p heap_mag (store_word 8 (p + 8) n m))))
      {x = u64 (p + (32 + n))} {y = p + 32 + n} (omega arith)

pub linked-Header : (p n : ℕ) (m : Memory) → p + 64 + n < 2 ^ 64 → Header p n (linked p n m)
linked-Header p n m h =
    let m₁ = store_word 8 (p + 8) n m in
    let m₂ = store_word 4 p heap_mag m₁ in
    let m₃ = store_word 8 (p + 16) (p + 32 + n) m₂ in
    let q = p + 32 + n + 24 in
    record {
      magic =
          load-store_word_apart 4 8 p q p m₃ (inl (omega arith))
          ∙ load-store_word_apart 4 8 p (p + 16) (p + 32 + n) m₂ (inl (omega arith))
          ∙ load-store_word 4 p heap_mag m₁ (omega arith);
      size =
          load-store_word_apart 8 8 (p + 8) q p m₃ (inl (omega arith))
          ∙ load-store_word_apart 8 8 (p + 8) (p + 16) (p + 32 + n) m₂ (inl (omega arith))
          ∙ load-store_word_apart 8 4 (p + 8) p heap_mag m₁ (inr (omega arith))
          ∙ load-store_word 8 (p + 8) n m (omega arith);
      next =
          load-store_word_apart 8 8 (p + 16) q p m₃ (inl (omega arith))
          ∙ load-store_word 8 (p + 16) (p + 32 + n) m₂ (omega arith);
      back = load-store_word 8 q p m₃ (omega arith);
    }

pub linked-outside :
    (p n : ℕ) (m : Memory) (a : ℕ)
    → (a < p) ⊎ (p + 32 ≤ a)
    → (a < p + 32 + n + 24) ⊎ (p + 32 + n + 32 ≤ a)
    → linked p n m a ≡ m a
linked-outside p n m a k l =
    let m₁ = store_word 8 (p + 8) n m in
    let m₂ = store_word 4 p heap_mag m₁ in
    let m₃ = store_word 8 (p + 16) (p + 32 + n) m₂ in
    store_word-outside 8 (p + 32 + n + 24) p m₃ a (ground arith)
    ∙ store_word-outside 8 (p + 16) (p + 32 + n) m₂ a (ground arith)
    ∙ store_word-outside 4 p heap_mag m₁ a (ground arith)
    ∙ store_word-outside 8 (p + 8) n m a (ground arith)

pub linked-prev : (p n : ℕ) (m : Memory) → load 8 (linked p n m) (p + 24) ≡ load 8 m (p + 24)
linked-prev p n m =
    let m₁ = store_word 8 (p + 8) n m in
    let m₂ = store_word 4 p heap_mag m₁ in
    let m₃ = store_word 8 (p + 16) (p + 32 + n) m₂ in
    load-store_word_apart 8 8 (p + 24) (p + 32 + n + 24) p m₃ (inl (omega arith))
    ∙ load-store_word_apart 8 8 (p + 24) (p + 16) (p + 32 + n) m₂ (inr (omega arith))
    ∙ load-store_word_apart 8 4 (p + 24) p heap_mag m₁ (inr (omega arith))
    ∙ load-store_word_apart 8 8 (p + 24) (p + 8) n m (inr (omega arith))

-- On a started heap that ends below the top of memory, `kmalloc` returns NULL and changes nothing
-- if the bytes allocated would exceed ten pages; else it returns the block behind the header at the
-- free pointer, with that header filled in, and counts the bytes of the block without the header.
pub kmalloc-Allocated :
    (mapped n : ℕ) (s : Heap)
    → (s.heap_start == 0) ≡ false
    → s.free_ptr + 64 + n < 2 ^ 64
    → s.bytes_allocated + n < 2 ^ 64
    → ((heap_bytes < s.bytes_allocated + n) × (kmalloc mapped n s ≡ (0, s)))
      ⊎ ((s.bytes_allocated + n ≤ heap_bytes) × Allocated n s (kmalloc mapped n s))
unfolding kmalloc
kmalloc-Allocated mapped n s on h k =
    let total : u64 (s.bytes_allocated + n) ≡ s.bytes_allocated + n = omega arith in
    elim (Bool-cases (ltb heap_bytes (s.bytes_allocated + n))) [
      | inl e ↦ inl (ground arith, rw (on, total, e, kmalloc) refl)
      | inr e ↦ inr (
        ground arith,
        rw (on, total, e, kmalloc)
            (record {
              at = omega arith;
              behind = omega arith;
              counted = refl;
              header =
                  rw (link_header-linked s.free_ptr n s.memory h)
                    (linked-Header s.free_ptr n s.memory h);
              outside = λ a u v.
                  ap (λ (m : Memory). m a) (link_header-linked s.free_ptr n s.memory h)
                  ∙ linked-outside s.free_ptr n s.memory a u v;
            }),
      )
    ]
