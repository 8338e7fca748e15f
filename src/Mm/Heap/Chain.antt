-- ===== src/Mm/Heap/Chain.antt =====
-- The headers of heap.c as a doubly linked list, in the order of their addresses.
use mksd_old_archive.Base.{
  ℕ, ◌+◌, ◌^◌, ◌≤◌, ◌<◌, ◌≡◌, ◌⊎◌, inl, inr, refl, ◌∙◌, arith, List, [], ◌∷◌, ◌++◌, Memory, load,
  load-ext,
}
use mksd_old_archive.Mm.Heap.{heap_mag}
use mksd_old_archive.Mm.Heap.Blocks.{linked, linked-Header, linked-outside, linked-prev}

-- A block that kmalloc has returned and kfree has not been given, by the address of its header.
pub record Block : Type 0 where
  pub at : ℕ
  pub size : ℕ

-- The address of the first header, that of the free pointer behind the last.
abbrev pub first : List Block → ℕ → ℕ
first [] free_ptr = free_ptr
first (b ∷ bs) free_ptr = b.at

abbrev pub total : List Block → ℕ
total [] = 0
total (b ∷ bs) = b.size + total bs

-- The header of a block between its neighbours.
pub record Between (m : Memory) (prev next : ℕ) (b : Block) : Type 0 where
  pub magic : load 4 m b.at ≡ heap_mag
  pub size : load 8 m (b.at + 8) ≡ b.size
  pub next_link : load 8 m (b.at + 16) ≡ next
  pub prev_link : load 8 m (b.at + 24) ≡ prev

-- The headers from `lo` on, behind the header at `prev`, up to the free pointer, which is linked
-- back to the last of them.
abbrev pub Chain : Memory → ℕ → ℕ → List Block → ℕ → Type 0
Chain m prev lo [] free_ptr = (lo ≤ free_ptr) × (load 8 m (free_ptr + 24) ≡ prev)
Chain m prev lo (b ∷ bs) free_ptr =
    (lo ≤ b.at)
    × Between m prev (first bs free_ptr) b
    × Chain m b.at (b.at + 32 + b.size) bs free_ptr

pub Between-ext :
    (m m' : Memory) (prev next : ℕ) (b : Block)
    → ((a : ℕ) → b.at ≤ a → a < b.at + 32 → m' a ≡ m a)
    → Between m prev next b
    → Between m' prev next b
Between-ext m m' prev next b same h = record {
  magic = load-ext 4 m m' b.at (λ a l u. same a l (omega arith)) ∙ h.magic;
  size = load-ext 8 m m' (b.at + 8) (λ a l u. same a (omega arith) (omega arith)) ∙ h.size;
  next_link =
      load-ext 8 m m' (b.at + 16) (λ a l u. same a (omega arith) (omega arith)) ∙ h.next_link;
  prev_link =
      load-ext 8 m m' (b.at + 24) (λ a l u. same a (omega arith) (omega arith)) ∙ h.prev_link;
}

-- The bytes that the list reads: the headers, and the link back from the free pointer.
abbrev pub InHeader : ℕ → List Block → ℕ → Type 0
InHeader a [] free_ptr = (free_ptr + 24 ≤ a) × (a < free_ptr + 32)
InHeader a (b ∷ bs) free_ptr = ((b.at ≤ a) × (a < b.at + 32)) ⊎ InHeader a bs free_ptr

pub Chain-ext :
    (m m' : Memory) (prev lo : ℕ) (bs : List Block) (free_ptr : ℕ)
    → ((a : ℕ) → InHeader a bs free_ptr → m' a ≡ m a)
    → Chain m prev lo bs free_ptr
    → Chain m' prev lo bs free_ptr
Chain-ext m m' prev lo [] free_ptr same (l, back) =
    (l, load-ext 8 m m' (free_ptr + 24) (λ a lo' hi. same a (omega arith)) ∙ back)
Chain-ext m m' prev lo (b ∷ bs) free_ptr same (l, here, rest) = (
  l,
  Between-ext m m' prev (first bs free_ptr) b (λ a lo' hi. same a (inl (lo', hi))) here,
  Chain-ext m m' b.at (b.at + 32 + b.size) bs free_ptr (λ a h. same a (inr h)) rest,
)

-- All that the list reads lies at `lo` or behind it.
pub InHeader-le :
    (m : Memory) (prev lo a : ℕ) (bs : List Block) (free_ptr : ℕ)
    → Chain m prev lo bs free_ptr
    → InHeader a bs free_ptr
    → lo ≤ a
InHeader-le m prev lo a [] free_ptr (l, _) h = omega arith
InHeader-le m prev lo a (b ∷ bs) free_ptr (l, _, rest) (inl h) = omega arith
InHeader-le m prev lo a (b ∷ bs) free_ptr (l, _, rest) (inr h) =
    omega (arith, InHeader-le m b.at (b.at + 32 + b.size) a bs free_ptr rest h)

pub Chain-above :
    (m m' : Memory) (prev lo : ℕ) (bs : List Block) (free_ptr : ℕ)
    → ((a : ℕ) → lo ≤ a → m' a ≡ m a)
    → Chain m prev lo bs free_ptr
    → Chain m' prev lo bs free_ptr
Chain-above m m' prev lo bs free_ptr same h =
    Chain-ext m m' prev lo bs free_ptr
      (λ a byte. same a (InHeader-le m prev lo a bs free_ptr h byte)) h

pub Chain-le :
    (m : Memory) (prev lo : ℕ) (bs : List Block) (free_ptr : ℕ)
    → Chain m prev lo bs free_ptr
    → (lo ≤ first bs free_ptr) × (lo ≤ free_ptr)
Chain-le m prev lo [] free_ptr (l, _) = (l, l)
Chain-le m prev lo (b ∷ bs) free_ptr (l, _, rest) =
    (l, omega (arith, (Chain-le m b.at (b.at + 32 + b.size) bs free_ptr rest).1))

first-append :
    (bs : List Block) (p n free_ptr : ℕ)
    → first (bs ++ record { at = p; size = n } ∷ []) free_ptr ≡ first bs p
first-append [] p n free_ptr = refl
first-append (b ∷ bs) p n free_ptr = refl

-- A header that kmalloc fills in at the free pointer.
pub Chain-append :
    (m : Memory) (prev lo : ℕ) (bs : List Block) (p n : ℕ)
    → p + 64 + n < 2 ^ 64
    → Chain m prev lo bs p
    → Chain (linked p n m) prev lo (bs ++ record { at = p; size = n } ∷ []) (p + 32 + n)
Chain-append m prev lo [] p n small (l, back) =
    let header = linked-Header p n m small in
    let here : Between (linked p n m) prev (p + 32 + n) (record { at = p; size = n }) = record {
      magic = header.magic;
      size = header.size;
      next_link = header.next;
      prev_link = linked-prev p n m ∙ back;
    } in
    (l, here, (omega arith, header.back))
Chain-append m prev lo (b ∷ bs) p n small (l, here, rest) =
    let below = (Chain-le m b.at (b.at + 32 + b.size) bs p rest).1 in
    let kept =
      Between-ext m (linked p n m) prev (first bs p) b
        (λ a lo' hi. linked-outside p n m a (inl (omega arith)) (inl (omega arith))) here in
    (
      l,
      rw (first-append bs p n (p + 32 + n)) kept,
      Chain-append m b.at (b.at + 32 + b.size) bs p n small rest,
    )

-- The first header behind a block lies at the free pointer at most.
pub Chain-first-le :
    (xs ys : List Block) (b : Block) (m : Memory) (prev lo free_ptr : ℕ)
    → Chain m prev lo (xs ++ b ∷ ys) free_ptr
    → first ys free_ptr ≤ free_ptr
Chain-first-le [] [] b m prev lo free_ptr h = omega arith
Chain-first-le [] (y ∷ ys) b m prev lo free_ptr (_, _, (_, _, rest)) =
    omega (arith, (Chain-le m y.at (y.at + 32 + y.size) ys free_ptr rest).1)
Chain-first-le (x ∷ xs) ys b m prev lo free_ptr (_, _, rest) =
    Chain-first-le xs ys b m x.at (x.at + 32 + x.size) free_ptr rest

pub Chain-head-le :
    (xs ys : List Block) (b : Block) (m : Memory) (prev lo free_ptr : ℕ)
    → Chain m prev lo (xs ++ b ∷ ys) free_ptr
    → lo ≤ b.at
Chain-head-le [] ys b m prev lo free_ptr (l, _, _) = l
Chain-head-le (x ∷ xs) ys b m prev lo free_ptr (l, _, rest) =
    omega (arith, Chain-head-le xs ys b m x.at (x.at + 32 + x.size) free_ptr rest)

-- No header meets a block.
pub InHeader-outside :
    (xs ys : List Block) (b : Block) (m : Memory) (prev lo a free_ptr : ℕ)
    → Chain m prev lo (xs ++ b ∷ ys) free_ptr
    → InHeader a (xs ++ b ∷ ys) free_ptr
    → (a < b.at + 32) ⊎ (b.at + 32 + b.size ≤ a)
InHeader-outside [] ys b m prev lo a free_ptr (_, _, rest) (inl h) = inl h.1
InHeader-outside [] ys b m prev lo a free_ptr (_, _, rest) (inr h) =
    inr (InHeader-le m b.at (b.at + 32 + b.size) a ys free_ptr rest h)
InHeader-outside (x ∷ xs) ys b m prev lo a free_ptr (_, _, rest) (inl h) =
    inl (omega (arith, Chain-head-le xs ys b m x.at (x.at + 32 + x.size) free_ptr rest))
InHeader-outside (x ∷ xs) ys b m prev lo a free_ptr (_, _, rest) (inr h) =
    InHeader-outside xs ys b m x.at (x.at + 32 + x.size) a free_ptr rest h
