-- ===== src/Base/Store.antt =====
-- Byte-addressed memory, C strings in it, and the three block operations of lib/string.c, which
-- `rep stosb` and `rep movsb` carry out byte by byte from the lowest address.
use Prim.Native.Nat.{ℕ, zero, suc, ◌+◌, ◌-◌, ◌≤◌, ◌<◌}
use mathlib.Core.Path.{◌≡◌, refl, ap, ◌∙◌}
use mathlib.Core.Logic.{◌≢◌, ◌⊎◌, inl}
use mathlib.Core.Bool.{◌&&◌}
use mathlib.Core.List.{List, [], ◌∷◌}
use native.Mathlib.Omega.{arith}
use mksd_old_archive.Base.Tests.{◌==◌, leb, ltb, if◌then◌else◌}
use mksd_old_archive.Base.Lists.{length}

abbrev pub Memory : Type 0
Memory = ℕ → ℕ

abbrev pub store : ℕ → ℕ → Memory → Memory
store p v m a = if a == p then v else m a

-- `memset`: `rep stosb` with `n` bytes left.
unfoldable pub memset : ℕ → ℕ → ℕ → Memory → Memory
memset p byte zero m = m
memset p byte (suc n) m = memset (p + 1) byte n (store p byte m)

unfoldable pub memzero : ℕ → ℕ → Memory → Memory
memzero p n m = memset p 0 n m

-- `memcpy`: `rep movsb` with `n` bytes left.
unfoldable pub memcpy : ℕ → ℕ → ℕ → Memory → Memory
memcpy dst src zero m = m
memcpy dst src (suc n) m = memcpy (dst + 1) (src + 1) n (store dst (m src) m)

-- Every byte of the block has the value, and no other byte changes.
pub memset_lem :
    (n p byte : ℕ) (m : Memory) (a : ℕ)
    → memset p byte n m a ≡ (if leb p a && ltb a (p + n) then byte else m a)
unfolding memset
memset_lem zero p byte m a = ground arith
memset_lem (suc n) p byte m a = ground (arith, memset_lem n (p + 1) byte (store p byte m) a)

pub memzero_lem :
    (n p : ℕ) (m : Memory) (a : ℕ) → memzero p n m a ≡ (if leb p a && ltb a (p + n) then 0 else m a)
unfolding memzero
memzero_lem n p m a = memset_lem n p 0 m a

abbrev pub Apart : ℕ → ℕ → ℕ → Type 0
Apart dst src n = (dst + n ≤ src) ⊎ (src + n ≤ dst)

-- Copying between blocks that do not overlap.
pub memcpy_lem :
    (n dst src : ℕ) (m : Memory) (a : ℕ)
    → Apart dst src n
    → memcpy dst src n m a ≡ (if leb dst a && ltb a (dst + n) then m (src + (a - dst)) else m a)
unfolding memcpy
memcpy_lem zero dst src m a h = ground arith
memcpy_lem (suc n) dst src m a h =
    ground (arith, memcpy_lem n (dst + 1) (src + 1) (store dst (m src) m) a)

-- Nothing changes outside the block that a copy goes to.
pub memcpy-outside :
    (n dst src : ℕ) (m : Memory) (a : ℕ) → (a < dst) ⊎ (dst + n ≤ a) → memcpy dst src n m a ≡ m a
unfolding memcpy
memcpy-outside zero dst src m a h = refl
memcpy-outside (suc n) dst src m a h =
    memcpy-outside n (dst + 1) (src + 1) (store dst (m src) m) a (ground arith) ∙ ground arith

-- A copy goes up: what stands below the destination is copied as it was, even if the blocks overlap.
pub memcpy-forward :
    (i n dst src : ℕ) (m : Memory)
    → i < n
    → src + i < dst
    → memcpy dst src n m (dst + i) ≡ m (src + i)
unfolding memcpy
memcpy-forward i zero dst src m l h = absurd (omega arith)
memcpy-forward zero (suc n) dst src m l h =
    memcpy-outside n (dst + 1) (src + 1) (store dst (m src) m) (dst + 0) (inl (omega arith))
    ∙ ground (arith, ap m {x = src} {y = src + 0} (omega arith))
memcpy-forward (suc i) (suc n) dst src m l h =
    let m' = store dst (m src) m in
    ap (memcpy (dst + 1) (src + 1) n m') {x = dst + suc i} {y = dst + 1 + i} (omega arith)
    ∙ memcpy-forward i n (dst + 1) (src + 1) m' (omega arith) (omega arith)
    ∙ ground (arith, ap m {x = src + 1 + i} {y = src + suc i} (omega arith))

-- The bytes of `s`, none of them 0, stand at `p`, and a 0 follows.
abbrev pub IsString : Memory → ℕ → List ℕ → Type 0
IsString m p [] = m p ≡ 0
IsString m p (c ∷ s) = (m p ≡ c) × (c ≢ 0) × IsString m (p + 1) s

-- The bytes of `s` stand at `p`.
abbrev pub Holds : Memory → ℕ → List ℕ → Type 0
Holds m p [] = Unit
Holds m p (c ∷ s) = (m p ≡ c) × Holds m (p + 1) s

-- A string stays where no byte of it changes.
pub IsString-ext :
    (m m' : Memory) (p : ℕ) (s : List ℕ)
    → ((a : ℕ) → p ≤ a → a ≤ p + length s → m' a ≡ m a)
    → IsString m p s
    → IsString m' p s
IsString-ext m m' p [] same h = same p (omega arith) (omega arith) ∙ h
IsString-ext m m' p (c ∷ s) same (h, ne, rest) = (
  same p (omega arith) (omega arith) ∙ h,
  ne,
  IsString-ext m m' (p + 1) s (λ a l u. same a (omega arith) (omega arith)) rest,
)
