-- ===== src/Base/Loads.antt =====
-- Little-endian loads and stores of words of `n` bytes, as x86 carries them out.
use mksd_old_archive.Base.Word.{u8}
use mksd_old_archive.Base.Store.{Memory, store}
use Prim.Native.Nat.{ℕ, zero, suc, ◌+◌, ◌*◌, ◌/◌, ◌^◌, ◌≤◌, ◌<◌}
use mathlib.Core.Path.{◌≡◌, refl}
use mathlib.Core.Logic.{◌⊎◌, inl}
use native.Mathlib.Nat.{pow-suc}
use native.Mathlib.Omega.{arith}

unfoldable pub load : ℕ → Memory → ℕ → ℕ
load zero m p = 0
load (suc n) m p = u8 (m p) + 256 * load n m (p + 1)

unfoldable pub store_word : ℕ → ℕ → ℕ → Memory → Memory
store_word zero p v m = m
store_word (suc n) p v m = store_word n (p + 1) (v / 256) (store p (u8 v) m)

-- Two blocks of `n` and `k` bytes do not overlap.
abbrev pub Disjoint : ℕ → ℕ → ℕ → ℕ → Type 0
Disjoint p n q k = (p + n ≤ q) ⊎ (q + k ≤ p)

pub load-ext :
    (n : ℕ) (m m' : Memory) (p : ℕ)
    → ((a : ℕ) → p ≤ a → a < p + n → m' a ≡ m a)
    → load n m' p ≡ load n m p
unfolding load
load-ext zero m m' p same = refl
load-ext (suc n) m m' p same = omega (
  arith,
  same p (omega arith) (omega arith),
  load-ext n m m' (p + 1) (λ a l u. same a (omega arith) (omega arith)),
)

pub store_word-outside :
    (n p v : ℕ) (m : Memory) (a : ℕ) → (a < p) ⊎ (p + n ≤ a) → store_word n p v m a ≡ m a
unfolding store_word
store_word-outside zero p v m a h = refl
store_word-outside (suc n) p v m a h =
    ground (arith, store_word-outside n (p + 1) (v / 256) (store p (u8 v) m) a)

-- A load gives the word that was stored at its address.
pub load-store_word : (n p v : ℕ) (m : Memory) → v < 256 ^ n → load n (store_word n p v m) p ≡ v
unfolding load store_word
load-store_word zero p v m h = omega arith
load-store_word (suc n) p v m h = ground (
  arith,
  store_word-outside n (p + 1) (v / 256) (store p (u8 v) m) p (inl (omega arith)),
  load-store_word n (p + 1) (v / 256) (store p (u8 v) m) (omega (arith, pow-suc 256 n)),
  pow-suc 256 n,
)

-- A load does not see a store to a disjoint block.
pub load-store_word_apart :
    (n k p q v : ℕ) (m : Memory) → Disjoint p n q k → load n (store_word k q v m) p ≡ load n m p
load-store_word_apart n k p q v m h =
    load-ext n m (store_word k q v m) p (λ a l u. store_word-outside k q v m a (ground arith))

pub load-lt : (n : ℕ) (m : Memory) (p : ℕ) → load n m p < 256 ^ n
unfolding load
load-lt zero m p = omega arith
load-lt (suc n) m p = omega (arith, load-lt n m (p + 1), pow-suc 256 n)
