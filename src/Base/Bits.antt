-- ===== src/Base/Bits.antt =====
-- The binary digits of a number, and the bit operations digit by digit, at every width.
mod Step
pub mod Masks
use Step.{bit_or_step, bit_and_step}
use Prim.Native.Nat.{ℕ, zero, suc, ◌+◌, ◌-◌, ◌*◌, ◌/◌, ◌%◌, ◌^◌, ◌≤◌, ◌<◌, min, max}
use Prim.Native.Nat.{bit_and, bit_or}
use mathlib.Core.Path.{◌≡◌, refl, ap, ◌∙◌}
use mathlib.Core.Logic.{◌≢◌}
use native.Mathlib.Nat.{pow-suc, one-le-pow}
use native.Mathlib.Omega.{arith}

-- The digit at place `k`.
unfoldable pub bit : ℕ → ℕ → ℕ
bit x zero = x % 2
bit x (suc k) = bit (x / 2) k

pub bit-le : (k x : ℕ) → bit x k ≤ 1
unfolding bit
bit-le zero x = omega arith
bit-le (suc k) x = bit-le k (x / 2)

pub bit-zero_num : (k : ℕ) → bit 0 k ≡ 0
unfolding bit
bit-zero_num zero = refl
bit-zero_num (suc k) = bit-zero_num k

pub bit-bit_or : (k a b : ℕ) → bit (bit_or a b) k ≡ max (bit a k) (bit b k)
unfolding bit
bit-bit_or zero a b = omega (arith, bit_or_step a b)
bit-bit_or (suc k) a b =
    ap (λ x. bit x k) (omega (arith, bit_or_step a b)) ∙ bit-bit_or k (a / 2) (b / 2)

pub bit-bit_and : (k a b : ℕ) → bit (bit_and a b) k ≡ min (bit a k) (bit b k)
unfolding bit
bit-bit_and zero a b = omega (arith, bit_and_step a b)
bit-bit_and (suc k) a b =
    ap (λ x. bit x k) (omega (arith, bit_and_step a b)) ∙ bit-bit_and k (a / 2) (b / 2)

pub bit-two-pow_self : (k : ℕ) → bit (2 ^ k) k ≡ 1
unfolding bit
bit-two-pow_self zero = refl
bit-two-pow_self (suc k) = ap (λ x. bit x k) (omega (arith, pow-suc 2 k)) ∙ bit-two-pow_self k

pub bit-two-pow_ne : (j k : ℕ) → j ≢ k → bit (2 ^ j) k ≡ 0
unfolding bit
bit-two-pow_ne zero zero h = absurd (h refl)
bit-two-pow_ne zero (suc k) h = bit-zero_num k
bit-two-pow_ne (suc j) zero h = omega (arith, pow-suc 2 j)
bit-two-pow_ne (suc j) (suc k) h =
    ap (λ x. bit x k) (omega (arith, pow-suc 2 j)) ∙ bit-two-pow_ne j k (λ e. h (ap suc e))

pub bit-complement : (w x k : ℕ) → x < 2 ^ w → k < w → bit (2 ^ w - 1 - x) k ≡ 1 - bit x k
unfolding bit
bit-complement zero x k h l = absurd (omega arith)
bit-complement (suc w) x zero h l = omega (arith, pow-suc 2 w)
bit-complement (suc w) x (suc k) h l =
    ap (λ y. bit y k) (omega (arith, pow-suc 2 w))
    ∙ bit-complement w (x / 2) k (omega (arith, pow-suc 2 w)) (omega arith)
