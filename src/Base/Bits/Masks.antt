-- ===== src/Base/Bits/Masks.antt =====
-- `&` with a power of two or a low mask, `|` of disjoint fields, and bounds, as arithmetic.
use Prim.Native.Nat.{
  ℕ, zero, suc, ◌+◌, ◌-◌, ◌*◌, ◌/◌, ◌%◌, ◌^◌, ◌≤◌, ◌<◌, bit_and, bit_or, bit_and-bitwise,
}
use mathlib.Core.Path.{◌≡◌, refl, sym, ap, ◌∙◌}
use native.Mathlib.Nat.{pow-suc, one-le-pow, mod-eq_of_lt, div-div-eq-div-mul}
use native.Mathlib.Omega.{arith}
use mksd_old_archive.Base.Bits.Step.{bit_or_step, bit_and_step}
use mksd_old_archive.Base.Bits.{bit}

bit_and-zero_below : (n x : ℕ) → x ≤ n → bit_and x 0 ≡ 0
bit_and-zero_below n zero h = refl
bit_and-zero_below zero (suc x) h = absurd (omega arith)
bit_and-zero_below (suc n) (suc x) h =
    omega (arith, bit_and_step (suc x) 0, bit_and-zero_below n (suc x / 2) (omega arith))

pub bit_and-zero : (x : ℕ) → bit_and x 0 ≡ 0
bit_and-zero x = bit_and-zero_below x x (omega arith)

bit_or-zero_below : (n x : ℕ) → x ≤ n → bit_or x 0 ≡ x
bit_or-zero_below n zero h = refl
bit_or-zero_below zero (suc x) h = absurd (omega arith)
bit_or-zero_below (suc n) (suc x) h =
    omega (arith, bit_or_step (suc x) 0, bit_or-zero_below n (suc x / 2) (omega arith))

pub bit_or-zero : (x : ℕ) → bit_or x 0 ≡ x
bit_or-zero x = bit_or-zero_below x x (omega arith)

-- A test of one digit, as C writes it.
pub bit_and-two-pow : (k x : ℕ) → bit_and x (2 ^ k) ≡ bit x k * 2 ^ k
unfolding bit
bit_and-two-pow zero x = omega (arith, bit_and_step x 1, bit_and-zero (x / 2))
bit_and-two-pow (suc k) x = omega (
  arith,
  bit_and_step x (2 ^ suc k),
  pow-suc 2 k,
  ap (λ (t : ℕ). bit_and (x / 2) t) {x = 2 ^ suc k / 2} {y = 2 ^ k} (omega (arith, pow-suc 2 k)),
  bit_and-two-pow k (x / 2),
  ap (λ (t : ℕ). bit (x / 2) k * t) (pow-suc 2 k),
)

mod_double : (p x : ℕ) → 0 < p → x % (2 * p) ≡ x / 2 % p * 2 + x % 2
mod_double p x h = grind arith

-- A mask of the `k` low digits is a remainder.
pub bit_and-low_mask : (k x : ℕ) → bit_and x (2 ^ k - 1) ≡ x % 2 ^ k
bit_and-low_mask zero x = omega (arith, bit_and-zero x)
bit_and-low_mask (suc k) x = omega (
  arith,
  bit_and_step x (2 ^ suc k - 1),
  pow-suc 2 k,
  one-le-pow k 2,
  ap (λ (t : ℕ). bit_and (x / 2) t) {x = (2 ^ suc k - 1) / 2} {y = 2 ^ k - 1}
      (omega (arith, pow-suc 2 k, one-le-pow k 2 (omega arith))),
  bit_and-low_mask k (x / 2),
  mod_double (2 ^ k) x (one-le-pow k 2 (omega arith)),
  ap (λ (t : ℕ). x % t) {x = 2 ^ suc k} {y = 2 * 2 ^ k} (omega (arith, pow-suc 2 k)),
)

-- A shifted field with a value that fits below it.
pub bit_or_fields : (k q r : ℕ) → r < 2 ^ k → bit_or (q * 2 ^ k) r ≡ q * 2 ^ k + r
bit_or_fields zero q r h = ground (arith, bit_or-zero q)
bit_or_fields (suc k) q r h = ground (
  arith,
  bit_or_step (q * 2 ^ suc k) r,
  pow-suc 2 k,
  ap (λ (t : ℕ). q * t) (pow-suc 2 k),
  bit_or_fields k q (r / 2),
)

bit_or_even : (x : ℕ) → x % 2 ≡ 0 → bit_or x 1 ≡ x + 1
bit_or_even x h =
    ap (λ (t : ℕ). bit_or t 1) {x = x} {y = x / 2 * 2 ^ 1} (omega arith)
    ∙ bit_or_fields 1 (x / 2) 1 (omega arith)
    ∙ omega arith

pub bit_or-lt : (k x y : ℕ) → x < 2 ^ k → y < 2 ^ k → bit_or x y < 2 ^ k
bit_or-lt zero x y h h' = ground (arith, bit_or-zero 0)
bit_or-lt (suc k) x y h h' = omega (
  arith,
  bit_or_step x y,
  pow-suc 2 k,
  bit_or-lt k (x / 2) (y / 2) (omega (arith, pow-suc 2 k)) (omega (arith, pow-suc 2 k)),
)

bit_and-le_below : (n x y : ℕ) → x ≤ n → bit_and x y ≤ x
bit_and-le_below n zero y h = rw (bit_and-bitwise 0 y) (omega arith)
bit_and-le_below zero (suc x) y h = absurd (omega arith)
bit_and-le_below (suc n) (suc x) y h =
    omega (arith, bit_and_step (suc x) y, bit_and-le_below n (suc x / 2) (y / 2) (omega arith))

pub bit_and-le : (x y : ℕ) → bit_and x y ≤ x
bit_and-le x y = bit_and-le_below x x y (omega arith)

pub bit_eq_div : (k x : ℕ) → bit x k ≡ x / 2 ^ k % 2
unfolding bit
bit_eq_div zero x = omega arith
bit_eq_div (suc k) x =
    bit_eq_div k (x / 2)
    ∙ ap (λ (t : ℕ). t % 2)
        (div-div-eq-div-mul x 2 (2 ^ k) ∙ ap (λ (t : ℕ). x / t) (omega (arith, pow-suc 2 k)))

pub div-two-pow-suc : (k x : ℕ) → x / 2 ^ suc k ≡ x / 2 / 2 ^ k
div-two-pow-suc k x =
    ap (λ (t : ℕ). x / t) (omega (arith, pow-suc 2 k)) ∙ sym (div-div-eq-div-mul x 2 (2 ^ k))

-- A mask of all but the `k` low digits rounds down to a multiple of `2 ^ k`.
pub bit_and-high_mask :
    (k w x : ℕ) → x < 2 ^ w * 2 ^ k → bit_and x (2 ^ w * 2 ^ k - 2 ^ k) ≡ x / 2 ^ k * 2 ^ k
bit_and-high_mask zero w x h =
    ap (λ (t : ℕ). bit_and x t) {x = 2 ^ w * 2 ^ 0 - 2 ^ 0} {y = 2 ^ w - 1} (omega arith)
    ∙ bit_and-low_mask w x
    ∙ omega (arith, mod-eq_of_lt {n = x} {m = 2 ^ w} (omega arith))
bit_and-high_mask (suc k) w x h =
    let double : 2 ^ w * 2 ^ suc k ≡ 2 * (2 ^ w * 2 ^ k) =
      ap (λ (t : ℕ). 2 ^ w * t) (pow-suc 2 k) ∙ omega arith in
    omega (
      arith,
      bit_and_step x (2 ^ w * 2 ^ suc k - 2 ^ suc k),
      double,
      pow-suc 2 k,
      ap (λ (t : ℕ). bit_and (x / 2) t) {x = (2 ^ w * 2 ^ suc k - 2 ^ suc k) / 2}
          {y = 2 ^ w * 2 ^ k - 2 ^ k} (omega (arith, double, pow-suc 2 k)),
      bit_and-high_mask k w (x / 2) (omega (arith, double)),
      ap (λ (t : ℕ). t * 2 ^ suc k) (div-two-pow-suc k x),
      ap (λ (t : ℕ). x / 2 / 2 ^ k * t) (pow-suc 2 k),
    )

-- A digit of a number cut to `w` digits.
pub bit-mod : (k w x : ℕ) → k < w → bit (x % 2 ^ w) k ≡ bit x k
unfolding bit
bit-mod k zero x h = absurd (omega arith)
bit-mod zero (suc w) x h = omega (
  arith,
  mod_double (2 ^ w) x (one-le-pow w 2 (omega arith)),
  ap (λ (t : ℕ). x % t) {x = 2 ^ suc w} {y = 2 * 2 ^ w} (omega (arith, pow-suc 2 w)),
)
bit-mod (suc k) (suc w) x h =
    ap (λ (t : ℕ). bit t k) {x = x % 2 ^ suc w / 2} {y = x / 2 % 2 ^ w}
      (omega (
        arith,
        mod_double (2 ^ w) x (one-le-pow w 2 (omega arith)),
        ap (λ (t : ℕ). x % t) {x = 2 ^ suc w} {y = 2 * 2 ^ w} (omega (arith, pow-suc 2 w)),
      ))
    ∙ bit-mod k w (x / 2) (omega arith)

pub two-pow-lt : (k w : ℕ) → k < w → 2 ^ k < 2 ^ w
two-pow-lt k zero h = absurd (omega arith)
two-pow-lt zero (suc w) h = omega (arith, pow-suc 2 w, one-le-pow w 2 (omega arith))
two-pow-lt (suc k) (suc w) h = omega (arith, pow-suc 2 k, pow-suc 2 w, two-pow-lt k w (omega arith))

pub two-pow-pos : (k : ℕ) → 0 < 2 ^ k
two-pow-pos k = one-le-pow k 2 (omega arith)

pub bit_or_low_two : (x : ℕ) → x % 4 ≡ 0 → bit_or (bit_or x 1) 2 ≡ x + 3
bit_or_low_two x h =
    ap (λ (t : ℕ). bit_or t 2) (bit_or_even x (omega arith))
    ∙ bit_or_step (x + 1) 2
    ∙ omega (
      arith,
      bit_or_even (x / 2) (omega arith),
      ap (λ (t : ℕ). bit_or t 1) {x = (x + 1) / 2} {y = x / 2} (omega arith),
    )
