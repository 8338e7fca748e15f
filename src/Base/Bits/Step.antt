-- ===== src/Base/Bits/Step.antt =====
-- One equation for the lowest digit of `|` and `&`, from the recursion on digits that defines them.
use Prim.Native.Nat.{ℕ, zero, suc, ◌+◌, ◌*◌, ◌/◌, ◌%◌, ◌≤◌, min, max, bit_and, bit_or}
use Prim.Native.Nat.{digits, bitwise, bit_and-bitwise, bit_or-bitwise}
use mathlib.Core.Path.{◌≡◌, refl}
use native.Mathlib.Omega.{arith}

module _ (rest : ℕ → ℕ) (op : ℕ → ℕ → ℕ) where
  -- Any two amounts of fuel that cover the first number give the same digits.
  digits-eq :
      (fuel fuel' x y : ℕ)
      → x ≤ fuel
      → x ≤ fuel'
      → digits rest op fuel x y ≡ digits rest op fuel' x y
  digits-eq zero zero zero y h h' = refl
  digits-eq zero (suc m) zero y h h' = refl
  digits-eq (suc n) zero zero y h h' = refl
  digits-eq (suc n) (suc m) zero y h h' = refl
  digits-eq zero m (suc x) y h h' = absurd (omega arith)
  digits-eq (suc n) zero (suc x) y h h' = absurd (omega arith)
  digits-eq (suc n) (suc m) (suc x) y h h' =
      rw (digits-eq n m (suc x / 2) (y / 2) (omega arith) (omega arith))

  low_digit :
      (x y : ℕ)
      → bitwise rest op (suc x) y ≡ bitwise rest op (suc x / 2) (y / 2) * 2 + op (suc x % 2) (y % 2)
  low_digit x y =
      omega (arith, digits-eq x (suc x / 2) (suc x / 2) (y / 2) (omega arith) (omega arith))

pub bit_and_step : (x y : ℕ) → bit_and x y ≡ bit_and (x / 2) (y / 2) * 2 + min (x % 2) (y % 2)
bit_and_step zero y = simp bit_and-bitwise (omega arith)
bit_and_step (suc x) y = simp bit_and-bitwise (low_digit (λ _. 0) min x y)

pub bit_or_step : (x y : ℕ) → bit_or x y ≡ bit_or (x / 2) (y / 2) * 2 + max (x % 2) (y % 2)
bit_or_step zero y = simp bit_or-bitwise (omega arith)
bit_or_step (suc x) y = simp bit_or-bitwise (low_digit (λ n. n) max x y)
