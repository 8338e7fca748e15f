-- ===== src/Mm/Pmm/Bitmap.antt =====
-- The bitmap of pmm.c bit by bit: what setting and clearing one bit does to the test of any bit.
use mksd_old_archive.Base.{
  store, ℕ, zero, suc, ◌+◌, ◌*◌, ◌/◌, ◌%◌, ◌^◌, ◌≤◌, ◌<◌, ◌≡◌, ap, arith, bit_and, bit_or, Bool,
  true, false, ◌==◌, if◌then◌else◌, inl, inr, Bool-cases, u8, complement, ==_iff,
}
use mksd_old_archive.Base.Bits.{
  bit, bit-le, bit-bit_or, bit-bit_and, bit-two-pow_self, bit-two-pow_ne, bit-complement,
}
use mksd_old_archive.Base.Bits.Masks.{bit_and-two-pow, bit-mod, two-pow-lt, two-pow-pos}
use mksd_old_archive.Mm.Pmm.{Pmm, byte_of, bitmap_set_bit, bitmap_unset_bit, bitmap_test}

-- The code's test for a free frame.
abbrev pub is_free : ℕ → Pmm → Bool
is_free f s = bitmap_test f s == 0

flag_test : (b p : ℕ) → b ≤ 1 → 0 < p → p < 256 → (u8 (b * p) == 0) ≡ (b == 0)
flag_test zero p h l u = ground arith
flag_test (suc zero) p h l u = ground arith
flag_test (suc (suc b)) p h l u = absurd (omega arith)

pub test_as_bit : (f : ℕ) (s : Pmm) → is_free f s ≡ (bit (byte_of s f) (f % 8) == 0)
unfolding bitmap_test
test_as_bit f s = rw (bit_and-two-pow (f % 8) (byte_of s f)) (
    flag_test (bit (byte_of s f) (f % 8)) (2 ^ (f % 8)) (bit-le _ _) (two-pow-pos _)
      (two-pow-lt (f % 8) 8 (omega arith)))

byte_set : (v j k : ℕ) → k < 8 → bit (u8 (bit_or v (2 ^ j))) k ≡ (if j == k then 1 else bit v k)
byte_set v j k h = elim (Bool-cases (j == k)) [
  | inl e ↦
      rw (e, bit-mod k 8 (bit_or v (2 ^ j)) h, bit-bit_or)
        (rw ((==_iff j k).0 e, bit-two-pow_self) (omega (arith, bit-le k v)))
  | inr e ↦
      rw (e, bit-mod k 8 (bit_or v (2 ^ j)) h, bit-bit_or)
        (omega (arith, bit-two-pow_ne j k (ground arith)))
]

byte_unset :
    (v j k : ℕ)
    → j < 8
    → k < 8
    → bit (u8 (bit_and v (complement 32 (2 ^ j)))) k ≡ (if j == k then 0 else bit v k)
byte_unset v j k hj hk =
    let flip = bit-complement 32 (2 ^ j) k (two-pow-lt j 32 (omega arith)) (omega arith) in
    rw (bit-mod k 8 (bit_and v (complement 32 (2 ^ j))) hk, bit-bit_and, flip)
      (elim (Bool-cases (j == k)) [
        | inl e ↦ rw e (rw ((==_iff j k).0 e, bit-two-pow_self) (omega arith))
        | inr e ↦ rw e (omega (arith, bit-two-pow_ne j k (ground arith), bit-le k v))
      ])

-- A write to the byte of bit `b`, seen at bit `f`: `new` is the byte's digit after the write.
digit_after_write :
    (b f v new : ℕ) (s : Pmm)
    → bit v (f % 8) ≡ (if b % 8 == f % 8 then new else bit (byte_of s b) (f % 8))
    → bit (byte_of (record s { memory = store (s.bitmap + b / 8) v s.memory }) f) (f % 8)
      ≡ (if b == f then new else bit (byte_of s f) (f % 8))
digit_after_write b f v new s h = elim (Bool-cases (b / 8 == f / 8)) [
  | inl e ↦
      let q = (==_iff (b / 8) (f / 8)).0 e in
      let same : byte_of s b ≡ byte_of s f = ap (λ (t : ℕ). s.memory (s.bitmap + t)) q in
      ground (arith, same, h)
  | inr e ↦ ground arith
]

-- Setting a bit takes that frame and leaves every other frame as it was.
pub is_free-set :
    (b f : ℕ) (s : Pmm) → is_free f (bitmap_set_bit b s) ≡ (if b == f then false else is_free f s)
unfolding bitmap_set_bit
is_free-set b f s = ground (
  arith,
  test_as_bit f s,
  test_as_bit f (bitmap_set_bit b s),
  digit_after_write b f (u8 (bit_or (byte_of s b) (2 ^ (b % 8)))) 1 s
      (byte_set (byte_of s b) (b % 8) (f % 8) (omega arith)),
)

-- Clearing a bit frees that frame and leaves every other frame as it was.
pub is_free-unset :
    (b f : ℕ) (s : Pmm) → is_free f (bitmap_unset_bit b s) ≡ (if b == f then true else is_free f s)
unfolding bitmap_unset_bit
is_free-unset b f s = ground (
  arith,
  test_as_bit f s,
  test_as_bit f (bitmap_unset_bit b s),
  digit_after_write b f (u8 (bit_and (byte_of s b) (complement 32 (2 ^ (b % 8))))) 0 s
      (byte_unset (byte_of s b) (b % 8) (f % 8) (omega arith) (omega arith)),
)
