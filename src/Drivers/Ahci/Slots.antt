-- ===== src/Drivers/Ahci/Slots.antt =====
-- The choice of a command slot.
use mksd_old_archive.Base.{
  ℕ, zero, suc, ◌+◌, ◌*◌, ◌^◌, ◌≤◌, ◌<◌, ◌≡◌, ◌⊎◌, inl, inr, refl, ap, ◌∙◌, arith, bit_and, bit_or,
  Option, none, some, ◌==◌, Bool-cases, u32, ◌∷◌,
}
use mksd_old_archive.Base.Bits.{bit, bit-le}
use mksd_old_archive.Base.Bits.Masks.{bit_and-two-pow, two-pow-pos}
use mksd_old_archive.Arch.Ports.{Access, Log, Device}
use mksd_old_archive.Drivers.Ahci.{slot_from, find_cmdslot}

-- The lowest slot of `n` from `i` on that is free, if any.
abbrev pub Lowest : ℕ → ℕ → ℕ → Option ℕ → Type 0
Lowest n i slots out =
    ((out ≡ none) × ((j : ℕ) → i ≤ j → j < i + n → bit slots j ≡ 1))
    ⊎ ((k : ℕ) × (i ≤ k)
        × (k < i + n)
        × (bit slots k ≡ 0)
        × ((j : ℕ) → i ≤ j → j < k → bit slots j ≡ 1)
        × (out ≡ some k))

scaled : (b k : ℕ) → b ≤ 1 → 0 < k → (b * k == 0) ≡ (b == 0)
scaled zero k h l = ground arith
scaled (suc zero) k h l = ground arith
scaled (suc (suc b)) k h l = absurd (omega arith)

free_test : (slots i : ℕ) → (bit_and slots (2 ^ i) == 0) ≡ (bit slots i == 0)
free_test slots i =
    ap (λ (t : ℕ). t == 0) (bit_and-two-pow i slots)
    ∙ scaled (bit slots i) (2 ^ i) (bit-le i slots) (two-pow-pos i)

slot_from-Lowest : (n i slots : ℕ) → Lowest n i slots (slot_from n i slots)
unfolding slot_from
slot_from-Lowest zero i slots = inl (refl, λ j l u. absurd (omega arith))
slot_from-Lowest (suc n) i slots =
    rw (free_test slots i, slot_from)
      (elim (Bool-cases (bit slots i == 0)) [
        | inl e ↦
            rw e (
              inr
                (i, omega arith, omega arith, ground arith, (λ j l u. absurd (omega arith)), refl))
        | inr e ↦
            let busy : bit slots i ≡ 1 = ground (arith, bit-le i slots) in
            rw e (elim (slot_from-Lowest n (i + 1) slots) [
              | inl (none_free, all) ↦ inl (
                none_free,
                λ j l u. elim (Bool-cases (j == i)) [
                  | inl q ↦ ap (bit slots) {x = j} {y = i} (ground arith) ∙ busy
                  | inr q ↦ all j (ground arith) (omega arith)
                ],
              )
              | inr (k, l, u, free, before, found) ↦ inr (
                k,
                omega arith,
                omega arith,
                free,
                (λ j l' u'. elim (Bool-cases (j == i)) [
                  | inl q ↦ ap (bit slots) {x = j} {y = i} (ground arith) ∙ busy
                  | inr q ↦ before j (ground arith) u'
                ]),
                found,
              )
            ])
      ])

-- `find_cmdslot` returns the lowest command slot that neither SACT nor CI, as it reads them, has
-- set, or -1 if there is none.
pub find_cmdslot-Lowest :
    (device : Device) (n_cmdslots port : ℕ) (log : Log)
    → Lowest n_cmdslots 0
        (bit_or
          (u32 (device log (port + 0x34)))
          (u32 (device (Access.read32 (port + 0x34) ∷ log) (port + 0x38))))
        ((find_cmdslot device n_cmdslots port log).0)
unfolding find_cmdslot
find_cmdslot-Lowest device n_cmdslots port log = slot_from-Lowest n_cmdslots 0 (
    bit_or (u32 (device log (port + 0x34)))
      (u32 (device (Access.read32 (port + 0x34) ∷ log) (port + 0x38))))
