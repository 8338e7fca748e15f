-- ===== src/Drivers/Ahci/Handoff.antt =====
-- take_ownership of ahci.c. A comparison binds tighter than & in C.
use mksd_old_archive.Base.{
  ℕ, ◌+◌, ◌%◌, ◌^◌, ◌≡◌, ◌≤◌, ◌↔◌, true, false, inl, inr, refl, ap, ◌∙◌, arith, not, Bool-cases,
  bit_and, bit_or, ◌==◌, if◌then◌else◌, u32, [], ◌∷◌,
}
use mksd_old_archive.Base.Bits.Masks.{bit_and-low_mask, bit_and-zero}
use mksd_old_archive.Base.Layout.{offsetof}
use mksd_old_archive.Arch.Ports.{Access, Log, Device}
use mksd_old_archive.Drivers.Ahci.Structs.{hba_mem}
use mksd_old_archive.Drivers.Ahci.{read, set_bits}

-- `a & (b != 0)` and `a & (b == 0)`, where b is not 0.
abbrev pub and_not_zero : ℕ → ℕ
and_not_zero a = bit_and a 1

abbrev pub and_zero : ℕ → ℕ
and_zero a = bit_and a 0

-- `CLI_SLEEP` runs `cli` 10^8 times and waits for nothing. The result, 0 if success, the number of
-- `CLI_SLEEP`s, and the accesses. The loop that waits for the BIOS tests `bohc & ((1 << 0) == 0)`,
-- which is 0, once; the reads of the last test stop at the first hit.
unfoldable pub take_ownership : Device → ℕ → Log → ℕ × ℕ × Log
take_ownership device abar log =
    let bohc = abar + offsetof hba_mem "bohc" in
    let (cap, log₁) = read device abar log in
    let (_, log₃) = read device bohc (set_bits device bohc (2 ^ 1) log₁) in
    let (status, log₄) = read device bohc log₃ in
    let sleeps = 5 + (if bit_and status (2 ^ 4) == 0 then 0 else 10) in
    let (first, log₅) = read device bohc log₄ in
    let (second, log₆) = read device bohc log₅ in
    let (third, log₇) = read device bohc log₆ in
    if bit_and cap (2 ^ 0) == 0
    then (1, 0, log₁)
    else if not (and_not_zero first == 0)
    then (1, sleeps, log₅)
    else if not (and_not_zero second == 0)
    then (1, sleeps, log₆)
    else if not (and_zero third == 0)
    then (1, sleeps, log₇)
    else (0, sleeps, log₇)

-- How many times a register was read.
abbrev pub reads : ℕ → Log → ℕ
reads a [] = 0
reads a (Access.read32 b ∷ log) = if b == a then reads a log + 1 else reads a log
reads a (_ ∷ log) = reads a log

-- What `take_ownership` comes to, where `bohc k` is the answer to read number `k` of BOHC, and `n`
-- the number of its reads before.
pub record Handoff (cap : ℕ) (bohc : ℕ → ℕ) (n failed sleeps n' : ℕ) : Type 0 where
  pub success : (failed ≡ 0) ↔ ((cap % 2 ≡ 1) × (bohc (n + 3) % 2 ≡ 0) × (bohc (n + 4) % 2 ≡ 0))
  pub delays :
      sleeps ≡ (if cap % 2 == 0 then 0 else if bit_and (bohc (n + 2)) (2 ^ 4) == 0 then 5 else 15)
  pub most_reads : n' ≤ n + 6

-- For an HBA whose answer to each read of BOHC depends on the number of that read, in whatever way,
-- the answers counted from the call on: `take_ownership` ends after at most six reads of BOHC. It
-- succeeds exactly when bit 0 of the capabilities is set and bit 0 is clear in the fourth and in the
-- fifth answer. It sleeps five times, fifteen times if bit 4 is set in the third answer, and never
-- where bit 0 of the capabilities is clear.
pub take_ownership-Handoff :
    (device : Device) (abar : ℕ) (log : Log) (bohc : ℕ → ℕ)
    → ((l : Log) → u32 (device l (abar + 0x28)) ≡ bohc (reads (abar + 0x28) l))
    → let (failed, sleeps, log') = take_ownership device abar log in
      Handoff
        (u32 (device log abar))
        bohc
        (reads (abar + 0x28) log)
        failed
        sleeps
        (reads (abar + 0x28) log')
unfolding take_ownership
take_ownership-Handoff device abar log bohc answers =
    let b = abar + 0x28 in
    let n = reads b log in
    let cap = u32 (device log abar) in
    let log₁ = Access.read32 abar ∷ log in
    let old = u32 (device log₁ b) in
    let log₂ = Access.write32 b (bit_or old (2 ^ 1)) ∷ Access.read32 b ∷ log₁ in
    let log₃ = Access.read32 b ∷ log₂ in
    let log₄ = Access.read32 b ∷ log₃ in
    let log₅ = Access.read32 b ∷ log₄ in
    let log₆ = Access.read32 b ∷ log₅ in
    let hit : (b == b) ≡ true = ground arith in
    let miss : (abar == abar + 0x28) ≡ false = ground arith in
    let third : u32 (device log₃ b) ≡ bohc (n + 2) =
      answers log₃ ∙ ap bohc (rw (hit, miss) (omega arith)) in
    let fourth : bit_and (u32 (device log₄ b)) 1 ≡ bohc (n + 3) % 2 =
      bit_and-low_mask 1 _
      ∙ ap (λ (v : ℕ). v % 2) (answers log₄ ∙ ap bohc (rw (hit, miss) (omega arith))) in
    let fifth : bit_and (u32 (device log₅ b)) 1 ≡ bohc (n + 4) % 2 =
      bit_and-low_mask 1 _
      ∙ ap (λ (v : ℕ). v % 2) (answers log₅ ∙ ap bohc (rw (hit, miss) (omega arith))) in
    let log₇ = Access.read32 b ∷ log₆ in
    let n₁ : reads b log₁ ≤ n + 6 = rw miss (omega arith) in
    let n₅ : reads b log₅ ≤ n + 6 = rw (hit, miss) (omega arith) in
    let n₆ : reads b log₆ ≤ n + 6 = rw (hit, miss) (omega arith) in
    let n₇ : reads b log₇ ≤ n + 6 = rw (hit, miss) (omega arith) in
    rw (third, fourth, fifth, bit_and-zero (u32 (device log₆ b)), bit_and-low_mask 1 cap)
      (elim (Bool-cases (cap % 2 == 0)) [
        | inl e ↦ rw e (record {
          success = ((λ h. absurd (omega arith)), (λ h. absurd (ground arith)));
          delays = rw e refl;
          most_reads = n₁;
        })
        | inr e ↦ elim (Bool-cases (bohc (n + 3) % 2 == 0)) [
          | inr e₃ ↦
              rw (e, e₃)
                (record {
                  success = ((λ h. absurd (omega arith)), (λ h. absurd (ground arith)));
                  delays = rw e (ground arith);
                  most_reads = n₅;
                })
          | inl e₃ ↦ elim (Bool-cases (bohc (n + 4) % 2 == 0)) [
            | inr e₄ ↦
                rw (e, e₃, e₄)
                  (record {
                    success = ((λ h. absurd (omega arith)), (λ h. absurd (ground arith)));
                    delays = rw e (ground arith);
                    most_reads = n₆;
                  })
            | inl e₄ ↦
                rw (e, e₃, e₄)
                  (record {
                    success = ((λ h. (ground arith, ground arith, ground arith)), (λ h. refl));
                    delays = rw e (ground arith);
                    most_reads = n₇;
                  })
          ]
        ]
      ])
