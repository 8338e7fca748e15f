-- ===== src/Mm/Vmm/Flags.antt =====
-- The page flags that mmap.c derives from its protection bits.
use mksd_old_archive.Base.{ℕ, ◌+◌, ◌-◌, ◌*◌, ◌^◌, ◌≡◌, ◌≤◌, arith, ◌==◌}
use mksd_old_archive.Base.Bits.{bit, bit-le}
use mksd_old_archive.Base.Bits.Masks.{bit_and-two-pow}
use mksd_old_archive.Mm.Vmm.Mmap.{prot_to_pte_flags, through_int, asks}

asks-bit : (prot k : ℕ) → 1 ≤ 2 ^ k → asks prot (2 ^ k) ≡ (bit prot k == 1)
asks-bit prot k h = ground (arith, bit_and-two-pow k prot, bit-le k prot)

-- The flags are the present, writable and user bits for PROT_READ, PROT_WRITE and PROT_USER, and
-- the no-execute bit where PROT_EXEC is missing; the no-execute bit is lost where `map_pages` takes
-- them as an `int`.
pub prot_to_pte_flags-bits :
    (prot : ℕ)
    → (prot_to_pte_flags prot
        ≡ bit prot 1 + 2 * bit prot 2 + 4 * bit prot 3 + 2 ^ 63 * (1 - bit prot 0))
      × (through_int (prot_to_pte_flags prot) ≡ bit prot 1 + 2 * bit prot 2 + 4 * bit prot 3)
unfolding prot_to_pte_flags through_int
prot_to_pte_flags-bits prot = ground (
  arith,
  asks-bit prot 0,
  asks-bit prot 1,
  asks-bit prot 2,
  asks-bit prot 3,
  bit-le 0 prot,
  bit-le 1 prot,
  bit-le 2 prot,
  bit-le 3 prot,
)
