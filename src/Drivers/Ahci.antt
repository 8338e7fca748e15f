-- ===== src/Drivers/Ahci.antt =====
-- sys/src/drivers/hdd/ahci.c: command slots, the command engine, the type of a drive. Registers
-- are accesses of a log, which a device answers; `port` is the address of an HBA_PORT, `abar` that
-- of the HBA_MEM. `none` is a wait whose fuel ran out. Bit-and binds weaker than a comparison in C.
pub mod Slots
pub mod Command
pub mod Handoff
pub mod Fis
pub mod Built
pub mod Fields
pub mod Ports
pub mod Structs
pub mod Tables
pub mod Init
pub mod Drives
mod Tests
use Prim.Native.String.{String}
use mksd_old_archive.Base.{
  ℕ, zero, suc, ◌+◌, ◌-◌, ◌*◌, ◌/◌, ◌%◌, ◌^◌, bit_and, bit_or, Bool, true, false, not, ◌||◌, Option,
  none, some, ◌==◌, if◌then◌else◌, u8, u32, ◌>>>◌, complement, List, ◌∷◌, Memory, store,
}
use mksd_old_archive.Base.Layout.{offsetof}
use mksd_old_archive.Arch.Ports.{Access, Log, Device}
use mksd_old_archive.Drivers.Ahci.Structs.{hba_port}

infixl 5 ◌>>=◌
abbrev pub ◌>>=◌ {ℓ κ} : {A : Type ℓ} {B : Type κ} → Option A → (A → Option B) → Option B
none >>= f = none
some a >>= f = f a

abbrev pub read : Device → ℕ → Log → ℕ × Log
read device a log = (u32 (device log a), Access.read32 a ∷ log)

abbrev pub write : ℕ → ℕ → Log → Log
write a value log = Access.write32 a value ∷ log

-- `*a &= ~mask` and `*a |= mask`
abbrev pub clear_bits : Device → ℕ → ℕ → Log → Log
clear_bits device a mask log =
    let (v, log₁) = read device a log in write a (bit_and v (complement 32 mask)) log₁

abbrev pub set_bits : Device → ℕ → ℕ → Log → Log
set_bits device a mask log = let (v, log₁) = read device a log in write a (bit_or v mask) log₁

-- `&port->name`
abbrev pub register : ℕ → String → ℕ
register port name = port + offsetof hba_port name

-- `while (busy(*a));`
unfoldable pub wait_while : Device → ℕ → ℕ → (ℕ → Bool) → Log → Option Log
wait_while device zero a busy log = none
wait_while device (suc fuel) a busy log =
    let (v, log₁) = read device a log in
    let rest = wait_while device fuel a busy log₁ in if busy v then rest else some log₁

abbrev pub has : ℕ → ℕ → Bool
has mask v = not (bit_and v mask == 0)

-- The loop of `find_cmdslot` from slot `i` with `n` rounds left; none is -1.
unfoldable pub slot_from : ℕ → ℕ → ℕ → Option ℕ
slot_from zero i slots = none
slot_from (suc n) i slots =
    let rest = slot_from n (i + 1) slots in if bit_and slots (2 ^ i) == 0 then some i else rest

unfoldable pub find_cmdslot : Device → ℕ → ℕ → Log → Option ℕ × Log
find_cmdslot device n_cmdslots port log =
    let (sact, log₁) = read device (register port "sact") log in
    let (ci, log₂) = read device (register port "ci") log₁ in
    (slot_from n_cmdslots 0 (bit_or sact ci), log₂)

unfoldable pub stop_cmd_engine : Device → ℕ → ℕ → Log → Option Log
stop_cmd_engine device fuel port log = do
  log₁ ←
      wait_while device fuel (register port "cmd") (has (2 ^ 14))
        (clear_bits device (register port "cmd") (2 ^ 4) log)
  wait_while device fuel (register port "cmd") (has (2 ^ 15))
      (clear_bits device (register port "cmd") (2 ^ 0) log₁)

unfoldable pub start_cmd_engine : Device → ℕ → ℕ → Log → Option Log
start_cmd_engine device fuel port log = do
  log₁ ←
      wait_while device fuel (register port "cmd") (λ v. not (has (2 ^ 15) v))
        (set_bits device (register port "cmd") (2 ^ 0) log)
  wait_while device fuel (register port "cmd") (λ v. not (has (2 ^ 14) v))
      (set_bits device (register port "cmd") (2 ^ 4) log₁)

-- The wait for the command reads `ci & ((1 << slot) != 0)`, which is bit 0 of `ci`.
unfoldable pub send_cmd : Device → ℕ → ℕ → ℕ → Log → Option Log
send_cmd device fuel port slot log = do
  log₁ ← wait_while device fuel (register port "tfd") (has 0x88) log
  log₂ ←
      wait_while device fuel (register port "cmd") (has (2 ^ 15))
        (clear_bits device (register port "cmd") (2 ^ 0) log₁)
  log₃ ← wait_while device fuel (register port "ci") (has 1) (
      write (register port "ci") (u32 (2 ^ slot))
        (set_bits device (register port "cmd") (bit_or (2 ^ 4) (2 ^ 0)) log₂))
  log₄ ←
      wait_while device fuel (register port "cmd") (has (2 ^ 0))
        (clear_bits device (register port "cmd") (2 ^ 0) log₃)
  some (clear_bits device (register port "cmd") (2 ^ 4) log₄)

-- The numbers of ports and of command slots, or none where the HBA lacks 64-bit addressing.
unfoldable pub read_hba_cap : Device → ℕ → Log → Option (ℕ × ℕ) × Log
read_hba_cap device abar log =
    let (cap, log₁) = read device abar log in
    let (ports, log₂) = read device abar log₁ in
    let (slots, log₃) = read device abar log₂ in
    if bit_and cap (2 ^ 31) == 0
    then (none, log₁)
    else (some (bit_and ports 0xF, bit_and (slots >>> 8) 0x1F), log₃)

-- `AHCI_DEV_NULL` 0, `AHCI_DEV_SATA` 1, `AHCI_DEV_SEMB` 2, `AHCI_DEV_PM` 3, `AHCI_DEV_SATAPI` 4
unfoldable pub get_drive_type : Device → ℕ → Log → ℕ × Log
get_drive_type device port log =
    let (ssts, log₁) = read device (register port "ssts") log in
    let ipm = bit_and (ssts >>> 8) 0xF in
    let det = bit_and ssts 0xF in
    let (sig, log₂) = read device (register port "sig") log₁ in
    if not (det == 3) || not (ipm == 1) then (0, log₁) else (
      (if sig == 0xEB140101
          then 4
          else if sig == 0xC33C0101
          then 2
          else if sig == 0x96690101
          then 3
          else 1),
      log₂,
    )

-- The loop of `swap_endianess` from `i` with `n` rounds left.
unfoldable pub swap_from : ℕ → ℕ → ℕ → Memory → Memory
swap_from zero buf i m = m
swap_from (suc n) buf i m =
    swap_from n buf (i + 2)
      (store (buf + (i + 1)) (m (buf + i)) (store (buf + i) (m (buf + (i + 1))) m))

-- A round for each `i` below `n` in steps of 2.
unfoldable pub swap_endianess : ℕ → ℕ → Memory → Memory
swap_endianess buf n m = swap_from ((n + 1) / 2) buf 0 m
