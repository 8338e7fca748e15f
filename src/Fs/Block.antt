-- ===== src/Fs/Block.antt =====
-- sys/src/block/dev.c: block devices, on the virtual file system and the AHCI driver.
use mksd_old_archive.Base.{ℕ, ltb, ◌==◌, if◌then◌else◌}
use mksd_old_archive.Base.Outcome.{Outcome, ◌>>=◌}
use mksd_old_archive.Arch.Ports.{Device}
use mksd_old_archive.Drivers.Ahci.Command.{Hba, ahci_read_drive, ahci_write_drive}
use mksd_old_archive.Fs.{HashMap, Vfs, or_waits, fopen, fclose}

-- `bdevtype_t`
abbrev pub bdev_type_ssd : ℕ
bdev_type_ssd = 0

abbrev pub bdev_type_hdd : ℕ
bdev_type_hdd = 1

abbrev pub bdev_type_top : ℕ
bdev_type_top = 2

-- The literals "r", "/dev/nvme" and "/dev/sda", the blocks that `fopen` gets, the fuel of the loops
-- over strings and of those that wait for the disk, the disk, and VMM_HIGHER_HALF.
pub record Context : Type 0 where
  pub read : ℕ
  pub nvme : ℕ
  pub sda : ℕ
  pub split : ℕ → ℕ
  pub fp : ℕ
  pub text_fuel : ℕ
  pub disk_fuel : ℕ
  pub disk : Device
  pub higher_half : ℕ

pub record System (H : HashMap) : Type 0 where
  pub vfs : Vfs H
  pub hba : Hba

-- `fopen(devstr[requested_blockdev], "r")`, where `devstr` has two elements.
unfoldable pub open_device : (H : HashMap) → Context → ℕ → Vfs H → Outcome (ℕ × Vfs H)
open_device H c requested_blockdev v =
    if requested_blockdev == bdev_type_ssd
    then fopen H c.text_fuel c.split c.read c.fp c.nvme c.read v
    else if requested_blockdev == bdev_type_hdd
    then fopen H c.text_fuel c.split c.read c.fp c.sda c.read v
    else Outcome.undefined

-- The disk's answer is not looked at.
abbrev pub with_hba : {H : HashMap} → System H → ℕ × Hba → Outcome (ℕ × System H)
with_hba s (_, hba) = Outcome.done (0, record s { hba = hba })

-- The end of `block_read_drive`, once the file is closed.
unfoldable pub read_device :
    (H : HashMap) → Context → ℕ → ℕ → ℕ → ℕ → System H → Outcome (ℕ × System H)
read_device H c requested_blockdev buf_phys sector_count lba s =
    if requested_blockdev == bdev_type_hdd
    then or_waits (ahci_read_drive c.disk c.disk_fuel c.higher_half lba buf_phys sector_count s.hba)
      >>= with_hba s
    else Outcome.done (0, s)

unfoldable pub write_device :
    (H : HashMap) → Context → ℕ → ℕ → ℕ → ℕ → System H → Outcome (ℕ × System H)
write_device H c requested_blockdev buf_phys sector_count lba s =
    if requested_blockdev == bdev_type_hdd
    then or_waits
        (ahci_write_drive c.disk c.disk_fuel c.higher_half lba buf_phys sector_count s.hba)
      >>= with_hba s
    else Outcome.done (0, s)

unfoldable pub block_read_drive :
    (H : HashMap) → Context → ℕ → ℕ → ℕ → ℕ → System H → Outcome (ℕ × System H)
block_read_drive H c requested_blockdev buf_phys sector_count lba s =
    if ltb bdev_type_top requested_blockdev
    then Outcome.done (1, s)
    else open_device H c requested_blockdev s.vfs >>= (λ (fp, v).
      if fp == 0
      then Outcome.done (1, record s { vfs = v })
      else fclose H fp v >>= (λ v'.
        read_device H c requested_blockdev buf_phys sector_count lba (record s { vfs = v' })))

unfoldable pub block_write_drive :
    (H : HashMap) → Context → ℕ → ℕ → ℕ → ℕ → System H → Outcome (ℕ × System H)
block_write_drive H c requested_blockdev buf_phys sector_count lba s =
    if ltb bdev_type_top requested_blockdev
    then Outcome.done (1, s)
    else open_device H c requested_blockdev s.vfs >>= (λ (fp, v).
      if fp == 0
      then fclose H fp v >>= (λ v'. Outcome.done (1, record s { vfs = v' }))
      else fclose H fp v >>= (λ v'.
        write_device H c requested_blockdev buf_phys sector_count lba (record s { vfs = v' })))
