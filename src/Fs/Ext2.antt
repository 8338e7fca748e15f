-- ===== src/Fs/Ext2.antt =====
-- sys/src/fs/ext2.c: the superblock of the first disk.
use mksd_old_archive.Base.{ℕ, ◌+◌, none, some, ltb, ◌==◌, if◌then◌else◌, u64, Memory}
use mksd_old_archive.Base.Outcome.{Outcome, ◌>>=◌}
use mksd_old_archive.Base.Layout.{member}
use mksd_old_archive.Arch.Ports.{Log}
use mksd_old_archive.Fs.Superblock.{superblock_t}
use mksd_old_archive.Mm.Pmm.{Pmm, pmm_alloc}
use mksd_old_archive.Fs.{HashMap}
use mksd_old_archive.Fs.Block.{Context, System, bdev_type_hdd, block_read_drive}

-- `superblock` is the variable of ext2.c.
pub record Ext2 (H : HashMap) : Type 0 where
  pub superblock : ℕ
  pub system : System H
  pub pmm : Pmm

-- The fields of `superblock_t` that the file reads.
abbrev pub ext2_magic : ℕ → Memory → ℕ
ext2_magic address m = member superblock_t "ext2_magic" m address

abbrev pub os_id : ℕ → Memory → ℕ
os_id address m = member superblock_t "os_id" m address

-- `fscreators` has five elements; what is printed is left out.
unfoldable pub dump_fsinfo : (H : HashMap) → Ext2 H → Outcome (Ext2 H)
dump_fsinfo H s =
    if ltb (os_id s.superblock s.system.hba.memory) 5 then Outcome.done s else Outcome.undefined

-- `ext2_init` with the superblock in memory.
unfoldable pub check_superblock : (H : HashMap) → Ext2 H → Outcome (Ext2 H)
check_superblock H s =
    if ext2_magic s.superblock s.system.hba.memory == 0xEF53
    then dump_fsinfo H s
    else Outcome.done s

-- The superblock in the buffer at `superblock_alloc`, once the disk has written it.
abbrev with_superblock :
    (H : HashMap) → Context → (Log → Memory → Memory) → ℕ → Pmm → System H → Ext2 H → Ext2 H
with_superblock H c dma superblock_alloc pmm system s =
    let hba = system.hba in
    record s {
      superblock = u64 (superblock_alloc + c.higher_half);
      pmm = pmm;
      system = record system { hba = record hba { memory = dma hba.log hba.memory } };
    }

-- `dma` is what the disk writes to memory for the commands in its log.
unfoldable pub ext2_init :
    (H : HashMap) → Context → (Log → Memory → Memory) → Ext2 H → Outcome (Ext2 H)
ext2_init H c dma s = elim (pmm_alloc 1 s.pmm) [
  | none ↦ Outcome.undefined
  | some (superblock_alloc, pmm) ↦
      block_read_drive H c bdev_type_hdd superblock_alloc 2 2 s.system >>= (λ (failed, system).
        if failed == 0
        then check_superblock H (with_superblock H c dma superblock_alloc pmm system s)
        else Outcome.done (record s { system = system; pmm = pmm }))
]
