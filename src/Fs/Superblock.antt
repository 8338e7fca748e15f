-- ===== src/Fs/Superblock.antt =====
-- The superblock of sys/include/fs/ext2.h.
use mksd_old_archive.Base.{◌-◌, true, [], ◌∷◌}
use mksd_old_archive.Base.Layout.{Struct, Field}

-- `superblock_t`
abbrev pub superblock_t : Struct
superblock_t = record {
  packed = true;
  fields =
      Field.scalar "total_inodes" 4
      ∷ Field.scalar "total_blocks" 4
      ∷ Field.scalar "su_blocks" 4
      ∷ Field.scalar "free_blocks" 4
      ∷ Field.scalar "free_inodes" 4
      ∷ Field.scalar "superblock_idx" 4
      ∷ Field.scalar "log2block_size" 4
      ∷ Field.scalar "log2frag_size" 4
      ∷ Field.scalar "blocks_per_group" 4
      ∷ Field.scalar "frags_per_group" 4
      ∷ Field.scalar "inodes_per_group" 4
      ∷ Field.scalar "mtime" 4
      ∷ Field.scalar "wtime" 4
      ∷ Field.scalar "mount_count" 2
      ∷ Field.scalar "mount_allowed_count" 2
      ∷ Field.scalar "ext2_magic" 2
      ∷ Field.scalar "fs_state" 2
      ∷ Field.scalar "err" 2
      ∷ Field.scalar "minor" 2
      ∷ Field.scalar "last_check" 4
      ∷ Field.scalar "interval" 4
      ∷ Field.scalar "os_id" 4
      ∷ Field.scalar "major" 4
      ∷ Field.scalar "r_userid" 2
      ∷ Field.scalar "r_groupid" 2
      ∷ Field.scalar "first_inode" 4
      ∷ Field.scalar "inode_size" 2
      ∷ Field.scalar "superblock_group" 2
      ∷ Field.scalar "optional_feature" 4
      ∷ Field.scalar "required_feature" 4
      ∷ Field.scalar "readonly_feature" 4
      ∷ Field.array "fs_id" 1 16
      ∷ Field.array "vol_name" 1 16
      ∷ Field.array "last_mount_path" 1 64
      ∷ Field.scalar "compression_method" 4
      ∷ Field.scalar "file_pre_alloc_blocks" 1
      ∷ Field.scalar "dir_pre_alloc_blocks" 1
      ∷ Field.scalar "unused1" 2
      ∷ Field.array "journal_id" 1 16
      ∷ Field.scalar "journal_inode" 4
      ∷ Field.scalar "journal_device" 4
      ∷ Field.scalar "orphan_head" 4
      ∷ Field.array "unused2" 1 (1024 - 236)
      ∷ [];
}
