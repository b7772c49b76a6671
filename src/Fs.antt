-- ===== src/Fs.antt =====
-- The in-memory file system that the components share: `struct ext2_super_block`,
-- `struct ext2_group_desc` (source/ext2_fs.h) and `struct struct_ext2_filsys` (source/ext2fs.h),
-- with the fields that the modelled code reads or writes. A field is a number below 2 to its width.
pub mod Samples
use libext2fs.Prelude.{ℕ, ◌-◌, ◌/◌, ◌^◌, ◌<<<◌, if◌then◌else◌, List, bit_and, Bool, truth}

pub record Super : Type 0 where
  pub s_inodes_count : ℕ
  pub s_blocks_count : ℕ
  pub s_r_blocks_count : ℕ
  pub s_free_blocks_count : ℕ
  pub s_free_inodes_count : ℕ
  pub s_first_data_block : ℕ
  pub s_log_block_size : ℕ
  pub s_blocks_per_group : ℕ
  pub s_inodes_per_group : ℕ
  pub s_first_ino : ℕ
  pub s_feature_incompat : ℕ
  pub s_feature_ro_compat : ℕ
  pub s_reserved_gdt_blocks : ℕ
  pub s_desc_size : ℕ
  pub s_first_meta_bg : ℕ
  pub s_blocks_count_hi : ℕ
  pub s_r_blocks_count_hi : ℕ
  pub s_free_blocks_hi : ℕ
  pub s_rev_level : ℕ
  pub s_uuid : List ℕ

-- 32 bytes of the descriptor table, in the layout of `struct ext2_group_desc`. The upper half of
-- a `struct ext4_group_desc` has the same layout but for `itable_unused_hi`, which lies where the
-- lower half keeps its flags.
pub record Cell : Type 0 where
  pub bg_block_bitmap : ℕ
  pub bg_inode_bitmap : ℕ
  pub bg_inode_table : ℕ
  pub bg_free_blocks_count : ℕ
  pub bg_free_inodes_count : ℕ
  pub bg_used_dirs_count : ℕ
  pub bg_flags : ℕ
  pub bg_exclude_bitmap_lo : ℕ
  pub bg_block_bitmap_csum_lo : ℕ
  pub bg_inode_bitmap_csum_lo : ℕ
  pub bg_itable_unused : ℕ
  pub bg_checksum : ℕ

pub record Filsys : Type 0 where
  pub super : Super
  pub blocksize : ℕ
  pub cluster_ratio_bits : ℕ
  pub group_desc_count : ℕ
  pub desc_blocks : ℕ
  pub inode_blocks_per_group : ℕ
  pub group_desc : List Cell

-- EXT2_FEATURE_* and EXT4_FEATURE_*.
abbrev pub sparse_super : ℕ
sparse_super = 0x0001

abbrev pub huge_file : ℕ
huge_file = 0x0008

abbrev pub gdt_csum : ℕ
gdt_csum = 0x0010

abbrev pub bigalloc : ℕ
bigalloc = 0x0200

abbrev pub meta_bg : ℕ
meta_bg = 0x0010

abbrev pub incompat_64bit : ℕ
incompat_64bit = 0x0080

abbrev pub filetype : ℕ
filetype = 0x0002

-- `super->s_feature_incompat & FLAG`, and the same of the read-only compatible features.
abbrev pub has_incompat : Super → ℕ → Bool
has_incompat sb flag = truth (bit_and sb.s_feature_incompat flag)

abbrev pub has_ro_compat : Super → ℕ → Bool
has_ro_compat sb flag = truth (bit_and sb.s_feature_ro_compat flag)

-- EXT2FS_CLUSTER_RATIO and EXT2FS_CLUSTER_MASK.
abbrev pub cluster_ratio : Filsys → ℕ
cluster_ratio fs = 2 ^ fs.cluster_ratio_bits

abbrev pub cluster_mask : Filsys → ℕ
cluster_mask fs = cluster_ratio fs - 1

-- EXT2_DESC_PER_BLOCK
abbrev pub desc_per_block : Super → ℕ
desc_per_block sb =
    (1024 <<< sb.s_log_block_size) / (if has_incompat sb incompat_64bit then sb.s_desc_size else 32)
