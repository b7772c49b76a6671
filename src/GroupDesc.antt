-- ===== src/GroupDesc.antt =====
-- source/blknum.c, second part: the accessors of the group descriptors. The table is memory cut
-- into 32-byte cells; a descriptor takes one cell or two, by `s_desc_size`. A descriptor is
-- addressed as a `struct ext4_group_desc` in both cases, so its upper half is the next cell.
pub mod Table
pub mod Slots
pub mod Laws
mod Tests
use Table.{cell_at, poke}
use libext2fs.Prelude.{ℕ, ◌+◌, ◌*◌, ◌-◌, ◌^◌, ◌<<<◌, ◌>>>◌, u16, u32, bit_or, bit_and, Bool, leb}
use libext2fs.Prelude.{if◌then◌else◌}
use libext2fs.Fs.{Filsys, Cell, has_incompat, incompat_64bit}

-- ext2fs_group_desc: the first cell of a group's descriptor.
abbrev pub group_desc : Filsys → ℕ → ℕ
group_desc fs group = if leb 64 fs.super.s_desc_size then 2 * group else group

-- ext4fs_group_desc: the cell that the upper half of a `struct ext4_group_desc` covers.
abbrev pub upper_half : Filsys → ℕ → ℕ
upper_half fs group = group_desc fs group + 1

abbrev pub lower : Filsys → ℕ → Cell
lower fs group = cell_at fs.group_desc (group_desc fs group)

abbrev pub upper : Filsys → ℕ → Cell
upper fs group = cell_at fs.group_desc (upper_half fs group)

-- A store into the lower half, and one into the upper half that only the 64BIT feature makes.
abbrev pub store_lower : (Cell → Cell) → Filsys → ℕ → Filsys
store_lower f fs group = record fs { group_desc = poke fs.group_desc (group_desc fs group) f }

abbrev pub store_upper : (Cell → Cell) → Filsys → ℕ → Filsys
store_upper f fs group =
    if has_incompat fs.super incompat_64bit
    then record fs { group_desc = poke fs.group_desc (upper_half fs group) f }
    else fs

pub block_bitmap_loc : Filsys → ℕ → ℕ
block_bitmap_loc fs group =
    bit_or (lower fs group).bg_block_bitmap
      (if has_incompat fs.super incompat_64bit then (upper fs group).bg_block_bitmap <<< 32 else 0)

pub block_bitmap_loc_set : Filsys → ℕ → ℕ → Filsys
block_bitmap_loc_set fs group blk =
    store_upper (λ c. record c { bg_block_bitmap = u32 (blk >>> 32) })
      (store_lower (λ c. record c { bg_block_bitmap = u32 blk }) fs group) group

pub inode_bitmap_loc : Filsys → ℕ → ℕ
inode_bitmap_loc fs group =
    bit_or (lower fs group).bg_inode_bitmap
      (if has_incompat fs.super incompat_64bit then (upper fs group).bg_inode_bitmap <<< 32 else 0)

pub inode_bitmap_loc_set : Filsys → ℕ → ℕ → Filsys
inode_bitmap_loc_set fs group blk =
    store_upper (λ c. record c { bg_inode_bitmap = u32 (blk >>> 32) })
      (store_lower (λ c. record c { bg_inode_bitmap = u32 blk }) fs group) group

unfoldable pub inode_table_loc : Filsys → ℕ → ℕ
inode_table_loc fs group =
    bit_or (lower fs group).bg_inode_table
      (if has_incompat fs.super incompat_64bit then (upper fs group).bg_inode_table <<< 32 else 0)

pub inode_table_loc_set : Filsys → ℕ → ℕ → Filsys
inode_table_loc_set fs group blk =
    store_upper (λ c. record c { bg_inode_table = u32 (blk >>> 32) })
      (store_lower (λ c. record c { bg_inode_table = u32 blk }) fs group) group

pub bg_free_blocks_count : Filsys → ℕ → ℕ
bg_free_blocks_count fs group = bit_or (lower fs group).bg_free_blocks_count (
    if has_incompat fs.super incompat_64bit
    then (upper fs group).bg_free_blocks_count <<< 16
    else 0)

pub bg_free_blocks_count_set : Filsys → ℕ → ℕ → Filsys
bg_free_blocks_count_set fs group n =
    store_upper (λ c. record c { bg_free_blocks_count = u16 (n >>> 16) })
      (store_lower (λ c. record c { bg_free_blocks_count = u16 n }) fs group) group

pub bg_free_inodes_count : Filsys → ℕ → ℕ
bg_free_inodes_count fs group = bit_or (lower fs group).bg_free_inodes_count (
    if has_incompat fs.super incompat_64bit
    then (upper fs group).bg_free_inodes_count <<< 16
    else 0)

pub bg_free_inodes_count_set : Filsys → ℕ → ℕ → Filsys
bg_free_inodes_count_set fs group n =
    store_upper (λ c. record c { bg_free_inodes_count = u16 (n >>> 16) })
      (store_lower (λ c. record c { bg_free_inodes_count = u16 n }) fs group) group

unfoldable pub bg_used_dirs_count : Filsys → ℕ → ℕ
bg_used_dirs_count fs group =
    bit_or (lower fs group).bg_used_dirs_count (
      if has_incompat fs.super incompat_64bit
      then (upper fs group).bg_used_dirs_count <<< 16
      else 0)

pub bg_used_dirs_count_set : Filsys → ℕ → ℕ → Filsys
bg_used_dirs_count_set fs group n =
    store_upper (λ c. record c { bg_used_dirs_count = u16 (n >>> 16) })
      (store_lower (λ c. record c { bg_used_dirs_count = u16 n }) fs group) group

-- The upper half keeps `bg_itable_unused_hi` where the lower half keeps its flags.
pub bg_itable_unused : Filsys → ℕ → ℕ
bg_itable_unused fs group =
    bit_or (lower fs group).bg_itable_unused
      (if has_incompat fs.super incompat_64bit then (upper fs group).bg_flags <<< 16 else 0)

pub bg_itable_unused_set : Filsys → ℕ → ℕ → Filsys
bg_itable_unused_set fs group n =
    store_upper (λ c. record c { bg_flags = u16 (n >>> 16) })
      (store_lower (λ c. record c { bg_itable_unused = u16 n }) fs group) group

unfoldable pub bg_flags : Filsys → ℕ → ℕ
bg_flags fs group = (lower fs group).bg_flags

pub bg_flags_zap : Filsys → ℕ → Filsys
bg_flags_zap fs group = store_lower (λ c. record c { bg_flags = 0 }) fs group

unfoldable pub bg_flags_test : Filsys → ℕ → ℕ → ℕ
bg_flags_test fs group bg_flag = bit_and (lower fs group).bg_flags bg_flag

unfoldable pub bg_flags_set : Filsys → ℕ → ℕ → Filsys
bg_flags_set fs group flags =
    store_lower (λ c. record c { bg_flags = bit_or c.bg_flags flags }) fs group

-- `~bg_flags` of a 16-bit operand, cut to 16 bits by the store.
unfoldable pub bg_flags_clear : Filsys → ℕ → ℕ → Filsys
bg_flags_clear fs group flags =
    store_lower (λ c. record c { bg_flags = bit_and c.bg_flags (2 ^ 16 - 1 - flags) }) fs group

unfoldable pub bg_checksum : Filsys → ℕ → ℕ
bg_checksum fs group = (lower fs group).bg_checksum

unfoldable pub bg_checksum_set : Filsys → ℕ → ℕ → Filsys
bg_checksum_set fs group checksum = store_lower (λ c. record c { bg_checksum = checksum }) fs group
