-- ===== src/Swap.antt =====
-- source/bitops_functions.c, source/swapfs.c: numbers and group descriptors in the other byte order.
-- The upper half of a descriptor is a cell, as in GroupDesc: its last two fields are `bg_reserved`.
mod Laws
mod Tests
use libext2fs.Prelude.{
  ℕ, ◌*◌, ◌/◌, ◌<<<◌, ◌>>>◌, u16, u32, bit_and, bit_or, ◌==◌, ◌||◌, ltb, if◌then◌else◌,
}
use libext2fs.Fs.{Filsys, Cell}

unfoldable pub swab16 : ℕ → ℕ
swab16 val = u16 (bit_or (val >>> 8) (val <<< 8))

unfoldable pub swab32 : ℕ → ℕ
swab32 val =
    bit_or
      (bit_or (bit_or (val >>> 24) (bit_and (val >>> 8) 0xFF00))
        (bit_and (u32 (val <<< 8)) 0xFF0000))
      (u32 (val <<< 24))

-- The fields of a `struct ext2_group_desc`.
unfoldable pub swap_lower : Cell → Cell
swap_lower c = record {
  bg_block_bitmap = swab32 c.bg_block_bitmap;
  bg_inode_bitmap = swab32 c.bg_inode_bitmap;
  bg_inode_table = swab32 c.bg_inode_table;
  bg_free_blocks_count = swab16 c.bg_free_blocks_count;
  bg_free_inodes_count = swab16 c.bg_free_inodes_count;
  bg_used_dirs_count = swab16 c.bg_used_dirs_count;
  bg_flags = swab16 c.bg_flags;
  bg_exclude_bitmap_lo = swab32 c.bg_exclude_bitmap_lo;
  bg_block_bitmap_csum_lo = swab16 c.bg_block_bitmap_csum_lo;
  bg_inode_bitmap_csum_lo = swab16 c.bg_inode_bitmap_csum_lo;
  bg_itable_unused = swab16 c.bg_itable_unused;
  bg_checksum = swab16 c.bg_checksum;
}

-- The rest of a `struct ext4_group_desc`: 32 bits of the exclude bitmap are swapped as if they were
-- 16, and `bg_reserved` is left alone.
unfoldable pub swap_upper : Cell → Cell
swap_upper c = record c {
  bg_block_bitmap = swab32 c.bg_block_bitmap;
  bg_inode_bitmap = swab32 c.bg_inode_bitmap;
  bg_inode_table = swab32 c.bg_inode_table;
  bg_free_blocks_count = swab16 c.bg_free_blocks_count;
  bg_free_inodes_count = swab16 c.bg_free_inodes_count;
  bg_used_dirs_count = swab16 c.bg_used_dirs_count;
  bg_flags = swab16 c.bg_flags;
  bg_exclude_bitmap_lo = swab16 (u16 c.bg_exclude_bitmap_lo);
  bg_block_bitmap_csum_lo = swab16 c.bg_block_bitmap_csum_lo;
  bg_inode_bitmap_csum_lo = swab16 c.bg_inode_bitmap_csum_lo;
}

-- A descriptor is given by its two halves.
unfoldable pub swap_group_desc2 : Filsys → Cell × Cell → Cell × Cell
swap_group_desc2 fs (lo, up) = (
  swap_lower lo,
  if (fs.super.s_desc_size == 0) || ltb fs.super.s_desc_size 64 then up else swap_upper up,
)
