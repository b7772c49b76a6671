-- ===== src/BlockCount.antt =====
-- source/blknum.c, first part: the block counts of the superblock, which are kept as two 32-bit
-- words, and the arithmetic between blocks and groups.
pub mod Laws
pub mod Groups
mod Tests
use libext2fs.Prelude.{
  ℕ, ◌+◌, ◌-◌, ◌*◌, ◌/◌, ◌%◌, ◌^◌, ◌<<<◌, ◌>>>◌, u32, u64, sub32, sub64, bit_or,
}
use libext2fs.Prelude.{if◌then◌else◌, ◌==◌, Bool}
use libext2fs.Fs.{Super, Filsys, has_incompat, incompat_64bit}

unfoldable pub blocks_count : Super → ℕ
blocks_count sb =
    bit_or sb.s_blocks_count
      (if has_incompat sb incompat_64bit then sb.s_blocks_count_hi <<< 32 else 0)

pub blocks_count_set : Super → ℕ → Super
blocks_count_set sb blk =
    if has_incompat sb incompat_64bit
    then record sb { s_blocks_count = u32 blk; s_blocks_count_hi = u32 (blk >>> 32) }
    else record sb { s_blocks_count = u32 blk }

pub blocks_count_add : Super → ℕ → Super
blocks_count_add sb blk = blocks_count_set sb (u64 (blocks_count sb + blk))

pub r_blocks_count : Super → ℕ
r_blocks_count sb =
    bit_or sb.s_r_blocks_count
      (if has_incompat sb incompat_64bit then sb.s_r_blocks_count_hi <<< 32 else 0)

pub r_blocks_count_set : Super → ℕ → Super
r_blocks_count_set sb blk =
    if has_incompat sb incompat_64bit
    then record sb { s_r_blocks_count = u32 blk; s_r_blocks_count_hi = u32 (blk >>> 32) }
    else record sb { s_r_blocks_count = u32 blk }

pub r_blocks_count_add : Super → ℕ → Super
r_blocks_count_add sb blk = r_blocks_count_set sb (u64 (r_blocks_count sb + blk))

pub free_blocks_count : Super → ℕ
free_blocks_count sb =
    bit_or sb.s_free_blocks_count
      (if has_incompat sb incompat_64bit then sb.s_free_blocks_hi <<< 32 else 0)

pub free_blocks_count_set : Super → ℕ → Super
free_blocks_count_set sb blk =
    if has_incompat sb incompat_64bit
    then record sb { s_free_blocks_count = u32 blk; s_free_blocks_hi = u32 (blk >>> 32) }
    else record sb { s_free_blocks_count = u32 blk }

pub free_blocks_count_add : Super → ℕ → Super
free_blocks_count_add sb blk = free_blocks_count_set sb (u64 (free_blocks_count sb + blk))

-- The quotient is a 64-bit number, and the group number that is returned has 32 bits.
pub group_of_blk2 : Filsys → ℕ → ℕ
group_of_blk2 fs blk = u32 (sub64 blk fs.super.s_first_data_block / fs.super.s_blocks_per_group)

unfoldable pub group_first_block2 : Filsys → ℕ → ℕ
group_first_block2 fs group =
    u64 (fs.super.s_first_data_block + u64 (group * fs.super.s_blocks_per_group))

pub group_last_block2 : Filsys → ℕ → ℕ
group_last_block2 fs group =
    if group == sub32 fs.group_desc_count 1
    then sub64 (blocks_count fs.super) 1
    else u64 (group_first_block2 fs group + sub32 fs.super.s_blocks_per_group 1)

-- `num_blocks` is an int: a remainder or group size of 2^31 or more is out of its range.
pub group_blocks_count : Filsys → ℕ → ℕ
group_blocks_count fs group =
    if group == sub32 fs.group_desc_count 1
    then (let num_blocks =
          sub64 (blocks_count fs.super) fs.super.s_first_data_block % fs.super.s_blocks_per_group in
        if num_blocks == 0 then fs.super.s_blocks_per_group else num_blocks)
    else fs.super.s_blocks_per_group
