-- ===== src/InodeBlocks.antt =====
-- source/i_block.c, and the inode accessors of source/blknum.c: the count of 512-byte or
-- file-system blocks that an inode keeps in 32 bits, or in 48 with the HUGE_FILE feature.
pub mod Laws
mod Tests
use libext2fs.Prelude.{
  ℕ, ◌+◌, ◌-◌, ◌*◌, ◌/◌, ◌<<<◌, ◌>>>◌, u16, u32, u64, sub64, bit_or, bit_and, truth,
}
use libext2fs.Prelude.{Bool, not, ltb, ◌==◌, ◌||◌, if◌then◌else◌}
use libext2fs.Fs.{Filsys, has_ro_compat, has_incompat, huge_file, incompat_64bit, cluster_ratio}
use libext2fs.Errors.{eoverflow}

-- The fields of `struct ext2_inode` that count blocks.
pub record Inode : Type 0 where
  pub i_blocks : ℕ
  pub i_flags : ℕ
  pub i_file_acl : ℕ
  pub l_i_blocks_hi : ℕ
  pub l_i_file_acl_high : ℕ

-- EXT4_HUGE_FILE_FL
abbrev pub huge_file_fl : ℕ
huge_file_fl = 0x00040000

abbrev pub is_huge : Filsys → Bool
is_huge fs = has_ro_compat fs.super huge_file

-- What the functions add, subtract or store for a number of clusters.
pub scaled : Filsys → Inode → ℕ → ℕ
scaled fs inode n = u64 (
    (if not (is_huge fs) || not (truth (bit_and inode.i_flags huge_file_fl))
      then u64 (n * (fs.blocksize / 512))
      else n)
    * cluster_ratio fs)

-- `i_blocks` plus the upper 16 bits where they are in use.
abbrev pub summed : Filsys → Inode → ℕ
summed fs inode =
    if is_huge fs then u64 (inode.i_blocks + inode.l_i_blocks_hi <<< 32) else inode.i_blocks

pub iblk_add_blocks : Filsys → Inode → ℕ → ℕ × Inode
iblk_add_blocks fs inode num_blocks =
    let b = u64 (summed fs inode + scaled fs inode num_blocks) in
    if is_huge fs
    then (0, record inode { l_i_blocks_hi = u16 (b >>> 32); i_blocks = bit_and b 0xffffffff })
    else (if ltb 0xffffffff b
        then (eoverflow, inode)
        else (0, record inode { i_blocks = bit_and b 0xffffffff }))

pub iblk_sub_blocks : Filsys → Inode → ℕ → ℕ × Inode
iblk_sub_blocks fs inode num_blocks =
    let n = scaled fs inode num_blocks in
    if ltb (summed fs inode) n
    then (eoverflow, inode)
    else (let b = summed fs inode - n in
        if is_huge fs
        then (0, record inode { l_i_blocks_hi = u16 (b >>> 32); i_blocks = bit_and b 0xffffffff })
        else (0, record inode { i_blocks = bit_and b 0xffffffff }))

-- The low word is stored before the overflow is reported.
pub iblk_set : Filsys → Inode → ℕ → ℕ × Inode
iblk_set fs inode n =
    let b = scaled fs inode n in
    if is_huge fs
    then (0, record inode { i_blocks = bit_and b 0xffffffff; l_i_blocks_hi = u16 (b >>> 32) })
    else (if truth (b >>> 32)
        then (eoverflow, record inode { i_blocks = bit_and b 0xffffffff })
        else (0, record inode { i_blocks = bit_and b 0xffffffff }))

pub inode_i_blocks : Filsys → Inode → ℕ
inode_i_blocks fs inode =
    bit_or inode.i_blocks (if is_huge fs then inode.l_i_blocks_hi <<< 32 else 0)

pub inode_data_blocks2 : Filsys → Inode → ℕ
inode_data_blocks2 fs inode =
    sub64 (bit_or inode.i_blocks (if is_huge fs then inode.l_i_blocks_hi <<< 32 else 0))
      (if truth inode.i_file_acl then fs.blocksize >>> 9 else 0)

-- `fs` is not null.
pub file_acl_block : Filsys → Inode → ℕ
file_acl_block fs inode =
    if has_incompat fs.super incompat_64bit
    then bit_or inode.i_file_acl (inode.l_i_file_acl_high <<< 32)
    else inode.i_file_acl

pub file_acl_block_set : Filsys → Inode → ℕ → Inode
file_acl_block_set fs inode blk =
    if has_incompat fs.super incompat_64bit
    then record inode { i_file_acl = u32 blk; l_i_file_acl_high = u16 (blk >>> 32) }
    else record inode { i_file_acl = u32 blk }
