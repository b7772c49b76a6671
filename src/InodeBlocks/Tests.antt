-- ===== src/InodeBlocks/Tests.antt =====
-- An inode's block count with and without HUGE_FILE.
use libext2fs.Prelude.{◌+◌, ◌-◌, ◌<◌, ◌^◌, ◌≡◌, refl, arith}
use libext2fs.Errors.{eoverflow}
use libext2fs.Fs.Samples.{small, huge}
use libext2fs.InodeBlocks.{
  Inode, scaled, iblk_add_blocks, iblk_sub_blocks, iblk_set, inode_i_blocks, inode_data_blocks2,
}
use libext2fs.InodeBlocks.Laws.{IsWords}
use libext2fs.InodeBlocks.Laws.{sub-add_blocks}

abbrev some_inode : Inode
some_inode = record {
  i_blocks = 16;
  i_flags = 0;
  i_file_acl = 300;
  l_i_blocks_hi = 0;
  l_i_file_acl_high = 0;
}

some_inode-IsWords : IsWords some_inode
some_inode-IsWords = omega arith

counts :
    (inode_i_blocks small (iblk_add_blocks small some_inode 3).1 ≡ 22)
    × (inode_data_blocks2 small some_inode ≡ 14)
    × (iblk_sub_blocks small some_inode 9 ≡ (eoverflow, some_inode))
    × ((iblk_set small some_inode (2 ^ 31)).0 ≡ eoverflow)
unfolding inode_i_blocks iblk_add_blocks inode_data_blocks2 iblk_sub_blocks iblk_set scaled
counts = (refl, refl, refl, refl)

-- With HUGE_FILE a sum of 2^48 blocks is cut to 48 bits without an error.
huge_wraps :
    let brim = record some_inode { i_blocks = 2 ^ 32 - 2; l_i_blocks_hi = 2 ^ 16 - 1 } in
    (iblk_add_blocks huge brim 1).0 ≡ 0 × inode_i_blocks huge (iblk_add_blocks huge brim 1).1 ≡ 0
unfolding inode_i_blocks iblk_add_blocks scaled
huge_wraps = (refl, refl)

scaled_three : scaled small some_inode 3 < 2 ^ 32
unfolding scaled
scaled_three = omega arith

sum_fits : inode_i_blocks small some_inode + scaled small some_inode 3 < 2 ^ 32
unfolding inode_i_blocks scaled
sum_fits = omega arith

sub-add_blocks_example :
    iblk_sub_blocks small (iblk_add_blocks small some_inode 3).1 3 ≡ (0, some_inode)
sub-add_blocks_example = sub-add_blocks small some_inode 3 some_inode-IsWords sum_fits
