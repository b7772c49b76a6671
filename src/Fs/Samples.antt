-- ===== src/Fs/Samples.antt =====
-- Concrete file systems that the tests run on.
use libext2fs.Prelude.{[], ◌∷◌, replicate}
use libext2fs.Fs.{Super, Cell, Filsys}

-- 20,000 blocks of 1024 bytes, in groups of 8192; the first block is block 1.
abbrev pub small_super : Super
small_super = record {
  s_inodes_count = 5016;
  s_blocks_count = 20000;
  s_r_blocks_count = 1000;
  s_free_blocks_count = 18000;
  s_free_inodes_count = 5005;
  s_first_data_block = 1;
  s_log_block_size = 0;
  s_blocks_per_group = 8192;
  s_inodes_per_group = 1672;
  s_first_ino = 11;
  s_feature_incompat = 2;
  s_feature_ro_compat = 1;
  s_reserved_gdt_blocks = 0;
  s_desc_size = 32;
  s_first_meta_bg = 0;
  s_blocks_count_hi = 0;
  s_r_blocks_count_hi = 0;
  s_free_blocks_hi = 0;
  s_rev_level = 1;
  s_uuid = replicate 16 0x5a;
}

abbrev pub small : Filsys
small = record {
  super = small_super;
  blocksize = 1024;
  cluster_ratio_bits = 0;
  group_desc_count = 3;
  desc_blocks = 1;
  inode_blocks_per_group = 209;
  group_desc = [];
}

abbrev pub plain_cell : Cell
plain_cell = record {
  bg_block_bitmap = 259;
  bg_inode_bitmap = 260;
  bg_inode_table = 261;
  bg_free_blocks_count = 7800;
  bg_free_inodes_count = 1661;
  bg_used_dirs_count = 2;
  bg_flags = 0;
  bg_exclude_bitmap_lo = 0;
  bg_block_bitmap_csum_lo = 0;
  bg_inode_bitmap_csum_lo = 0;
  bg_itable_unused = 0;
  bg_checksum = 0;
}

-- The same with the 64BIT feature and descriptors of 64 bytes, two cells for each group.
abbrev pub large : Filsys
large = record small {
  super = record small_super { s_feature_incompat = 0x82; s_desc_size = 64 };
  group_desc = plain_cell ∷ plain_cell ∷ plain_cell ∷ plain_cell ∷ plain_cell ∷ plain_cell ∷ [];
}

-- The same with HUGE_FILE.
abbrev pub huge : Filsys
huge = record small { super = record small_super { s_feature_ro_compat = 0x9 } }
