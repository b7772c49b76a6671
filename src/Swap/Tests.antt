-- ===== src/Swap/Tests.antt =====
-- Swapping the descriptors of concrete file systems.
use libext2fs.Prelude.{ℕ, ◌%◌, ◌^◌, ◌≡◌, refl, arith, ltb, if◌then◌else◌}
use libext2fs.Fs.{Cell, Filsys}
use libext2fs.Fs.Samples.{small, plain_cell}
use libext2fs.Swap.{swab16, swab32, swap_group_desc2}
use libext2fs.Swap.Laws.{IsCell, swap_group_desc2_twice}

swab_test : Path (ℕ × ℕ) (swab16 0x1234, swab32 0x12345678) (0x3412, 0x78563412)
unfolding swab16 swab32
swab_test = refl

-- A cell with an exclude bitmap above 2^16.
abbrev far : Cell
far = record plain_cell { bg_exclude_bitmap_lo = 0x12345678 }

abbrev wide : Filsys
wide = record small { super = record small.super { s_desc_size = 64 } }

far-IsCell : IsCell far
far-IsCell = record {
  block_bitmap = omega arith;
  inode_bitmap = omega arith;
  inode_table = omega arith;
  free_blocks = omega arith;
  free_inodes = omega arith;
  used_dirs = omega arith;
  flags = omega arith;
  exclude_bitmap = omega arith;
  block_csum = omega arith;
  inode_csum = omega arith;
  itable_unused = omega arith;
  checksum = omega arith;
}

swap_group_desc2_twice_example :
    swap_group_desc2 wide (swap_group_desc2 wide (far, far))
    ≡ (far, if ltb 64 64 then far else record far { bg_exclude_bitmap_lo = 0x12345678 % 2 ^ 16 })
swap_group_desc2_twice_example = swap_group_desc2_twice wide far far far-IsCell far-IsCell
