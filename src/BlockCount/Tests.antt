-- ===== src/BlockCount/Tests.antt =====
-- Block counts and groups of a small file system.
use libext2fs.Prelude.{◌≤◌, ◌<◌, ◌≡◌, ◌↔◌, refl, arith}
use libext2fs.Fs.Samples.{small_super, small}
use libext2fs.BlockCount.{
  blocks_count, blocks_count_set, blocks_count_add, r_blocks_count, r_blocks_count_set,
  r_blocks_count_add,
}
use libext2fs.BlockCount.{group_of_blk2, group_first_block2, group_last_block2, group_blocks_count}
use libext2fs.BlockCount.Groups.{IsGeometry, group_of_blk2_iff}

small-IsGeometry : IsGeometry small
unfolding blocks_count
small-IsGeometry = record {
  some_blocks = omega arith;
  group_fits = omega arith;
  some_groups = omega arith;
  groups_fit = omega arith;
  last_used = omega arith;
  covered = omega arith;
  ends_fit = omega arith;
}

small_groups :
    (group_of_blk2 small 8193 ≡ 1)
    × (group_last_block2 small 2 ≡ 19999)
    × (group_blocks_count small 2 ≡ 3615)
    × (blocks_count (blocks_count_add small_super 5) ≡ 20005)
    × (r_blocks_count (r_blocks_count_add small_super 5) ≡ 1005)
unfolding group_of_blk2 group_last_block2 group_blocks_count blocks_count blocks_count_add
    blocks_count_set r_blocks_count_add r_blocks_count_set r_blocks_count
small_groups = (refl, refl, refl, refl, refl)

group_of_blk2_iff_example :
    (group_first_block2 small 1 ≤ 9000) × (9000 ≤ group_last_block2 small 1)
    ↔ (1 ≤ 9000) × (9000 < blocks_count small_super) × (group_of_blk2 small 9000 ≡ 1)
group_of_blk2_iff_example = group_of_blk2_iff small small-IsGeometry 1 9000 (omega arith)
