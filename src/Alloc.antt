-- ===== src/Alloc.antt =====
-- source/alloc.c: the choice of a free block or inode, on bitmaps of gen_bitmap.c, whose granularity
-- is one block, so that `c_ratio` is 1.
-- The file system has its magic number. An argument `map` is the bitmap that a call is given or, where
-- that is null, the one of the file system; `none` if there is neither. The calls return the file
-- system and the bitmaps, which the checks for uninitialized groups change.
pub mod Search
pub mod Uninit
pub mod Blocks
pub mod Runs
pub mod Metadata
pub mod Groups
mod Tests
use libext2fs.Prelude.{
  ℕ, zero, suc, ◌+◌, ◌-◌, ◌*◌, ◌/◌, ◌%◌, ◌^◌, u32, u64, sub32, Bool, true, false, ◌&&◌, ◌||◌, not,
  ltb, leb, ◌==◌, if◌then◌else◌, truth, Option, none, some,
}
use libext2fs.Errors.{no_inode_bitmap, no_block_bitmap, block_alloc_fail, inode_alloc_fail}
use libext2fs.Fs.{Super, Filsys, has_incompat, has_ro_compat, gdt_csum, meta_bg}
use libext2fs.BlockCount.{blocks_count}
use libext2fs.GroupDesc.{
  block_bitmap_loc, inode_bitmap_loc, inode_table_loc, bg_flags_test, bg_flags_clear,
}
use libext2fs.Csum.{group_desc_csum_set}
use libext2fs.Backups.{Locations, super_and_bgd_loc2}
use libext2fs.Bitmap.{Bitmap, test_generic_bitmap, mark_generic_bitmap, unmark_generic_bitmap}
use libext2fs.Bitmap.Ranges.{test_block_bitmap_range}

-- EXT2_BG_INODE_UNINIT and EXT2_BG_BLOCK_UNINIT
abbrev pub inode_uninit : ℕ
inode_uninit = 1

abbrev pub block_uninit : ℕ
block_uninit = 2

-- EXT2_FIRST_INODE
unfoldable pub first_inode : Super → ℕ
first_inode sb = if sb.s_rev_level == 0 then 11 else sb.s_first_ino

-- The feature, and the flag of a group, that make a bitmap uninitialized.
abbrev pub is_uninit : Filsys → ℕ → ℕ → Bool
is_uninit fs group flag = has_ro_compat fs.super gdt_csum && truth (bg_flags_test fs group flag)

-- `for (i = 0; i < num; i++, n++) unmark(map, n)`, with `left` rounds to go.
unfoldable pub unmark_run : ℕ → ℕ → Bitmap → Bitmap
unmark_run zero n map = map
unmark_run (suc left) n map = unmark_run left (u64 (n + 1)) (unmark_generic_bitmap map n).1

-- The blocks of a group that the file system itself takes.
unfoldable pub is_metadata : Filsys → ℕ → ℕ → Bool
is_metadata fs group blk =
    let l = super_and_bgd_loc2 fs group in
    let old_desc_blocks =
      if has_incompat fs.super meta_bg
      then fs.super.s_first_meta_bg
      else u32 (fs.desc_blocks + fs.super.s_reserved_gdt_blocks) in
    (blk == l.super_blk)
    || ((not (l.old_desc_blk == 0)
          && (not (old_desc_blocks == 0)
              && (leb l.old_desc_blk blk && ltb blk (u64 (l.old_desc_blk + old_desc_blocks)))))
        || ((not (l.new_desc_blk == 0) && (blk == l.new_desc_blk))
            || ((blk == block_bitmap_loc fs group)
                || ((blk == inode_bitmap_loc fs group)
                    || (leb (inode_table_loc fs group) blk
                        && ltb blk (u64 (inode_table_loc fs group + fs.inode_blocks_per_group)))))))

-- The second loop of `check_block_uninit`, with `left` rounds to go.
unfoldable pub mark_metadata : ℕ → Filsys → ℕ → ℕ → Bitmap → Bitmap
mark_metadata zero fs group blk map = map
mark_metadata (suc left) fs group blk map =
    let map' = if is_metadata fs group blk then (mark_generic_bitmap map blk).1 else map in
    mark_metadata left fs group (u64 (blk + 1)) map'

-- `(group * fs->super->s_blocks_per_group) + fs->super->s_first_data_block`
abbrev pub group_start : Filsys → ℕ → ℕ
group_start fs group = u32 (group * fs.super.s_blocks_per_group + fs.super.s_first_data_block)

unfoldable pub check_block_uninit : Filsys → Bitmap → ℕ → Filsys × Bitmap
check_block_uninit fs map group =
    let size = fs.super.s_blocks_per_group in
    let cleared = unmark_run size (group_start fs group) map in
    if not (is_uninit fs group block_uninit) then (fs, map) else (
      group_desc_csum_set (bg_flags_clear fs group block_uninit) group,
      mark_metadata size fs group (group_start fs group) cleared,
    )

-- The file system, the inode bitmap and the block bitmap of the file system.
unfoldable pub check_inode_uninit : Filsys → Bitmap → Bitmap → ℕ → Filsys × Bitmap × Bitmap
check_inode_uninit fs map block_map group =
    let (fs', block_map') =
      check_block_uninit (bg_flags_clear fs group inode_uninit) block_map group in
    if not (is_uninit fs group inode_uninit) then (fs, map, block_map) else (
      fs',
      unmark_run fs.super.s_inodes_per_group (u32 (u32 (group * fs.super.s_inodes_per_group) + 1))
          map,
      block_map',
    )

-- How a search ends. `unfinished` is a model's fuel that ran out.
pub data Outcome : Type 0 where
  found failed : ℕ → Outcome
  unfinished : Outcome

-- One round further, back to the first block or inode after the last.
abbrev pub advance : ℕ → ℕ → ℕ → ℕ
advance low high i = if leb high (i + 1) then low else i + 1

-- The group of a block.
abbrev pub group_of : Filsys → ℕ → ℕ
group_of fs i = u32 ((i - fs.super.s_first_data_block) / fs.super.s_blocks_per_group)

abbrev pub starts_group : Filsys → ℕ → Bool
starts_group fs i = (i - fs.super.s_first_data_block) % fs.super.s_blocks_per_group == 0

-- The check at the head of the loop of `ext2fs_new_block2`.
abbrev pub check_at : Filsys → Bitmap → ℕ → Filsys × Bitmap
check_at fs map i =
    if starts_group fs i then check_block_uninit fs map (group_of fs i) else (fs, map)

unfoldable pub new_block_loop : ℕ → Filsys → Bitmap → ℕ → ℕ → Filsys × Bitmap × Outcome
new_block_loop zero fs map goal i = (fs, map, unfinished)
new_block_loop (suc fuel) fs map goal i =
    let (fs', map') = check_at fs map i in
    let next = advance fs'.super.s_first_data_block (blocks_count fs'.super) i in
    let rest = new_block_loop fuel fs' map' goal next in
    if not (truth (test_generic_bitmap map' i))
    then (fs', map', found i)
    else if next == goal
    then (fs', map', failed block_alloc_fail)
    else rest

-- Where `ext2fs_new_block2` starts.
abbrev pub block_goal : Filsys → ℕ → ℕ
block_goal fs goal =
    if (goal == 0) || leb (blocks_count fs.super) goal then fs.super.s_first_data_block else goal

-- `ext2fs_new_block2` once it has a bitmap. The loop has a round for each block at most.
unfoldable pub search_block : Filsys → ℕ → Bitmap → Filsys × Bitmap × Outcome
search_block fs goal map =
    let start = block_goal fs goal in
    let (fs', map') = check_block_uninit fs map (group_of fs start) in
    new_block_loop (blocks_count fs.super - fs.super.s_first_data_block) fs' map' start start

unfoldable pub new_block2 : Filsys → ℕ → Option Bitmap → Filsys × Option Bitmap × Outcome
new_block2 fs goal none = (fs, none, failed no_block_bitmap)
new_block2 fs goal (some map) = let (fs', map', r) = search_block fs goal map in (fs', some map', r)

-- The check at the head of the loop of `ext2fs_new_inode`.
abbrev pub check_inode_at : Filsys → Bitmap → Bitmap → ℕ → Filsys × Bitmap × Bitmap
check_inode_at fs map block_map i =
    let size = fs.super.s_inodes_per_group in
    if sub32 i 1 % size == 0
    then check_inode_uninit fs map block_map (sub32 i 1 / size)
    else (fs, map, block_map)

-- `i++` of a 32-bit number, and back to the first inode that is not reserved after the last.
abbrev pub next_inode : Super → ℕ → ℕ
next_inode sb i = let i' = u32 (i + 1) in if ltb sb.s_inodes_count i' then first_inode sb else i'

-- The loop, and the test after it.
unfoldable pub new_inode_loop :
    ℕ → Filsys → Bitmap → Bitmap → ℕ → ℕ → Filsys × Bitmap × Bitmap × Outcome
new_inode_loop zero fs map block_map start i = (fs, map, block_map, unfinished)
new_inode_loop (suc fuel) fs map block_map start i =
    let (fs', map', block_map') = check_inode_at fs map block_map i in
    let next = next_inode fs'.super i in
    let rest = new_inode_loop fuel fs' map' block_map' start next in
    if not (truth (test_generic_bitmap map' i))
    then (fs', map', block_map', found i)
    else (if next == start
        then (
          fs',
          map',
          block_map',
          if truth (test_generic_bitmap map' start) then failed inode_alloc_fail else found start,
        )
        else rest)

-- The first inode of the group of the directory, or the first that is not reserved.
abbrev pub start_inode : Filsys → ℕ → ℕ
start_inode fs dir =
    let size = fs.super.s_inodes_per_group in
    let dir_group = if dir == 0 then 0 else (dir - 1) / size in
    let start = u32 (dir_group * size + 1) in
    if ltb start (first_inode fs.super) then first_inode fs.super else start

-- `ext2fs_new_inode` once it has a bitmap. The loop has a round for each inode at most.
unfoldable pub search_inode : Filsys → ℕ → Bitmap → Bitmap → Filsys × Bitmap × Bitmap × Outcome
search_inode fs dir map block_map =
    let start = start_inode fs dir in
    if ltb fs.super.s_inodes_count start
    then (fs, map, block_map, failed inode_alloc_fail)
    else new_inode_loop (fs.super.s_inodes_count + 1 - first_inode fs.super) fs map block_map start
        start

-- `ext2fs_test_block_bitmap_range2` on a bitmap of gen_bitmap.c; 22 is EINVAL.
unfoldable pub test_block_range2 : Bitmap → ℕ → ℕ → ℕ
test_block_range2 map block num =
    if num == 1
    then (if truth (test_generic_bitmap map block) then 0 else 1)
    else (if leb (2 ^ 32) (u64 (block + num - 1))
        then 22
        else test_block_bitmap_range map block num)

-- The loop of `ext2fs_get_free_blocks2`.
unfoldable pub free_blocks_loop : ℕ → Filsys → Bitmap → ℕ → ℕ → ℕ → Outcome
free_blocks_loop zero fs map num finish b = unfinished
free_blocks_loop (suc fuel) fs map num finish b =
    let b' =
      if ltb (blocks_count fs.super) (u64 (b + num - 1)) then fs.super.s_first_data_block else b in
    let rest = free_blocks_loop fuel fs map num finish (b' + 1) in
    if truth (test_block_range2 map b' num)
    then found b'
    else if b' + 1 == finish
    then failed block_alloc_fail
    else rest

-- `ext2fs_get_free_blocks2` once it has a bitmap.
unfoldable pub get_free_blocks2 : ℕ → Filsys → Bitmap → ℕ → ℕ → ℕ → Outcome
get_free_blocks2 fuel fs map start finish num =
    free_blocks_loop fuel fs map (if num == 0 then 1 else num)
      (if finish == 0 then start else finish)
      (if start == 0 then fs.super.s_first_data_block else start)

unfoldable pub new_inode : Filsys → ℕ → Option Bitmap → Bitmap → Outcome
new_inode fs dir none block_map = failed no_inode_bitmap
new_inode fs dir (some map) block_map = (search_inode fs dir map block_map).3
