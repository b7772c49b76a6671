-- ===== src/Dblist/Tests.antt =====
-- A list of two directory blocks.
use libext2fs.Prelude.{
  ℕ, ◌+◌, ◌≤◌, ◌<◌, ◌^◌, [], ◌∷◌, List, length, ◌≡◌, ◌⊎◌, ◌↔◌, refl, arith, true, false, some,
}
use libext2fs.Errors.{magic_dblist, no_memory, db_not_found}
use libext2fs.Fs.Samples.{small}
use libext2fs.GroupDesc.{bg_used_dirs_count}
use libext2fs.Dblist.{
  DbEntry, Dblist, replaced, get_num_dirs, add_dir_block2, set_dir_block2, dir_block_cmp2,
  dblist_count2, dblist_get_last2, dblist_drop_last,
}
use libext2fs.Dblist.Dirs.{total_dirs, get_num_dirs_lem}
use libext2fs.Dblist.Order.{IsEarlier, dir_block_cmp2_iff}
use libext2fs.Dblist.Entries.{Fits, NoneOf, IsReplaced, add_dir_block2_lem, set_dir_block2_lem}

abbrev entry : ℕ → ℕ → ℕ → DbEntry
entry ino blk blockcnt = record { ino = ino; blk = blk; blockcnt = blockcnt }

abbrev two_blocks : Dblist
two_blocks = record {
  magic = magic_dblist;
  size = 2;
  sorted = 1;
  list = entry 2 100 0 ∷ entry 11 200 0 ∷ [];
}

add_dir_block2_lem_example :
    (((2 < 2) ⊎ (true ≡ true))
      × ((db' : Dblist) × (add_dir_block2 true two_blocks 11 201 1 ≡ (0, db'))
          × (dblist_count2 db' ≡ dblist_count2 two_blocks + 1)
          × (dblist_get_last2 db' ≡ (0, some (entry 11 201 1)))
          × (dblist_drop_last db' ≡ (0, record db' { list = two_blocks.list }))
          × (db'.sorted ≡ 0)
          × Fits db'))
    ⊎ ((length two_blocks.list ≡ two_blocks.size)
        × (true ≡ false)
        × (add_dir_block2 true two_blocks 11 201 1 ≡ (no_memory, two_blocks)))
add_dir_block2_lem_example =
    add_dir_block2_lem true two_blocks 11 201 1 refl (omega arith) (omega arith)

set_dir_block2_lem_example :
    ((list : List DbEntry) × (set_dir_block2 two_blocks 11 300 0
        ≡ some (0, record two_blocks { list = list; sorted = 0 }))
      × IsReplaced two_blocks.list 11 300 0 (replaced list))
    ⊎ (NoneOf 11 0 two_blocks.list
        × (set_dir_block2 two_blocks 11 300 0 ≡ some (db_not_found, two_blocks)))
set_dir_block2_lem_example = set_dir_block2_lem two_blocks 11 300 0 refl (omega arith)

dir_block_cmp2_iff_example :
    ((2 ^ 31 ≤ dir_block_cmp2 (entry 2 100 0) (entry 11 100 0))
      ↔ IsEarlier (entry 2 100 0) (entry 11 100 0))
    × ((dir_block_cmp2 (entry 2 100 0) (entry 11 100 0) ≡ 0)
        ↔ (◌≡◌ {A = ℕ} 100 100 × ◌≡◌ {A = ℕ} 2 11 × ◌≡◌ {A = ℕ} 0 0))
dir_block_cmp2_iff_example =
    dir_block_cmp2_iff (entry 2 100 0) (entry 11 100 0) (omega arith, omega arith, omega arith)
      (omega arith, omega arith, omega arith)

-- Blocks that are a multiple of 2^32 apart compare as equal, and distances of 2^31 and more turn the
-- order round.
far_blocks :
    Path
      (ℕ × ℕ)
      (
        dir_block_cmp2 (entry 2 (2 ^ 32) 0) (entry 2 0 0),
        dir_block_cmp2 (entry 2 (2 ^ 31) 0) (entry 2 0 0),
      )
      (0, 2 ^ 31)
unfolding dir_block_cmp2
far_blocks = refl

get_num_dirs_lem_example :
    (get_num_dirs small ≤ 5016)
    × (((g : ℕ) → bg_used_dirs_count small g ≤ 1672)
        → total_dirs small 3 0 ≤ 5016
        → get_num_dirs small ≡ total_dirs small 3 0)
get_num_dirs_lem_example = get_num_dirs_lem small (omega arith)
