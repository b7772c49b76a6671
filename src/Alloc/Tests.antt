-- ===== src/Alloc/Tests.antt =====
-- Searches in a file system of 20 blocks.
use libext2fs.Prelude.{
  ℕ, zero, suc, true, false, ◌↔◌, ◌<◌, ◌^◌, [], ◌∷◌, ◌≡◌, ◌⊎◌, refl, arith, some, inl, inr,
}
use libext2fs.Errors.{magic_block_bitmap, magic_inode_bitmap, block_alloc_fail}
use libext2fs.Fs.{Filsys}
use libext2fs.Fs.Samples.{small, plain_cell}
use libext2fs.BlockCount.{blocks_count}
use libext2fs.Bitops.{test_bit}
use libext2fs.Bitops.Laws.{IsBytes}
use libext2fs.Bitmap.{Bitmap, outside, test_generic_bitmap}
use libext2fs.Bitmap.Valid
use libext2fs.Alloc.{
  Outcome, found, block_goal, search_block, new_block2, test_block_range2, free_blocks_loop,
  get_free_blocks2, check_block_uninit, is_uninit, block_uninit,
}
use libext2fs.Alloc.Search.{IsFirst}
use libext2fs.Alloc.Blocks.{in_use, new_block2-IsFirst}
use libext2fs.BlockCount.{group_first_block2}
use libext2fs.GroupDesc.{inode_table_loc}
use libext2fs.GroupDesc.Table.{cell_at}
use libext2fs.GroupDesc.Slots.{IsInTable}
use libext2fs.Alloc.Uninit.{in_run, IsEnd, search_block-IsEnd}
use libext2fs.Alloc.Metadata.{IsMetadata, IsSized}
use libext2fs.Alloc.Groups.{IsInitialized, check_block_uninit_lem}
use libext2fs.Alloc.Runs.{IsBlockMap, IsRunFound, get_free_blocks2-IsRunFound}

-- Blocks 1 to 20, in one group of 24.
abbrev tiny : Filsys
tiny = record small {
  super = record small.super {
    s_blocks_count = 21;
    s_blocks_per_group = 24;
    s_inodes_count = 16;
    s_inodes_per_group = 16;
  };
  group_desc_count = 1;
  group_desc = plain_cell ∷ [];
}

-- The same with group checksums and a group that is not initialized.
abbrev raw : Filsys
raw = record tiny {
  super = record tiny.super { s_feature_ro_compat = 0x0010 };
  group_desc = record plain_cell { bg_flags = 2 } ∷ [];
}

abbrev block_map : ℕ → ℕ → ℕ → Bitmap
block_map b0 b1 b2 = record {
  magic = magic_block_bitmap;
  start = 1;
  end = 20;
  real_end = 24;
  bitmap = b0 ∷ b1 ∷ b2 ∷ [];
}

abbrev inode_map : Bitmap
inode_map = record {
  magic = magic_inode_bitmap;
  start = 1;
  end = 16;
  real_end = 16;
  bitmap = 0xff ∷ 0xff ∷ [];
}

block_map-IsValid :
    (b0 b1 b2 : ℕ) → b0 < 2 ^ 8 → b1 < 2 ^ 8 → b2 < 2 ^ 8 → Valid.IsValid (block_map b0 b1 b2)
block_map-IsValid b0 b1 b2 h0 h1 h2 = record {
  kind = refl;
  ends = omega arith;
  starts = omega arith;
  small = omega arith;
  room = omega arith;
  bytes = bytes;
}
  where
    bytes : IsBytes (b0 ∷ b1 ∷ b2 ∷ [])
    bytes zero = omega arith
    bytes (suc zero) = omega arith
    bytes (suc (suc zero)) = omega arith
    bytes (suc (suc (suc i))) = omega arith

tiny_count : blocks_count tiny.super ≡ 21
unfolding blocks_count
tiny_count = refl

new_block2-IsFirst_example :
    (r : Outcome) × (new_block2 tiny 9 (some (block_map 0x81 0xff 0))
      ≡ (tiny, some (block_map 0x81 0xff 0), r))
    × IsFirst
        (in_use (block_map 0x81 0xff 0))
        block_alloc_fail
        1
        (blocks_count tiny.super)
        (block_goal tiny 9)
        r
new_block2-IsFirst_example =
    new_block2-IsFirst tiny (block_map 0x81 0xff 0) 9 refl (omega (arith, tiny_count))
      (inr (omega arith))

raw_count : blocks_count raw.super ≡ 21
unfolding blocks_count
raw_count = refl

search_block-IsEnd_example : IsEnd raw.super (search_block raw 0 (block_map 0xff 0xff 0xff))
search_block-IsEnd_example =
    search_block-IsEnd raw (block_map 0xff 0xff 0xff) 0 (omega (arith, raw_count)) (inl refl)

raw-IsInTable : IsInTable raw 0
raw-IsInTable = record {
  wide = λ e. ground (arith, e);
  inside = omega arith;
  upper_inside = λ e. omega (arith, e);
}

raw_first : group_first_block2 raw 0 ≡ 1
unfolding group_first_block2
raw_first = refl

raw_table : inode_table_loc raw 0 ≡ 261
unfolding inode_table_loc cell_at
raw_table = refl

raw-IsSized : IsSized raw 0
raw-IsSized = record {
  first = omega (arith, raw_first);
  fits = omega (arith, raw_first);
  few = omega arith;
  some_descs = omega arith;
  few_descs = omega arith;
  table = omega (arith, raw_table);
}

check_block_uninit_lem_example :
    let map = block_map 0xff 0xff 0xff in
    let (fs', map') = check_block_uninit raw map 0 in
    ((is_uninit raw 0 block_uninit ≡ false) × (fs' ≡ raw) × (map' ≡ map))
    ⊎ ((is_uninit raw 0 block_uninit ≡ true)
        × IsInitialized raw fs' 0
        × ((m : ℕ)
            → (in_use map' m ≡ true) ↔ (
                ((in_run (group_first_block2 raw 0) 24 m ≡ true)
                  × (outside map m ≡ false)
                  × IsMetadata raw 0 m)
                ⊎ ((in_run (group_first_block2 raw 0) 24 m ≡ false) × (in_use map m ≡ true)))))
check_block_uninit_lem_example =
    check_block_uninit_lem raw (block_map 0xff 0xff 0xff) 0
      (block_map-IsValid 0xff 0xff 0xff (omega arith) (omega arith) (omega arith)) raw-IsInTable
      raw-IsSized (omega arith)

-- Blocks 1 and 8 are in use, and 10.
some_used : IsBlockMap tiny (block_map 0x81 0x02 0)
some_used = record {
  valid = block_map-IsValid 0x81 0x02 0 (omega arith) (omega arith) (omega arith);
  magic_ok = refl;
  start_ok = refl;
  end_ok = omega (arith, tiny_count);
}

get_free_blocks2-IsRunFound_example :
    IsRunFound tiny
      (block_map 0x81 0x02 0)
      some_used
      4
      (omega arith)
      (get_free_blocks2 46 tiny (block_map 0x81 0x02 0) 7 7 4)
get_free_blocks2-IsRunFound_example =
    get_free_blocks2-IsRunFound 46 tiny (block_map 0x81 0x02 0) some_used 7 7 4 (omega arith)
      (inr (omega arith)) (omega arith) (omega arith) (omega (arith, tiny_count))
      (omega (arith, tiny_count)) (omega (arith, tiny_count))

-- Where every block is in use, the block after the last is given as free.
beyond_the_end : get_free_blocks2 46 tiny (block_map 0xff 0xff 0x0f) 1 0 1 ≡ found 21
unfolding get_free_blocks2 free_blocks_loop test_block_range2 blocks_count test_generic_bitmap
    test_bit
beyond_the_end = refl
