-- ===== src/GroupDesc/Tests.antt =====
-- Descriptors of 64 bytes, and what goes wrong with shorter ones.
use libext2fs.Prelude.{◌^◌, ◌≡◌, ◌≢◌, refl, arith, inl}
use libext2fs.Fs.Samples.{large, small_super}
use libext2fs.GroupDesc.{
  block_bitmap_loc, block_bitmap_loc_set, bg_itable_unused_set, bg_free_blocks_count,
  bg_free_blocks_count_set, bg_flags, bg_flags_set, bg_flags_clear, bg_flags_test, bg_flags_zap,
}
use libext2fs.GroupDesc.Table.{cell_at, poke}
use libext2fs.GroupDesc.Slots.{IsInTable, free_blocks, itable_unused}
use libext2fs.GroupDesc.Laws.{number, store, get-put_self, get-put_other}

large-IsInTable : IsInTable large 1
large-IsInTable = record {
  wide = λ _. omega arith;
  inside = omega arith;
  upper_inside = λ _. omega arith;
}

flags_cases :
    (bg_flags (bg_flags_set large 1 3) 1 ≡ 3)
    × (bg_flags (bg_flags_clear (bg_flags_set large 1 3) 1 2) 1 ≡ 1)
    × (bg_flags_test (bg_flags_set large 1 3) 1 2 ≡ 2)
    × (bg_flags (bg_flags_zap (bg_flags_set large 1 3) 1) 1 ≡ 0)
unfolding bg_flags bg_flags_set bg_flags_clear bg_flags_test bg_flags_zap cell_at poke
flags_cases = (refl, refl, refl, refl)

get-put_self_example : bg_free_blocks_count (bg_free_blocks_count_set large 1 70000) 1 ≡ 70000
get-put_self_example = get-put_self free_blocks large 1 70000 large-IsInTable

get-put_other_example :
    bg_free_blocks_count (bg_itable_unused_set large 1 70000) 1 ≡ bg_free_blocks_count large 1
get-put_other_example =
    get-put_other (number free_blocks) (store itable_unused) large 1 1 70000 large-IsInTable
      (inl free_not_unused)
  where
    free_not_unused : number free_blocks ≢ number itable_unused
    free_not_unused e = cc

-- With the 64BIT feature over descriptors of 32 bytes, which `IsInTable` excludes, a store of one
-- group changes the next.
narrow_overlap :
    let narrow = record large { super = record small_super { s_feature_incompat = 0x82 } } in
    block_bitmap_loc (block_bitmap_loc_set narrow 0 (2 ^ 32)) 1 ≢ block_bitmap_loc narrow 1
unfolding block_bitmap_loc block_bitmap_loc_set cell_at poke
narrow_overlap h = omega arith
