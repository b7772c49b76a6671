-- ===== src/Bitmap/Tests.antt =====
-- Tests and witnesses for Bitmap.
use libext2fs.Prelude.{
  ℕ, zero, suc, ◌+◌, ◌≤◌, ◌<◌, ◌/◌, [], ◌∷◌, ◌≡◌, ◌↔◌, ◌⊎◌, refl, arith, true, false, not, ◌&&◌,
  ◌||◌, ◌==◌, truth, leb, none, some,
}
use libext2fs.Errors.{magic_block_bitmap, no_memory}
use libext2fs.Bitops.{byte, set_bit, clear_bit, test_bit}
use libext2fs.Bitops.Laws.{IsBytes}
use libext2fs.Bitmap.{
  Bitmap, made, failed, outside, test_generic_bitmap, mark_generic_bitmap, make_generic_bitmap,
  resize_generic_bitmap, clear_down, wipe, compare_generic_bitmap,
}
use libext2fs.Bitmap.Valid.{IsValid}
use libext2fs.Bitmap.Single.{test-mark}
use libext2fs.Bitmap.Make.{member-zero_byte, IsEmpty, make_lem}
use libext2fs.Bitmap.Resize.{IsPadded, resize_lem}
use libext2fs.Bitmap.Compare.{compare_iff}
use libext2fs.Bitmap.Ranges.{test_block_bitmap_range, mark_block_bitmap_range}
use libext2fs.Bitmap.Ranges.Marks.{in_range, test_block_range_iff, test-mark_range}

-- Blocks 1 to 20 with room up to 24; 1, 8 and 10 are in use.
abbrev blocks : Bitmap
blocks = record {
  magic = magic_block_bitmap;
  start = 1;
  end = 20;
  real_end = 24;
  bitmap = 0x81 ∷ 0x02 ∷ 0 ∷ [];
}

blocks-IsBytes : IsBytes blocks.bitmap
blocks-IsBytes zero = omega arith
blocks-IsBytes (suc zero) = omega arith
blocks-IsBytes (suc (suc zero)) = omega arith
blocks-IsBytes (suc (suc (suc i))) = omega arith

blocks-IsValid : IsValid blocks
blocks-IsValid = record {
  kind = refl;
  ends = omega arith;
  starts = omega arith;
  small = omega arith;
  room = omega arith;
  bytes = blocks-IsBytes;
}

nothing_beyond : IsPadded blocks
nothing_beyond j h = member-zero_byte blocks.bitmap j (empty_byte (j / 8) (omega arith))
  where
    empty_byte : (q : ℕ) → 2 ≤ q → byte blocks.bitmap q ≡ 0
    empty_byte zero l = absurd (omega arith)
    empty_byte (suc zero) l = absurd (omega arith)
    empty_byte (suc (suc zero)) l = refl
    empty_byte (suc (suc (suc q))) l = refl

-- Shrinking and growing again brings back block 14, which lay in the last byte of the smaller room.
abbrev regrown : Bitmap
regrown =
    (resize_generic_bitmap (some (0 ∷ 0 ∷ [])) magic_block_bitmap 20 24
      (resize_generic_bitmap (some []) magic_block_bitmap 11 11
        (mark_generic_bitmap blocks 14).1).1).1

stale_block : truth (test_generic_bitmap regrown 14) ≡ true
unfolding test_generic_bitmap mark_generic_bitmap resize_generic_bitmap clear_down wipe set_bit
    clear_bit test_bit
stale_block = refl

test_block_range_iff_example :
    (test_block_bitmap_range blocks 11 9 ≡ 1)
    ↔ ((i : ℕ) → i < 9 → truth (test_generic_bitmap blocks (11 + i)) ≡ false)
test_block_range_iff_example =
    test_block_range_iff blocks 11 9 blocks-IsValid refl (omega arith) (omega arith) (omega arith)
      (omega arith)

test-mark_range_example :
    IsValid (mark_block_bitmap_range blocks 5 12)
    × ((m : ℕ)
        → truth (test_generic_bitmap (mark_block_bitmap_range blocks 5 12) m)
          ≡ (in_range 5 12 m || truth (test_generic_bitmap blocks m)))
test-mark_range_example =
    test-mark_range blocks 5 12 blocks-IsValid (omega arith) (omega arith) (omega arith)
      (omega arith)

test-mark_example :
    truth (test_generic_bitmap (mark_generic_bitmap blocks 7).1 8)
    ≡ ((not (outside blocks 7) && ◌==◌ 7 8) || truth (test_generic_bitmap blocks 8))
test-mark_example = test-mark blocks blocks-IsValid 7 8

make_lem_example :
    ((true && true) ≡ true
      × ((bm : Bitmap) × (make_generic_bitmap true true magic_block_bitmap 1 20 24 none ≡ made bm)
          × (bm.start ≡ 1)
          × (bm.end ≡ 20)
          × IsEmpty bm))
    ⊎ ((true && true) ≡ false
        × (make_generic_bitmap true true magic_block_bitmap 1 20 24 none ≡ failed no_memory))
make_lem_example =
    make_lem true true magic_block_bitmap 1 20 24 refl (omega arith) (omega arith) (omega arith)

abbrev whole : Bitmap
whole = record blocks { bitmap = 0x81 ∷ 0x02 ∷ 0 ∷ 0 ∷ 0 ∷ 0 ∷ 0 ∷ 0 ∷ [] }

compare_iff_example : (compare_generic_bitmap magic_block_bitmap 5 blocks blocks ≡ 0) ↔ (
    ◌≡◌ {A = ℕ} 1 1
    × ◌≡◌ {A = ℕ} 20 20
    × ((m : ℕ) → test_generic_bitmap blocks m ≡ test_generic_bitmap blocks m))
compare_iff_example =
    compare_iff blocks blocks 5 blocks-IsValid blocks-IsValid refl (omega arith) (λ e. omega arith)

resize_lem_example :
    ((resize_generic_bitmap (some (9 ∷ 9 ∷ [])) magic_block_bitmap 30 40 blocks).0 ≡ 0)
    × IsValid (resize_generic_bitmap (some (9 ∷ 9 ∷ [])) magic_block_bitmap 30 40 blocks).1
    × ((m : ℕ)
        → truth (
            test_generic_bitmap
              (resize_generic_bitmap (some (9 ∷ 9 ∷ [])) magic_block_bitmap 30 40 blocks).1
              m)
          ≡ (leb m 30 && truth (test_generic_bitmap blocks m)))
resize_lem_example =
    resize_lem blocks blocks-IsValid 30 40 (omega arith) (omega arith) (omega arith) (9 ∷ 9 ∷ [])
      nothing_beyond (omega arith)
