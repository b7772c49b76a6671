-- ===== src/Bitmap/Ranges/Marks.antt =====
-- source/gen_bitmap.c: operations on a range of blocks, against those on one number.
use libext2fs.Prelude.{
  ℕ, zero, suc, ◌+◌, ◌-◌, ◌*◌, ◌^◌, ◌≤◌, ◌<◌, ◌≡◌, ◌↔◌, refl, ap, ◌∙◌, List, length, Bool, true,
  false, not, if◌then◌else◌, truth, ltb, leb, ◌||◌, ◌&&◌, arith,
}
use libext2fs.Errors.{magic_block_bitmap, magic_inode_bitmap}
use libext2fs.Bitops.{set_bit, clear_bit}
use libext2fs.Bitops.Laws.{
  member, member-lt, member-set_bit, member-clear_bit, length-set_bit, length-clear_bit,
  fast_set_bit_lem, fast_clear_bit_lem, IsBytes, set_bit-IsBytes, clear_bit-IsBytes,
}
use libext2fs.Bitmap.{Bitmap, test_generic_bitmap}
use libext2fs.Bitmap.Valid.{IsValid, truth-test}
use libext2fs.Bitmap.Ranges.{
  set_run, clear_run, last_of, mark_block_bitmap_range, unmark_block_bitmap_range,
  test_block_bitmap_range, test_inode_bitmap_range, test_clear_generic_bitmap_range,
}
use libext2fs.Bitmap.Ranges.Bytes.{none_of, none_of_iff}
use libext2fs.Bitmap.Ranges.Clear.{test_clear-eq-none_of}

-- What the byte-wise test says of a range within the limits.
module _ (bm : Bitmap) (first num : ℕ) (v : IsValid bm) (low : bm.start ≤ first)
    (within : first + num ≤ bm.end + 1) (fits : first + num < 2 ^ 32) where
  core_iff :
      (test_clear_generic_bitmap_range bm first num ≡ true)
      ↔ ((i : ℕ) → i < num → truth (test_generic_bitmap bm (first + i)) ≡ false)
  core_iff = rw (test_clear-eq-none_of bm first num v low fits) (
    λ h i hi. ground (arith, truth-test bm (first + i) v, free h i hi),
    λ h. (none_of_iff bm.bitmap (first - bm.start) num).1 (λ i hi. unmarked i hi (h i hi)),
  )
    where
      free :
          none_of bm.bitmap (first - bm.start) num ≡ true
          → (i : ℕ) → i < num
          → member bm.bitmap (first + i - bm.start) ≡ 0
      free h i hi =
          let e : first + i - bm.start ≡ first - bm.start + i = omega arith in
          rw e ((none_of_iff bm.bitmap (first - bm.start) num).0 h i hi)

      unmarked :
          (i : ℕ)
          → i < num
          → truth (test_generic_bitmap bm (first + i)) ≡ false
          → member bm.bitmap (first - bm.start + i) ≡ 0
      unmarked i hi h =
          let e : first - bm.start + i ≡ first + i - bm.start = omega arith in
          rw e (
            ground (arith, truth-test bm (first + i) v, member-lt bm.bitmap (first + i - bm.start)))

-- For a valid block bitmap and a range of at least one block within its limits and below 2^32 - 1,
-- the range test gives 1 exactly where the test of each of the blocks fails.
pub test_block_range_iff :
    (bm : Bitmap) (first num : ℕ)
    → IsValid bm
    → bm.magic ≡ magic_block_bitmap
    → bm.start ≤ first
    → 1 ≤ num
    → first + num ≤ bm.end + 1
    → first + num < 2 ^ 32
    → (test_block_bitmap_range bm first num ≡ 1)
      ↔ ((i : ℕ) → i < num → truth (test_generic_bitmap bm (first + i)) ≡ false)
unfolding test_block_bitmap_range last_of
test_block_range_iff bm first num v kind low some_numbers within fits = (
  λ h. (core_iff bm first num v low within fits).0 (ground (arith, kind, v.ends, h)),
  λ h. ground (arith, kind, v.ends, (core_iff bm first num v low within fits).1 h),
)

-- For a valid inode bitmap and a range of at least one inode within its limits and below 2^32 - 1,
-- the range test gives 1 exactly where the test of each of the inodes fails.
pub test_inode_range_iff :
    (bm : Bitmap) (first num : ℕ)
    → IsValid bm
    → bm.magic ≡ magic_inode_bitmap
    → bm.start ≤ first
    → 1 ≤ num
    → first + num ≤ bm.end + 1
    → first + num < 2 ^ 32
    → (test_inode_bitmap_range bm first num ≡ 1)
      ↔ ((i : ℕ) → i < num → truth (test_generic_bitmap bm (first + i)) ≡ false)
unfolding test_inode_bitmap_range last_of
test_inode_range_iff bm first num v kind low some_numbers within fits = (
  λ h. (core_iff bm first num v low within fits).0 (ground (arith, kind, v.ends, h)),
  λ h. ground (arith, kind, v.ends, (core_iff bm first num v low within fits).1 h),
)

abbrev pub in_range : ℕ → ℕ → ℕ → Bool
in_range at n m = leb at m && ltb m (at + n)

length-set_run : (n at : ℕ) (bytes : List ℕ) → length (set_run n at bytes) ≡ length bytes
unfolding set_run
length-set_run zero at bytes = refl
length-set_run (suc n) at bytes =
    length-set_run n (at + 1) _
    ∙ ap (length {A = ℕ}) (fast_set_bit_lem at bytes)
    ∙ length-set_bit at bytes

length-clear_run : (n at : ℕ) (bytes : List ℕ) → length (clear_run n at bytes) ≡ length bytes
unfolding clear_run
length-clear_run zero at bytes = refl
length-clear_run (suc n) at bytes =
    length-clear_run n (at + 1) _
    ∙ ap (length {A = ℕ}) (fast_clear_bit_lem at bytes)
    ∙ length-clear_bit at bytes

set_run-IsBytes : (n at : ℕ) (bytes : List ℕ) → IsBytes bytes → IsBytes (set_run n at bytes)
unfolding set_run
set_run-IsBytes zero at bytes h = h
set_run-IsBytes (suc n) at bytes h =
    rw (fast_set_bit_lem at bytes) (set_run-IsBytes n (at + 1) _ (set_bit-IsBytes at bytes h))

clear_run-IsBytes : (n at : ℕ) (bytes : List ℕ) → IsBytes bytes → IsBytes (clear_run n at bytes)
unfolding clear_run
clear_run-IsBytes zero at bytes h = h
clear_run-IsBytes (suc n) at bytes h =
    rw (fast_clear_bit_lem at bytes) (clear_run-IsBytes n (at + 1) _ (clear_bit-IsBytes at bytes h))

member-set_run :
    (n at : ℕ) (bytes : List ℕ) (m : ℕ)
    → at + n ≤ 8 * length bytes
    → member (set_run n at bytes) m ≡ (if in_range at n m then 1 else member bytes m)
unfolding set_run
member-set_run zero at bytes m h = ground arith
member-set_run (suc n) at bytes m h = rw (fast_set_bit_lem at bytes) (
    ground (
      arith,
      member-set_run n (at + 1) (set_bit at bytes).1 m (omega (arith, length-set_bit at bytes)),
      member-set_bit at bytes m (omega arith),
    ))

member-clear_run :
    (n at : ℕ) (bytes : List ℕ) (m : ℕ)
    → at + n ≤ 8 * length bytes
    → member (clear_run n at bytes) m ≡ (if in_range at n m then 0 else member bytes m)
unfolding clear_run
member-clear_run zero at bytes m h = ground arith
member-clear_run (suc n) at bytes m h = rw (fast_clear_bit_lem at bytes) (
    ground (
      arith,
      member-clear_run n (at + 1) (clear_bit at bytes).1 m
          (omega (arith, length-clear_bit at bytes)),
      member-clear_bit at bytes m (omega arith),
    ))

module _ (bm : Bitmap) (block num : ℕ) (v : IsValid bm) (low : bm.start ≤ block)
    (some_blocks : 1 ≤ num) (within : block + num ≤ bm.end + 1) (fits : block + num < 2 ^ 32) where
  with_run :
      (bytes : List ℕ)
      → IsBytes bytes
      → length bytes ≡ length bm.bitmap
      → IsValid (record bm { bitmap = bytes })
  with_run bytes h e = record {
    kind = v.kind;
    ends = v.ends;
    starts = v.starts;
    small = v.small;
    room = omega (arith, v.room, e);
    bytes = h;
  }

  inside : (ltb block bm.start || ltb bm.end (last_of block num)) ≡ false
  unfolding last_of
  inside = ground arith

  -- After a range of at least one block within the limits of a valid bitmap, and below 2^32 - 1, is
  -- marked, the bitmap is valid, and
  -- the tests that succeed are those of the range and those that did before.
  pub test-mark_range :
      IsValid (mark_block_bitmap_range bm block num)
      × ((m : ℕ)
          → truth (test_generic_bitmap (mark_block_bitmap_range bm block num) m)
            ≡ (in_range block num m || truth (test_generic_bitmap bm m)))
  unfolding mark_block_bitmap_range
  test-mark_range = rw inside (
    marked,
    λ m. ground (
      arith,
      v.room,
      v.ends,
      truth-test bm m v,
      truth-test (record bm { bitmap = set_run num (block - bm.start) bm.bitmap }) m marked,
      member-set_run num (block - bm.start) bm.bitmap (m - bm.start),
    ),
  )
    where
      marked : IsValid (record bm { bitmap = set_run num (block - bm.start) bm.bitmap })
      marked =
          with_run _ (set_run-IsBytes num (block - bm.start) bm.bitmap v.bytes)
            (length-set_run num (block - bm.start) bm.bitmap)

  -- After a range of at least one block within the limits of a valid bitmap, and below 2^32 - 1, is
  -- unmarked, the bitmap is valid,
  -- and the tests that succeed are those outside the range that did before.
  pub test-unmark_range :
      IsValid (unmark_block_bitmap_range bm block num)
      × ((m : ℕ)
          → truth (test_generic_bitmap (unmark_block_bitmap_range bm block num) m)
            ≡ (not (in_range block num m) && truth (test_generic_bitmap bm m)))
  unfolding unmark_block_bitmap_range
  test-unmark_range = rw inside (
    unmarked,
    λ m. ground (
      arith,
      v.room,
      v.ends,
      truth-test bm m v,
      truth-test (record bm { bitmap = clear_run num (block - bm.start) bm.bitmap }) m unmarked,
      member-clear_run num (block - bm.start) bm.bitmap (m - bm.start),
    ),
  )
    where
      unmarked : IsValid (record bm { bitmap = clear_run num (block - bm.start) bm.bitmap })
      unmarked =
          with_run _ (clear_run-IsBytes num (block - bm.start) bm.bitmap v.bytes)
            (length-clear_run num (block - bm.start) bm.bitmap)

-- The range test of a block bitmap gives 0 or 1.
pub test_block_range_bool :
    (bm : Bitmap) (first num : ℕ)
    → bm.magic ≡ magic_block_bitmap
    → truth (test_block_bitmap_range bm first num) ≡ true
    → test_block_bitmap_range bm first num ≡ 1
unfolding test_block_bitmap_range
test_block_range_bool bm first num e h = ground (arith, e, h)
