-- ===== src/Alloc/Runs.antt =====
-- source/alloc.c: `ext2fs_get_free_blocks2`.
use native.Mathlib.Decide.{ℕ_discrete}
use libext2fs.Prelude.{
  ℕ, zero, suc, ◌+◌, ◌-◌, ◌*◌, ◌^◌, ◌≤◌, ◌<◌, ◌≡◌, ◌⊎◌, refl, u64, true, false, truth, ltb, ◌==◌,
  if◌then◌else◌, arith, Bool-cases, inl, inr, ap, ==_iff, ne→==,
}
use libext2fs.Errors.{block_alloc_fail, magic_block_bitmap}
use libext2fs.Fs.{Filsys}
use libext2fs.BlockCount.{blocks_count}
use libext2fs.Bitmap.{Bitmap}
use libext2fs.Bitmap.Valid.{IsValid}
use libext2fs.Bitmap.Ranges.Marks.{test_block_range_iff, test_block_range_bool}
use libext2fs.Alloc.{
  Outcome, found, failed, unfinished, test_block_range2, free_blocks_loop, get_free_blocks2,
}
use libext2fs.Alloc.Blocks.{in_use}

-- A valid bitmap of the blocks of a file system.
pub record IsBlockMap (fs : Filsys) (map : Bitmap) : Type 0 where
  pub valid : IsValid map
  pub magic_ok : map.magic ≡ magic_block_bitmap
  pub start_ok : map.start ≡ fs.super.s_first_data_block
  pub end_ok : map.end + 1 ≡ blocks_count fs.super

module _ (fs : Filsys) (map : Bitmap) (v : IsBlockMap fs map) (num : ℕ)
    (some_blocks : 1 ≤ num) where
  -- A run that the test accepts and that ends inside the file system has no block in use.
  accepted_run :
      (b : ℕ)
      → truth (test_block_range2 map b num) ≡ true
      → fs.super.s_first_data_block ≤ b
      → b + num ≤ blocks_count fs.super
      → b + num < 2 ^ 32
      → (i : ℕ) → i < num
      → in_use map (b + i) ≡ false
  unfolding test_block_range2
  accepted_run b t lo hi small i h = elim (ℕ_discrete num 1) [
    | yes one ↦ single one (let same : b ≡ b + i = omega arith in same) t
    | no more ↦
        (test_block_range_iff map b num v.valid v.magic_ok (omega (arith, v.start_ok)) some_blocks
            (omega (arith, v.end_ok)) small).0
          (test_block_range_bool map b num v.magic_ok (ground (arith, t, small, more))) i h
  ]
    where
      single :
          num ≡ 1
          → b ≡ b + i
          → truth (test_block_range2 map b num) ≡ true
          → in_use map (b + i) ≡ false
      single one same t = ground (arith, t, ap (in_use map) same)

  -- What the search may give.
  abbrev pub IsRunFound : Outcome → Type 0
  IsRunFound (found b) =
      (fs.super.s_first_data_block ≤ b)
      × (b + num ≤ blocks_count fs.super + 1)
      × (b + num ≤ blocks_count fs.super → (i : ℕ) → i < num → in_use map (b + i) ≡ false)
  IsRunFound (failed e) = e ≡ block_alloc_fail
  IsRunFound unfinished = ⊥

  module _ (finish : ℕ) (lo : fs.super.s_first_data_block < finish)
      (hi : finish + num ≤ blocks_count fs.super + 2)
      (small : blocks_count fs.super + num < 2 ^ 31) where
    -- Where a round looks, and how many rounds there are from there.
    abbrev wrapped : ℕ → ℕ
    wrapped b = if ltb (blocks_count fs.super) (b + num - 1) then fs.super.s_first_data_block else b

    abbrev rounds : ℕ → ℕ
    rounds b =
        if ltb b finish
        then finish - b
        else blocks_count fs.super + 2 - num - b + (finish - fs.super.s_first_data_block)

    free_blocks_loop-IsRunFound :
        (fuel b : ℕ)
        → fs.super.s_first_data_block ≤ b
        → b < 2 ^ 63
        → rounds (wrapped b) ≤ fuel
        → IsRunFound (free_blocks_loop fuel fs map num finish b)
    unfolding free_blocks_loop
    free_blocks_loop-IsRunFound zero b bl bh d = absurd (ground arith)
    free_blocks_loop-IsRunFound (suc fuel) b bl bh d =
        rw whole (elim (Bool-cases (truth (test_block_range2 map (wrapped b) num))) [
          | inl t ↦ rw t (
            ground arith,
            ground arith,
            λ h. accepted_run (wrapped b) t (ground arith) h (ground arith),
          )
          | inr t ↦ rw t (elim (ℕ_discrete (wrapped b + 1) finish) [
            | yes e ↦ rw ((==_iff (wrapped b + 1) finish).1 e) refl
            | no ne ↦ rw (ne→== (wrapped b + 1) finish ne) (
                free_blocks_loop-IsRunFound fuel (wrapped b + 1) (ground arith) (ground arith)
                  (ground (arith, ne)))
          ])
        ])
      where
        whole : u64 (b + num - 1) ≡ b + num - 1
        whole = omega arith

-- A search for a run of at least one block ends within 2 * (blocks + 2) rounds, in a valid bitmap of the
-- blocks of the file system, if the number of blocks and the length of the run are below 2^31 together,
-- the start is 0 or not below the first data block and is below 2^63, and the block to stop at is above
-- the first data block and at most one behind the last place where a run ends with the block after the
-- last. A run that it gives starts in the file system and ends there, with all its blocks free, or ends
-- with the block after the last; otherwise the error is EXT2_ET_BLOCK_ALLOC_FAIL.
pub get_free_blocks2-IsRunFound :
    (fuel : ℕ) (fs : Filsys) (map : Bitmap) (v : IsBlockMap fs map) (start finish num : ℕ)
    (some_blocks : 1 ≤ num)
    → (start ≡ 0) ⊎ (fs.super.s_first_data_block ≤ start)
    → start < 2 ^ 63
    → fs.super.s_first_data_block < finish
    → finish + num ≤ blocks_count fs.super + 2
    → blocks_count fs.super + num < 2 ^ 31
    → 2 * (blocks_count fs.super + 2) ≤ fuel
    → IsRunFound fs map v num some_blocks (get_free_blocks2 fuel fs map start finish num)
unfolding get_free_blocks2
get_free_blocks2-IsRunFound fuel fs map v start finish num some_blocks ok bound lo hi small enough =
    rw (ne→== num 0 (omega arith), ne→== finish 0 (omega arith))
      (free_blocks_loop-IsRunFound fs map v num some_blocks finish lo hi small fuel
        (if start == 0 then fs.super.s_first_data_block else start) (ground (arith, ok))
        (ground arith) (ground (arith, ok)))
