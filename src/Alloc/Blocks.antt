-- ===== src/Alloc/Blocks.antt =====
-- source/alloc.c: `ext2fs_new_block2` and `ext2fs_new_inode`.
use libext2fs.Prelude.{
  ℕ, zero, suc, ◌-◌, ◌≤◌, ◌<◌, ◌≡◌, ◌⊎◌, refl, Bool, true, false, not, truth, ◌==◌, if◌then◌else◌,
  arith, Bool-cases, inl, inr, some,
}
use libext2fs.Errors.{block_alloc_fail}
use libext2fs.Fs.{Filsys, has_ro_compat, gdt_csum}
use libext2fs.BlockCount.{blocks_count}
use libext2fs.Bitmap.{Bitmap, test_generic_bitmap}
use libext2fs.Alloc.{
  Outcome, advance, check_block_uninit, check_at, starts_group, group_of, new_block_loop,
  block_goal, search_block, new_block2,
}
use libext2fs.Alloc.Search.{circle, IsFirst, circle-IsFirst}

-- The numbers that a bitmap marks.
abbrev pub in_use : Bitmap → ℕ → Bool
in_use map n = truth (test_generic_bitmap map n)

-- The three ends of a round, of which a state that stays the same is a part.
pull :
    {X : Type 0} (f : Outcome → X) (used last : Bool) (a b c : Outcome)
    → Path X
        (if not used then f a else if last then f b else f c)
        (f (if not used then a else if last then b else c))
pull f false last a b c = refl
pull f true true a b c = refl
pull f true false a b c = refl

module _ (fs : Filsys) (map : Bitmap) (plain : has_ro_compat fs.super gdt_csum ≡ false) where
  -- Without group checksums no group is uninitialized.
  check_block_uninit_plain : (group : ℕ) → check_block_uninit fs map group ≡ (fs, map)
  unfolding check_block_uninit
  check_block_uninit_plain group = rw plain refl

  check_at_plain : (i : ℕ) → check_at fs map i ≡ (fs, map)
  check_at_plain i = elim (Bool-cases (starts_group fs i)) [
    | inl e ↦ rw e (check_block_uninit_plain (group_of fs i))
    | inr e ↦ rw e refl
  ]

  new_block_loop-eq-circle :
      (fuel goal i : ℕ)
      → new_block_loop fuel fs map goal i ≡ (
        fs,
        map,
        circle
            (in_use map)
            block_alloc_fail
            fs.super.s_first_data_block
            (blocks_count fs.super)
            fuel
            goal
            i,
      )
  unfolding new_block_loop circle
  new_block_loop-eq-circle zero goal i = refl
  new_block_loop-eq-circle (suc fuel) goal i = rw (check_at_plain i) (
      rw
        (new_block_loop-eq-circle fuel goal
          (advance fs.super.s_first_data_block (blocks_count fs.super) i))
        (pull (λ r. (fs, map, r)) (in_use map i)
          (advance fs.super.s_first_data_block (blocks_count fs.super) i == goal) _ _ _))

  search_block-eq-circle :
      (goal : ℕ)
      → search_block fs goal map ≡ (
        fs,
        map,
        circle
            (in_use map)
            block_alloc_fail
            fs.super.s_first_data_block
            (blocks_count fs.super)
            (blocks_count fs.super - fs.super.s_first_data_block)
            (block_goal fs goal)
            (block_goal fs goal),
      )
  unfolding search_block
  search_block-eq-circle goal = rw (check_block_uninit_plain (group_of fs (block_goal fs goal))) (
      new_block_loop-eq-circle (blocks_count fs.super - fs.super.s_first_data_block)
        (block_goal fs goal) (block_goal fs goal))

-- Without the feature of group checksums and with a bitmap, `ext2fs_new_block2` changes nothing and
-- gives the first block that is not in use in cyclic order from the goal, or from the first data block
-- where the goal is 0 or too large, if the goal is not a number from 1 to below the first data block and
-- the file system has a block; or every block of the file system is in use, and the error
-- says so.
pub new_block2-IsFirst :
    (fs : Filsys) (map : Bitmap) (goal : ℕ)
    → has_ro_compat fs.super gdt_csum ≡ false
    → fs.super.s_first_data_block < blocks_count fs.super
    → (goal ≡ 0) ⊎ (fs.super.s_first_data_block ≤ goal)
    → (r : Outcome) × (new_block2 fs goal (some map) ≡ (fs, some map, r))
      × IsFirst
          (in_use map)
          block_alloc_fail
          fs.super.s_first_data_block
          (blocks_count fs.super)
          (block_goal fs goal)
          r
unfolding new_block2
new_block2-IsFirst fs map goal plain some_blocks ok =
    rw (search_block-eq-circle fs map plain goal) (
      _,
      refl,
      circle-IsFirst (in_use map) block_alloc_fail fs.super.s_first_data_block
          (blocks_count fs.super) (block_goal fs goal) (ground (arith, ok)) (ground arith) _
          (block_goal fs goal) (ground (arith, ok)) (ground arith) (ground (arith, ok))
          (λ k a b c. absurd (ground (arith, c))),
    )
