-- ===== src/Alloc/Uninit.antt =====
-- source/alloc.c: block groups whose bitmap is not initialized.
use native.Mathlib.Decide.{ℕ_discrete}
use libext2fs.Prelude.{
  ==_iff, ne→==, ℕ, zero, suc, ◌+◌, ◌*◌, ◌^◌, ◌≤◌, ◌<◌, ◌≡◌, ◌≢◌, ◌⊎◌, refl, u64, Bool, false, not,
  ltb, leb, ◌==◌, ◌||◌, ◌&&◌, if◌then◌else◌, arith, Bool-cases, inl, inr, ap, ◌∙◌,
}
use libext2fs.Errors.{block_alloc_fail}
use libext2fs.Fs.{Super, Filsys}
use libext2fs.BlockCount.{blocks_count}
use libext2fs.GroupDesc.{bg_flags_clear, bg_checksum_set}
use libext2fs.Csum.{group_desc_csum_set}
use libext2fs.Bitmap.{Bitmap, outside, mark_generic_bitmap, unmark_generic_bitmap}
use libext2fs.Bitmap.Valid.{IsValid}
use libext2fs.Bitmap.Single.{
  test-mark, test-unmark, mark-IsValid, unmark-IsValid, outside-mark, outside-unmark,
}
use libext2fs.Alloc.{
  Outcome, found, failed, unfinished, advance, is_uninit, block_uninit, unmark_run, is_metadata,
  mark_metadata, group_start, check_block_uninit, check_at, starts_group, group_of, new_block_loop,
  block_goal, search_block,
}
use libext2fs.Alloc.Search.{to_go}
use libext2fs.Alloc.Blocks.{in_use}

-- A number among those from `first` on.
abbrev pub in_run : ℕ → ℕ → ℕ → Bool
in_run first num n = leb first n && ltb n (first + num)

-- Clearing a run of numbers that stay below 2^64.
module _ (m : ℕ) where
  in_use-unmark_run :
      (left n : ℕ) (map : Bitmap)
      → IsValid map
      → n + left < 2 ^ 64
      → in_use (unmark_run left n map) m ≡ (not (in_run n left m) && in_use map m)
  unfolding unmark_run
  in_use-unmark_run zero n map v h = ground arith
  in_use-unmark_run (suc left) n map v h =
      let next : u64 (n + 1) ≡ n + 1 = omega arith in
      rw next (
        ground (
          arith,
          in_use-unmark_run left (n + 1) (unmark_generic_bitmap map n).1 (unmark-IsValid map v n)
              (omega arith),
          test-unmark map v n m,
        ))

unmark_run-IsValid : (left n : ℕ) (map : Bitmap) → IsValid map → IsValid (unmark_run left n map)
unfolding unmark_run
unmark_run-IsValid zero n map v = v
unmark_run-IsValid (suc left) n map v =
    unmark_run-IsValid left (u64 (n + 1)) (unmark_generic_bitmap map n).1 (unmark-IsValid map v n)

outside-unmark_run :
    (left n : ℕ) (map : Bitmap) (m : ℕ) → outside (unmark_run left n map) m ≡ outside map m
unfolding unmark_run
outside-unmark_run zero n map m = refl
outside-unmark_run (suc left) n map m =
    outside-unmark_run left (u64 (n + 1)) (unmark_generic_bitmap map n).1 m ∙ outside-unmark map n m

module _ (fs : Filsys) (group m : ℕ) where
  in_use-mark_metadata :
      (left n : ℕ) (map : Bitmap)
      → IsValid map
      → n + left < 2 ^ 64
      → in_use (mark_metadata left fs group n map) m
        ≡ ((in_run n left m && (is_metadata fs group m && not (outside map m))) || in_use map m)
  unfolding mark_metadata
  in_use-mark_metadata zero n map v h = ground arith
  in_use-mark_metadata (suc left) n map v h =
      let next : u64 (n + 1) ≡ n + 1 = omega arith in
      rw next (elim (Bool-cases (is_metadata fs group n)) [
        | inl e ↦ rw e (
            ground (
              arith,
              e,
              in_use-mark_metadata left (n + 1) (mark_generic_bitmap map n).1 (mark-IsValid map v n)
                  (omega arith),
              test-mark map v n m,
              outside-mark map n m,
              ap (λ (k : ℕ). is_metadata fs group k) {x = n} {y = m},
              ap (λ (k : ℕ). outside map k) {x = n} {y = m},
            ))
        | inr e ↦ rw e (
            ground (
              arith,
              e,
              in_use-mark_metadata left (n + 1) map v (omega arith),
              ap (λ (k : ℕ). is_metadata fs group k) {x = n} {y = m},
            ))
      ])

-- What the check of a group leaves in use in a valid bitmap.
pub in_use-check_block_uninit :
    (fs : Filsys) (map : Bitmap) (group m : ℕ)
    → IsValid map
    → group * fs.super.s_blocks_per_group
        + fs.super.s_first_data_block
        + fs.super.s_blocks_per_group
      < 2 ^ 32
    → in_use (check_block_uninit fs map group).1 m ≡ (
        if is_uninit fs group block_uninit
          && in_run (group_start fs group) fs.super.s_blocks_per_group m
        then is_metadata fs group m && not (outside map m)
        else in_use map m)
unfolding check_block_uninit
in_use-check_block_uninit fs map group m v h = ground (
  arith,
  in_use-mark_metadata fs group m size first cleared (unmark_run-IsValid size first map v)
      (omega arith),
  in_use-unmark_run m size first map v (omega arith),
  outside-unmark_run size first map m,
)
  where
    size : ℕ
    size = fs.super.s_blocks_per_group

    first : ℕ
    first = group_start fs group

    cleared : Bitmap
    cleared = unmark_run size first map

super-check_block_uninit :
    (fs : Filsys) (map : Bitmap) (group : ℕ) → (check_block_uninit fs map group).0.super ≡ fs.super
unfolding check_block_uninit group_desc_csum_set bg_flags_clear bg_checksum_set
super-check_block_uninit fs map group = ground arith

super-check_at : (fs : Filsys) (map : Bitmap) (i : ℕ) → (check_at fs map i).0.super ≡ fs.super
super-check_at fs map i = elim (Bool-cases (starts_group fs i)) [
  | inl e ↦ rw e (super-check_block_uninit fs map (group_of fs i))
  | inr e ↦ rw e refl
]

-- What holds of the end of a search whatever the groups' flags are.
abbrev pub IsEnd : Super → Filsys × Bitmap × Outcome → Type 0
IsEnd sb (fs, map, found b) =
    (sb.s_first_data_block ≤ b) × (b < blocks_count sb) × (in_use map b ≡ false)
IsEnd sb (fs, map, failed e) = e ≡ block_alloc_fail
IsEnd sb (fs, map, unfinished) = ⊥

module _ (sb : Super) (goal : ℕ) (lo : sb.s_first_data_block ≤ goal)
    (hi : goal < blocks_count sb) where
  one_round :
      (i : ℕ) (fs : Filsys) (map : Bitmap) (next : ℕ) (rest : Filsys × Bitmap × Outcome)
      → sb.s_first_data_block ≤ i
      → i < blocks_count sb
      → (next ≢ goal → IsEnd sb rest)
      → IsEnd sb (
          if not (in_use map i)
          then (fs, map, found i)
          else if next == goal
          then (fs, map, failed block_alloc_fail)
          else rest)
  one_round i fs map next rest il ih more = elim (Bool-cases (in_use map i)) [
    | inr free ↦ rw free (il, ih, free)
    | inl busy ↦ rw busy (elim (ℕ_discrete next goal) [
      | yes e ↦ rw ((==_iff next goal).1 e) refl
      | no ne ↦ rw (ne→== next goal ne) (more ne)
    ])
  ]

  new_block_loop-IsEnd :
      (fuel : ℕ) (fs : Filsys) (map : Bitmap) (i : ℕ)
      → fs.super ≡ sb
      → sb.s_first_data_block ≤ i
      → i < blocks_count sb
      → to_go sb.s_first_data_block (blocks_count sb) goal i ≤ fuel
      → IsEnd sb (new_block_loop fuel fs map goal i)
  unfolding new_block_loop
  new_block_loop-IsEnd zero fs map i e il ih d = absurd (ground arith)
  new_block_loop-IsEnd (suc fuel) fs map i e il ih d =
      one_round i (check_at fs map i).0 (check_at fs map i).1 next _ il ih (λ ne.
        new_block_loop-IsEnd fuel (check_at fs map i).0 (check_at fs map i).1 next same
          (ground (arith, next_is)) (ground (arith, next_is)) (ground (arith, next_is, ne)))
    where
      same : (check_at fs map i).0.super ≡ sb
      same = super-check_at fs map i ∙ e

      next : ℕ
      next =
          advance (check_at fs map i).0.super.s_first_data_block
            (blocks_count (check_at fs map i).0.super) i

      next_is : next ≡ advance sb.s_first_data_block (blocks_count sb) i
      next_is = ap (λ (s : Super). advance s.s_first_data_block (blocks_count s) i) same

-- Whatever groups are uninitialized, in a file system with a block and for a goal that is 0 or not below
-- the first data block, `ext2fs_new_block2` ends, and a block that it gives is one of the file system and
-- is not in use in the bitmap as the call leaves it; otherwise the error is
-- EXT2_ET_BLOCK_ALLOC_FAIL.
pub search_block-IsEnd :
    (fs : Filsys) (map : Bitmap) (goal : ℕ)
    → fs.super.s_first_data_block < blocks_count fs.super
    → (goal ≡ 0) ⊎ (fs.super.s_first_data_block ≤ goal)
    → IsEnd fs.super (search_block fs goal map)
unfolding search_block
search_block-IsEnd fs map goal some_blocks ok =
    new_block_loop-IsEnd fs.super (block_goal fs goal) (ground (arith, ok)) (ground arith) _
      (check_block_uninit fs map (group_of fs (block_goal fs goal))).0
      (check_block_uninit fs map (group_of fs (block_goal fs goal))).1 (block_goal fs goal)
      (super-check_block_uninit fs map (group_of fs (block_goal fs goal))) (ground (arith, ok))
      (ground arith) (ground (arith, ok))
