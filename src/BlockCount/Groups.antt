-- ===== src/BlockCount/Groups.antt =====
-- Blocks and groups: the groups cut the blocks of the file system into consecutive runs.
use libext2fs.Prelude.{ℕ, zero, suc, ◌+◌, ◌-◌, ◌*◌, ◌/◌, ◌%◌, ◌^◌, ◌≤◌, ◌<◌, ◌≡◌, ◌↔◌, arith}
use libext2fs.Prelude.{if◌then◌else◌, ◌==◌, ◌∙◌, sub64, sym, ap}
use native.Mathlib.Nat.{mul-add-div_right, div-eq_of_lt, mod-add-div', mod-lt, div-lt_iff_lt-mul}
use native.Mathlib.Decide.{dec_lt}
use libext2fs.Bits.Fields.{mod_unique}
use libext2fs.Fs.{Filsys}
use libext2fs.BlockCount.{blocks_count, group_of_blk2, group_first_block2, group_last_block2}
use libext2fs.BlockCount.{group_blocks_count}

-- The numbers of a mounted file system: every block belongs to a group, no group is empty, and
-- the groups end below 2 ^ 64.
pub record IsGeometry (fs : Filsys) : Type 0 where
  pub some_blocks : 0 < fs.super.s_blocks_per_group
  pub group_fits : fs.super.s_blocks_per_group < 2 ^ 32
  pub some_groups : 0 < fs.group_desc_count
  pub groups_fit : fs.group_desc_count < 2 ^ 32
  pub last_used :
      fs.super.s_first_data_block + (fs.group_desc_count - 1) * fs.super.s_blocks_per_group
      < blocks_count fs.super
  pub covered :
      blocks_count fs.super
      ≤ fs.super.s_first_data_block + fs.group_desc_count * fs.super.s_blocks_per_group
  pub ends_fit :
      fs.super.s_first_data_block + fs.group_desc_count * fs.super.s_blocks_per_group < 2 ^ 64

-- A quotient is told by a remainder that fits.
div_unique : (n m q r : ℕ) → n ≡ q * m + r → r < m → n / m ≡ q
div_unique n m q r e h = rw e (mul-add-div_right {m = m} (omega arith) q r ∙ rest)
  where
    rest : q + r / m ≡ q
    rest = omega (arith, div-eq_of_lt h)

mul_below : (g n p : ℕ) → g < n → g * p + p ≤ n * p
mul_below g n p h = grind arith

mul_mono : (g n p : ℕ) → g ≤ n → g * p ≤ n * p
mul_mono g n p h = grind arith

pred_mul : (n p : ℕ) → 0 < n → n * p ≡ (n - 1) * p + p
pred_mul zero p h = elim h [ ]
pred_mul (suc n) p h = grind arith

-- A remainder that counts a last, perhaps full, part.
last_part : (n q p : ℕ) → q * p < n → n ≤ q * p + p → (if n % p == 0 then p else n % p) ≡ n - q * p
last_part n q p lo hi = elim (dec_lt (n - q * p) p) [
  | yes h ↦ ground (arith, mod_unique n p q (n - q * p) (omega arith) h)
  | no h ↦ ground (arith, mod_unique n p (q + 1) 0 (grind arith) (grind arith))
]

module _ (fs : Filsys) (w : IsGeometry fs) where
  open fs use {super, group_desc_count}
  open super use {s_first_data_block, s_blocks_per_group}

  first_lem :
      (g : ℕ)
      → g < group_desc_count
      → group_first_block2 fs g ≡ s_first_data_block + g * s_blocks_per_group
  unfolding group_first_block2
  first_lem g h = omega (arith, mul_below g group_desc_count s_blocks_per_group h, w.ends_fit)

  -- The last group ends with the file system, any other just below its successor.
  last_lem :
      (g : ℕ)
      → g < group_desc_count
      → group_last_block2 fs g + 1 ≡ (
          if g == group_desc_count - 1
          then blocks_count super
          else s_first_data_block + g * s_blocks_per_group + s_blocks_per_group)
  unfolding group_last_block2
  last_lem g h = ground (
    arith,
    first_lem g h,
    mul_below g group_desc_count s_blocks_per_group h,
    w.some_blocks,
    w.group_fits,
    w.some_groups,
    w.groups_fit,
    w.last_used,
    w.covered,
    w.ends_fit,
  )

  of_blk_lem :
      (blk : ℕ)
      → s_first_data_block ≤ blk
      → blk < blocks_count super
      → group_of_blk2 fs blk ≡ (blk - s_first_data_block) / s_blocks_per_group
  unfolding group_of_blk2
  of_blk_lem blk lo hi = rw no_wrap (omega (arith, below_groups, w.groups_fit))
    where
      no_wrap : sub64 blk s_first_data_block ≡ blk - s_first_data_block
      no_wrap = omega (arith, w.covered, w.ends_fit)

      below_groups : (blk - s_first_data_block) / s_blocks_per_group < group_desc_count
      below_groups = (div-lt_iff_lt-mul w.some_blocks).1 (omega (arith, w.covered))

  last_run :
      group_desc_count * s_blocks_per_group
      ≡ (group_desc_count - 1) * s_blocks_per_group + s_blocks_per_group
  last_run = pred_mul group_desc_count s_blocks_per_group w.some_groups

  in_group :
      (g blk : ℕ)
      → g < group_desc_count
      → group_first_block2 fs g ≤ blk
      → blk ≤ group_last_block2 fs g
      → (s_first_data_block + g * s_blocks_per_group ≤ blk)
        × (blk < s_first_data_block + g * s_blocks_per_group + s_blocks_per_group)
        × (blk < blocks_count super)
  in_group g blk h lo hi = ground (
    arith,
    first_lem g h,
    last_lem g h,
    last_run,
    w.last_used,
    w.covered,
    mul_below g (group_desc_count - 1) s_blocks_per_group,
  )

  -- For a group of a file system whose groups cover its blocks, the last one not empty, with
  -- numbers that fit their words: the blocks from the group's first to its last are the blocks of
  -- the file system that `ext2fs_group_of_blk2` puts into that group.
  pub group_of_blk2_iff :
      (g blk : ℕ)
      → g < group_desc_count
      → (group_first_block2 fs g ≤ blk) × (blk ≤ group_last_block2 fs g)
        ↔ (s_first_data_block ≤ blk) × (blk < blocks_count super) × (group_of_blk2 fs blk ≡ g)
  group_of_blk2_iff g blk h = (to, from)
    where
      to :
          (group_first_block2 fs g ≤ blk) × (blk ≤ group_last_block2 fs g)
          → (s_first_data_block ≤ blk) × (blk < blocks_count super) × (group_of_blk2 fs blk ≡ g)
      to (lo, hi) =
          let (above, below, used) = in_group g blk h lo hi in
          let placed =
            div_unique (blk - s_first_data_block) s_blocks_per_group g
              (blk - s_first_data_block - g * s_blocks_per_group) (omega arith) (omega arith) in
          (omega arith, used, of_blk_lem blk (omega arith) used ∙ placed)

      from :
          (s_first_data_block ≤ blk) × (blk < blocks_count super) × (group_of_blk2 fs blk ≡ g)
          → (group_first_block2 fs g ≤ blk) × (blk ≤ group_last_block2 fs g)
      from (lo, hi, e) =
          let quotient : (blk - s_first_data_block) / s_blocks_per_group ≡ g =
            sym (of_blk_lem blk lo hi) ∙ e in
          let split : (blk - s_first_data_block) % s_blocks_per_group + g * s_blocks_per_group
              ≡ blk - s_first_data_block =
            ap (λ (t : ℕ). (blk - s_first_data_block) % s_blocks_per_group + t * s_blocks_per_group)
              (sym quotient)
            ∙ mod-add-div' (blk - s_first_data_block) s_blocks_per_group in
          let small = mod-lt (blk - s_first_data_block) w.some_blocks in
          ground (arith, first_lem g h, last_lem g h, split, small)

  -- The remainder that stands for the last group's size, 0 for a full group.
  last_count :
      (if sub64 (blocks_count super) s_first_data_block % s_blocks_per_group == 0
        then s_blocks_per_group
        else sub64 (blocks_count super) s_first_data_block % s_blocks_per_group)
      ≡ blocks_count super - s_first_data_block - (group_desc_count - 1) * s_blocks_per_group
  last_count = ground (
    arith,
    last_part (blocks_count super - s_first_data_block) (group_desc_count - 1) s_blocks_per_group,
    last_run,
    w.last_used,
    w.covered,
    w.ends_fit,
  )

  -- A group holds as many blocks as `ext2fs_group_blocks_count` says.
  pub group_blocks_count_lem :
      (g : ℕ)
      → g < group_desc_count
      → group_first_block2 fs g + group_blocks_count fs g ≡ group_last_block2 fs g + 1
  unfolding group_blocks_count
  group_blocks_count_lem g h = ground (
    arith,
    first_lem g h,
    last_lem g h,
    last_run,
    w.some_groups,
    w.groups_fit,
    w.last_used,
    w.covered,
    w.ends_fit,
    w.some_blocks,
    last_count,
  )
