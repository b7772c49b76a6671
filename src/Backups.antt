-- ===== src/Backups.antt =====
-- source/closefs.c, source/sparse.c: which block groups keep copies of the superblock, and where the
-- superblock and the descriptors of a group lie.
pub mod Powers
pub mod Sequences
pub mod Walk
pub mod Layout
mod Tests
use libext2fs.Prelude.{
  ℕ, zero, suc, ◌+◌, ◌-◌, ◌*◌, ◌/◌, ◌%◌, u32, u64, sub32, Bool, true, false, not, ltb, ◌==◌, ◌&&◌,
  ◌||◌, if◌then◌else◌,
}
use libext2fs.Fs.{Filsys, has_incompat, has_ro_compat, sparse_super, meta_bg, desc_per_block}
use libext2fs.BlockCount.{group_first_block2, group_blocks_count}

-- The loop of `test_root`. The numbers are ints that are not negative; the fuel `a` is enough.
pub test_loop : ℕ → ℕ → ℕ → Bool
test_loop zero a b = false
test_loop (suc fuel) a b =
    let rest = test_loop fuel (a / b) b in
    if a == 1 then true else (if not (a % b == 0) then false else rest)

pub test_root : ℕ → ℕ → Bool
test_root a b = if a == 0 then true else test_loop a a b

pub bg_has_super : Filsys → ℕ → Bool
bg_has_super fs group =
    if not (has_ro_compat fs.super sparse_super)
    then true
    else test_root group 3 || (test_root group 5 || test_root group 7)

-- What `ext2fs_super_and_bgd_loc2` returns through its pointers.
pub record Locations : Type 0 where
  pub super_blk : ℕ
  pub old_desc_blk : ℕ
  pub new_desc_blk : ℕ
  pub used_blks : ℕ

pub super_and_bgd_loc2 : Filsys → ℕ → Locations
super_and_bgd_loc2 fs group =
    let first = group_first_block2 fs group in
    let group_block = if (first == 0) && (fs.blocksize == 1024) then 1 else first in
    let old_desc_blocks =
      if has_incompat fs.super meta_bg
      then fs.super.s_first_meta_bg
      else fs.desc_blocks + fs.super.s_reserved_gdt_blocks in
    let has_super = bg_has_super fs group in
    let numblocks = if has_super then 1 else 0 in
    let super_blk = if has_super then group_block else 0 in
    let meta_bg_size = desc_per_block fs.super in
    let at = group % meta_bg_size in
    if not (has_incompat fs.super meta_bg) || ltb (group / meta_bg_size) fs.super.s_first_meta_bg
    then record {
      super_blk = super_blk;
      old_desc_blk = if has_super then u64 (group_block + 1) else 0;
      new_desc_blk = 0;
      used_blks = if has_super then u32 (numblocks + old_desc_blocks) else numblocks;
    }
    else (if (at == 0) || ((at == 1) || (at == sub32 meta_bg_size 1))
        then record {
          super_blk = super_blk;
          old_desc_blk = 0;
          new_desc_blk = u64 (group_block + (if has_super then 1 else 0));
          used_blks = numblocks + 1;
        }
        else record {
          super_blk = super_blk;
          old_desc_blk = 0;
          new_desc_blk = 0;
          used_blks = numblocks;
        })

-- The three counters of a walk over the backups.
pub record Counters : Type 0 where
  pub three : ℕ
  pub five : ℕ
  pub seven : ℕ

-- The group and the counters afterwards; `min` points at the smallest counter.
pub list_backups : Filsys → Counters → ℕ × Counters
list_backups fs c =
    let min = if ltb c.five c.three then c.five else c.three in
    if not (has_ro_compat fs.super sparse_super)
    then (c.three, record c { three = u32 (c.three + 1) })
    else (if ltb c.seven min
        then (c.seven, record c { seven = u32 (c.seven * 7) })
        else (if ltb c.five c.three
            then (c.five, record c { five = u32 (c.five * 5) })
            else (c.three, record c { three = u32 (c.three * 3) })))
