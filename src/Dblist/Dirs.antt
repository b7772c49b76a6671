-- ===== src/Dblist/Dirs.antt =====
-- source/dblist.c: the number of directories.
use libext2fs.Prelude.{
  ℕ, zero, suc, ◌+◌, ◌≤◌, ◌<◌, ◌^◌, ◌≡◌, u32, ltb, ◌/◌, if◌then◌else◌, arith, ◌∙◌,
}
use libext2fs.Fs.{Filsys}
use libext2fs.GroupDesc.{bg_used_dirs_count}
use libext2fs.Dblist.{sum_dirs, get_num_dirs}

-- The directories that the groups from `i` on have, `left` of them.
abbrev pub total_dirs : Filsys → ℕ → ℕ → ℕ
total_dirs fs zero i = 0
total_dirs fs (suc left) i = bg_used_dirs_count fs i + total_dirs fs left (i + 1)

sum_dirs-eq-total :
    (fs : Filsys) (left i n : ℕ)
    → ((g : ℕ) → bg_used_dirs_count fs g ≤ fs.super.s_inodes_per_group)
    → n + total_dirs fs left i < 2 ^ 32
    → sum_dirs fs left i n ≡ n + total_dirs fs left i
unfolding sum_dirs
sum_dirs-eq-total fs zero i n h small = omega arith
sum_dirs-eq-total fs (suc left) i n h small =
    rw added (
      sum_dirs-eq-total fs left (i + 1) (n + bg_used_dirs_count fs i) h (omega arith) ∙ omega arith)
  where
    added :
        u32 (
          n
          + (if ltb fs.super.s_inodes_per_group (bg_used_dirs_count fs i)
              then fs.super.s_inodes_per_group / 8
              else bg_used_dirs_count fs i))
        ≡ n + bg_used_dirs_count fs i
    added = ground (arith, h i)

-- For a number of inodes of 32 bits, the number of directories is at most that of the inodes,
-- whatever the descriptors say; where no group has more directories than inodes, and the
-- directories of all groups are no more than the inodes of the file system, it is their sum.
pub get_num_dirs_lem :
    (fs : Filsys)
    → fs.super.s_inodes_count < 2 ^ 32
    → (get_num_dirs fs ≤ fs.super.s_inodes_count)
      × (((g : ℕ) → bg_used_dirs_count fs g ≤ fs.super.s_inodes_per_group)
          → total_dirs fs fs.group_desc_count 0 ≤ fs.super.s_inodes_count
          → get_num_dirs fs ≡ total_dirs fs fs.group_desc_count 0)
unfolding get_num_dirs
get_num_dirs_lem fs small = (
  ground arith,
  λ h most. ground (arith, most, sum_dirs-eq-total fs fs.group_desc_count 0 0 h (omega arith)),
)
