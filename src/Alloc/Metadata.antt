-- ===== src/Alloc/Metadata.antt =====
-- source/alloc.c: the blocks of a group that the file system itself takes.
use libext2fs.Prelude.{
  ℕ, ◌+◌, ◌^◌, ◌≤◌, ◌<◌, ◌≡◌, ◌⊎◌, ◌↔◌, inl, inr, refl, u32, u64, Bool, true, not, ◌||◌, ◌&&◌, ltb,
  leb, ◌==◌, arith, Bool-cases,
}
use libext2fs.Fs.{Filsys, desc_per_block}
use libext2fs.BlockCount.{group_first_block2}
use libext2fs.GroupDesc.{block_bitmap_loc, inode_bitmap_loc, inode_table_loc}
use libext2fs.Backups.{Locations, super_and_bgd_loc2}
use libext2fs.Backups.Layout.{old_desc_blocks, Taken, loc2_lem, old_desc_blk-le}
use libext2fs.Alloc.{is_metadata}

-- The first blocks of the group, as many as its superblock and descriptors take, the two bitmaps, and
-- the inode table.
abbrev pub IsMetadata : Filsys → ℕ → ℕ → Type 0
IsMetadata fs group m =
    ((group_first_block2 fs group ≤ m)
      × (m < group_first_block2 fs group + (super_and_bgd_loc2 fs group).used_blks))
    ⊎ ((m ≡ block_bitmap_loc fs group)
        ⊎ ((m ≡ inode_bitmap_loc fs group)
            ⊎ ((inode_table_loc fs group ≤ m)
                × (m < inode_table_loc fs group + fs.inode_blocks_per_group))))

-- The numbers of a group fit their words, and its first block is not 0.
pub record IsSized (fs : Filsys) (group : ℕ) : Type 0 where
  pub first : 1 ≤ group_first_block2 fs group
  pub fits : group_first_block2 fs group + 1 < 2 ^ 63
  pub few : old_desc_blocks fs + 1 < 2 ^ 32
  pub some_descs : 1 ≤ desc_per_block fs.super
  pub few_descs : desc_per_block fs.super < 2 ^ 32
  pub table : inode_table_loc fs group + fs.inode_blocks_per_group < 2 ^ 64

module _ (fs : Filsys) (group m : ℕ) (v : IsSized fs group) (some_block : 1 ≤ m) where
  abbrev l : Locations
  l = super_and_bgd_loc2 fs group

  abbrev in_front : Bool
  in_front =
      (m == l.super_blk)
      || ((not (l.old_desc_blk == 0)
            && (not (u32 (old_desc_blocks fs) == 0)
                && (leb l.old_desc_blk m
                    && ltb m (u64 (l.old_desc_blk + u32 (old_desc_blocks fs))))))
          || (not (l.new_desc_blk == 0) && (m == l.new_desc_blk)))

  front-Taken : in_front ≡ true → Taken fs l m
  front-Taken e = elim (Bool-cases (m == l.super_blk)) [
    | inl s ↦ inl (ground (arith, s), ground (arith, s))
    | inr s ↦ inr (elim (Bool-cases (not (l.new_desc_blk == 0) && (m == l.new_desc_blk))) [
      | inl n ↦ inr (ground (arith, n), ground (arith, n))
      | inr n ↦ inl (
        ground (arith, e, s, n),
        ground (arith, e, s, n),
        ground (arith, e, s, n, v.few, v.fits, old_desc_blk-le fs group v.first),
      )
    ])
  ]

  in_front_when : Taken fs l m → in_front ≡ true
  in_front_when t =
      ground (arith, t, v.few, v.fits, old_desc_blk-le fs group v.first (omega (arith, v.fits)))

  -- The first blocks of the group, by what the locations take.
  front_iff :
      (in_front ≡ true)
      ↔ ((group_first_block2 fs group ≤ m) × (m < group_first_block2 fs group + l.used_blks))
  front_iff =
      let (_, _, _, taken) =
        loc2_lem fs group v.first (omega (arith, v.fits)) v.few v.some_descs v.few_descs in
      (λ e. (taken m).0 (front-Taken e), λ r. in_front_when ((taken m).1 r))

  abbrev behind_front : Bool
  behind_front =
      (m == block_bitmap_loc fs group)
      || ((m == inode_bitmap_loc fs group)
          || (leb (inode_table_loc fs group) m
              && ltb m (u64 (inode_table_loc fs group + fs.inode_blocks_per_group))))

  is_metadata-eq : is_metadata fs group m ≡ (in_front || behind_front)
  unfolding is_metadata
  is_metadata-eq = ground arith

  behind_iff : (behind_front ≡ true) ↔ (
      (m ≡ block_bitmap_loc fs group)
      ⊎ ((m ≡ inode_bitmap_loc fs group)
          ⊎ ((inode_table_loc fs group ≤ m)
              × (m < inode_table_loc fs group + fs.inode_blocks_per_group))))
  behind_iff = (
    λ e. elim (Bool-cases (m == block_bitmap_loc fs group)) [
      | inl s ↦ inl (ground (arith, s))
      | inr s ↦ inr (elim (Bool-cases (m == inode_bitmap_loc fs group)) [
        | inl n ↦ inl (ground (arith, n))
        | inr n ↦ inr (ground (arith, e, s, n, v.table), ground (arith, e, s, n, v.table))
      ])
    ],
    λ t. ground (arith, t, v.table),
  )

  pub is_metadata_iff : (is_metadata fs group m ≡ true) ↔ IsMetadata fs group m
  is_metadata_iff = (
    λ e. elim (Bool-cases in_front) [
      | inl f ↦ inl (front_iff.0 f)
      | inr f ↦ inr (behind_iff.0 (ground (arith, e, f, is_metadata-eq)))
    ],
    λ t. elim t [
      | inl r ↦ rw (is_metadata-eq, front_iff.1 r) refl
      | inr r ↦ ground (arith, is_metadata-eq, behind_iff.1 r)
    ],
  )
