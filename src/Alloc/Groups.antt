-- ===== src/Alloc/Groups.antt =====
-- source/alloc.c: the check of a group whose block bitmap is not initialized.
use libext2fs.Prelude.{
  ℕ, ◌+◌, ◌-◌, ◌*◌, ◌/◌, ◌^◌, ◌<◌, ◌≡◌, ◌≢◌, ◌⊎◌, ◌↔◌, inl, inr, refl, bit_and, true, false, not,
  ◌&&◌, arith, Bool-cases, ap, ◌∙◌,
}
use libext2fs.Bits.{bit_and_step}
use libext2fs.Bits.Fields.{bit_and-zero_right}
use libext2fs.Fs.{Filsys}
use libext2fs.BlockCount.{group_first_block2}
use libext2fs.GroupDesc.{group_desc, lower, bg_flags, bg_flags_clear, bg_flags_test}
use libext2fs.GroupDesc.Table.{length-poke, cell_at-poke}
use libext2fs.GroupDesc.Slots.{IsInTable, checksum}
use libext2fs.GroupDesc.Laws.{Field, flags, number, flags_clear, read, get-put_other}
use libext2fs.Csum.{group_desc_csum_set, group_desc_csum_verify}
use libext2fs.Csum.Laws.{group_desc_csum_set_lem}
use libext2fs.Bitmap.{Bitmap, outside}
use libext2fs.Bitmap.Valid.{IsValid}
use libext2fs.Alloc.{is_uninit, block_uninit, group_start, is_metadata, check_block_uninit}
use libext2fs.Alloc.Blocks.{in_use}
use libext2fs.Alloc.Uninit.{in_run, in_use-check_block_uninit}
use libext2fs.Alloc.Metadata.{IsMetadata, IsSized, is_metadata_iff}

-- The flag of an uninitialized block bitmap is gone after it was cleared.
masked : (y : ℕ) → bit_and (bit_and y (2 ^ 16 - 1 - block_uninit)) block_uninit ≡ 0
masked y =
    let z : ℕ = bit_and y 65533 in
    omega (
      arith,
      bit_and_step y 65533,
      bit_and_step (y / 2) 32766,
      bit_and_step z 2,
      bit_and_step (z / 2) 1,
      bit_and-zero_right (z / 2 / 2) (z / 2 / 2) (omega arith),
    )

module _ (fs : Filsys) (group : ℕ) where
  abbrev cleared : Filsys
  cleared = bg_flags_clear fs group block_uninit

  IsInTable-cleared : (other : ℕ) → IsInTable fs other → IsInTable cleared other
  unfolding bg_flags_clear
  IsInTable-cleared other h =
      let same =
        length-poke fs.group_desc (group_desc fs group)
          (λ c. record c { bg_flags = bit_and c.bg_flags (2 ^ 16 - 1 - block_uninit) }) in
      record {
        wide = h.wide;
        inside = rw same h.inside;
        upper_inside = λ w. rw same (h.upper_inside w);
      }

  flags-cleared : IsInTable fs group → bit_and (bg_flags cleared group) block_uninit ≡ 0
  unfolding bg_flags bg_flags_clear
  flags-cleared h = ground (
    arith,
    cell_at-poke fs.group_desc (group_desc fs group) (group_desc fs group)
        (λ c. record c { bg_flags = bit_and c.bg_flags (2 ^ 16 - 1 - block_uninit) }) h.inside,
    masked (lower fs group).bg_flags,
  )

-- The file system after the check of an uninitialized group: the flag is gone, the checksum verifies,
-- and the other fields of the descriptors are as before.
abbrev pub IsInitialized : Filsys → Filsys → ℕ → Type 0
IsInitialized fs fs' group =
    (is_uninit fs' group block_uninit ≡ false)
    × (group_desc_csum_verify fs' group ≡ 1)
    × ((k : Field) (other : ℕ)
        → IsInTable fs other
        → ((k ≢ flags) × (k ≢ number checksum)) ⊎ (group ≢ other)
        → read k fs' other ≡ read k fs other)

initialized :
    (fs : Filsys) (group : ℕ)
    → IsInTable fs group
    → IsInitialized fs (group_desc_csum_set (cleared fs group) group) group
initialized fs group h =
    let within : IsInTable (cleared fs group) group = IsInTable-cleared fs group group h in
    let (verified, frame) = group_desc_csum_set_lem (cleared fs group) group within.inside in
    (
      gone (frame flags group within (inl (λ e. flags_not_checksum e))),
      verified,
      λ k other inside ne.
          frame k other (IsInTable-cleared fs group other inside) (to_checksum k other ne)
          ∙ get-put_other k flags_clear fs group other block_uninit inside (to_flags k other ne),
    )
  where
    flags_not_checksum : flags ≢ number checksum
    flags_not_checksum e = cc

    to_checksum :
        (k : Field) (other : ℕ)
        → ((k ≢ flags) × (k ≢ number checksum)) ⊎ (group ≢ other)
        → (k ≢ number checksum) ⊎ (group ≢ other)
    to_checksum k other ne = elim ne [ inl (a, b) ↦ inl b | inr c ↦ inr c ]

    to_flags :
        (k : Field) (other : ℕ)
        → ((k ≢ flags) × (k ≢ number checksum)) ⊎ (group ≢ other)
        → (k ≢ flags) ⊎ (group ≢ other)
    to_flags k other ne = elim ne [ inl (a, b) ↦ inl a | inr c ↦ inr c ]

    gone :
        read flags (group_desc_csum_set (cleared fs group) group) group
          ≡ read flags (cleared fs group) group
        → is_uninit (group_desc_csum_set (cleared fs group) group) group block_uninit ≡ false
    gone same =
        let test : bg_flags_test (group_desc_csum_set (cleared fs group) group) group block_uninit
            ≡ 0 =
          unfold bg_flags_test in
          unfold bg_flags in
          (ap (λ (x : ℕ). bit_and x block_uninit) same ∙ flags-cleared fs group h) in
        ground (arith, test)

-- In a valid bitmap, for a group in the descriptor table, with the 64BIT feature of descriptors of
-- at least 64 bytes, with numbers that fit their words, a first block that is not 0 and block
-- numbers below 2^32: the check of a group that is not marked as uninitialized changes nothing. The
-- check of one that is takes the mark away, leaves a checksum that verifies and every other field
-- of the descriptors that the table has room for as it was. Of the group's blocks it then leaves in
-- use exactly those within the bitmap that are among the first blocks of the group that its
-- superblock and descriptors take, its two bitmaps and its inode table; the other numbers of the
-- bitmap stay.
pub check_block_uninit_lem :
    (fs : Filsys) (map : Bitmap) (group : ℕ)
    → IsValid map
    → IsInTable fs group
    → IsSized fs group
    → group * fs.super.s_blocks_per_group
        + fs.super.s_first_data_block
        + fs.super.s_blocks_per_group
      < 2 ^ 32
    → let (fs', map') = check_block_uninit fs map group in
      let size = fs.super.s_blocks_per_group in
      ((is_uninit fs group block_uninit ≡ false) × (fs' ≡ fs) × (map' ≡ map))
      ⊎ ((is_uninit fs group block_uninit ≡ true)
          × IsInitialized fs fs' group
          × ((m : ℕ)
              → (in_use map' m ≡ true) ↔ (
                  ((in_run (group_first_block2 fs group) size m ≡ true)
                    × (outside map m ≡ false)
                    × IsMetadata fs group m)
                  ⊎ ((in_run (group_first_block2 fs group) size m ≡ false)
                      × (in_use map m ≡ true)))))
check_block_uninit_lem fs map group v h sized bound =
    elim (Bool-cases (is_uninit fs group block_uninit)) [
      | inr e ↦ inl (e, ap (λ p. p.0) (untouched e), ap (λ p. p.1) (untouched e))
      | inl e ↦ inr (e, rw (touched e) (initialized fs group h), λ m. bits e m)
    ]
  where
    size : ℕ
    size = fs.super.s_blocks_per_group

    start : ℕ
    start = group_first_block2 fs group

    untouched :
        is_uninit fs group block_uninit ≡ false → check_block_uninit fs map group ≡ (fs, map)
    untouched e = unfold check_block_uninit in rw e refl

    touched :
        is_uninit fs group block_uninit ≡ true
        → (check_block_uninit fs map group).0 ≡ group_desc_csum_set (cleared fs group) group
    touched e = unfold check_block_uninit in rw e refl

    same_start : group_start fs group ≡ start
    same_start = unfold group_first_block2 in ground arith

    bits :
        is_uninit fs group block_uninit ≡ true
        → (m : ℕ)
        → (in_use (check_block_uninit fs map group).1 m ≡ true) ↔ (
            ((in_run start size m ≡ true) × (outside map m ≡ false) × IsMetadata fs group m)
            ⊎ ((in_run start size m ≡ false) × (in_use map m ≡ true)))
    bits e m = elim (Bool-cases (in_run start size m)) [
      | inl within ↦
          let meta = is_metadata_iff fs group m sized (ground (arith, within, sized.first)) in
          let result : in_use (check_block_uninit fs map group).1 m
              ≡ (is_metadata fs group m && not (outside map m)) =
            ground
              (arith, in_use-check_block_uninit fs map group m v bound, e, same_start, within) in
          (
            λ u.
                let both : (is_metadata fs group m && not (outside map m)) ≡ true =
                  rw result at u in
                inl (within, ground (arith, both), meta.0 (ground (arith, both))),
            λ t. elim t [
              | inl (_, near, md) ↦ rw (result, meta.1 md, near) refl
              | inr (out, _) ↦ absurd (ground (arith, out, within))
            ],
          )
      | inr out ↦
          let result : in_use (check_block_uninit fs map group).1 m ≡ in_use map m =
            ground (arith, in_use-check_block_uninit fs map group m v bound, e, same_start, out) in
          (
            λ u. inr (out, rw result at u),
            λ t. elim t [
              | inl (within, _, _) ↦ absurd (ground (arith, out, within))
              | inr (_, u) ↦ rw result u
            ],
          )
    ]
