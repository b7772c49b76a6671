-- ===== src/Csum.antt =====
-- source/csum.c: the checksums of the group descriptors, on a big-endian machine (WORDS_BIGENDIAN).
pub mod Laws
mod Tests
use libext2fs.Prelude.{
  ℕ, ◌-◌, ◌/◌, ◌%◌, ◌^◌, u16, List, [], ◌∷◌, take, drop, ltb, ◌==◌, not, ◌&&◌, if◌then◌else◌,
}
use libext2fs.Fs.{Filsys, Cell, has_ro_compat, gdt_csum}
use libext2fs.Swap.{swab32, swap_group_desc2}
use libext2fs.Crc16.{crc16}
use libext2fs.GroupDesc.{lower, upper, bg_checksum, bg_checksum_set}

-- The memory of a number, before other bytes.
abbrev pub be16 : ℕ → List ℕ → List ℕ
be16 n rest = n / 2 ^ 8 % 2 ^ 8 ∷ n % 2 ^ 8 ∷ rest

abbrev pub be32 : ℕ → List ℕ → List ℕ
be32 n rest = n / 2 ^ 24 % 2 ^ 8 ∷ n / 2 ^ 16 % 2 ^ 8 ∷ n / 2 ^ 8 % 2 ^ 8 ∷ n % 2 ^ 8 ∷ rest

-- The memory of a cell.
abbrev pub cell_bytes : Cell → List ℕ → List ℕ
cell_bytes c rest = be32 c.bg_block_bitmap (
    be32 c.bg_inode_bitmap (
      be32 c.bg_inode_table (
        be16 c.bg_free_blocks_count (
          be16 c.bg_free_inodes_count (
            be16 c.bg_used_dirs_count (
              be16 c.bg_flags (
                be32 c.bg_exclude_bitmap_lo (
                  be16 c.bg_block_bitmap_csum_lo (
                    be16 c.bg_inode_bitmap_csum_lo
                      (be16 c.bg_itable_unused (be16 c.bg_checksum rest)))))))))))

-- `s_desc_size` between EXT2_MIN_DESC_SIZE and the size of a `struct ext4_group_desc`.
abbrev pub checked_size : Filsys → ℕ
checked_size fs =
    let size = if ltb fs.super.s_desc_size 32 then 32 else fs.super.s_desc_size in
    if ltb 64 size then 64 else size

unfoldable pub group_desc_csum : Filsys → ℕ → ℕ
group_desc_csum fs group =
    let (lo, up) = swap_group_desc2 fs (lower fs group, upper fs group) in
    let bytes = cell_bytes lo (cell_bytes up []) in
    let head =
      crc16 (crc16 (crc16 0xffff fs.super.s_uuid) (be32 (swab32 group) [])) (take 30 bytes) in
    if has_ro_compat fs.super gdt_csum
    then (if ltb 32 (checked_size fs)
        then crc16 head (take (checked_size fs - 32) (drop 32 bytes))
        else head)
    else 0

unfoldable pub group_desc_csum_verify : Filsys → ℕ → ℕ
group_desc_csum_verify fs group =
    if has_ro_compat fs.super gdt_csum && not (bg_checksum fs group == group_desc_csum fs group)
    then 0
    else 1

unfoldable pub group_desc_csum_set : Filsys → ℕ → Filsys
group_desc_csum_set fs group =
    if not (has_ro_compat fs.super gdt_csum)
    then fs
    else bg_checksum_set fs group (group_desc_csum fs group)
