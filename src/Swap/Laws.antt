-- ===== src/Swap/Laws.antt =====
-- source/swapfs.c: swapping the byte order twice.
use libext2fs.Prelude.{
  ℕ, ◌+◌, ◌*◌, ◌/◌, ◌%◌, ◌^◌, ◌<◌, ◌≡◌, ◌<<<◌, ◌>>>◌, u16, u32, bit_and, bit_or, ◌==◌, ◌||◌, ltb,
  if◌then◌else◌, arith, Bool-cases, inl, inr, true, false,
}
use libext2fs.Bits.Fields.{bit_or_fields, bit_and_low, bit_and_shifted}
use libext2fs.Fs.{Filsys, Cell}
use libext2fs.Swap.{swab16, swab32, swap_lower, swap_upper, swap_group_desc2}

swab16_bytes : (x : ℕ) → x < 2 ^ 16 → swab16 x ≡ x % 256 * 256 + x / 256
unfolding swab16
swab16_bytes x h = omega (arith, bit_or_fields 8 (x / 2 ^ 8) x (omega arith))

pub swab16-swab16 : (x : ℕ) → x < 2 ^ 16 → swab16 (swab16 x) ≡ x
swab16-swab16 x h =
    omega (arith, swab16_bytes x h, swab16_bytes (swab16 x) (omega (arith, swab16_bytes x h)))

middle_low : (x : ℕ) → bit_and (x >>> 8) 0xFF00 ≡ x / 2 ^ 16 % 256 * 256
middle_low x = omega (arith, bit_and_shifted 8 (x / 2 ^ 8) 0xFF, bit_and_low 8 (x / 2 ^ 8 / 2 ^ 8))

middle_high : (x : ℕ) → bit_and (u32 (x <<< 8)) 0xFF0000 ≡ x / 2 ^ 8 % 256 * 2 ^ 16
middle_high x =
    omega (arith, bit_and_shifted 16 (u32 (x <<< 8)) 0xFF, bit_and_low 8 (u32 (x <<< 8) / 2 ^ 16))

swab32_bytes :
    (x : ℕ)
    → x < 2 ^ 32
    → swab32 x ≡ x / 2 ^ 24 + x / 2 ^ 16 % 256 * 2 ^ 8 + x / 2 ^ 8 % 256 * 2 ^ 16 + x % 256 * 2 ^ 24
unfolding swab32
swab32_bytes x h = rw (middle_low x, middle_high x, first, second, top) third
  where
    first : bit_or (x >>> 24) (x / 2 ^ 16 % 256 * 256) ≡ x / 2 ^ 24 + x / 2 ^ 16 % 256 * 2 ^ 8
    first = bit_or_fields 8 (x / 2 ^ 24) (x / 2 ^ 16 % 256) (omega arith)

    lower_half : ℕ
    lower_half = x / 2 ^ 24 + x / 2 ^ 16 % 256 * 2 ^ 8

    second : bit_or lower_half (x / 2 ^ 8 % 256 * 2 ^ 16) ≡ lower_half + x / 2 ^ 8 % 256 * 2 ^ 16
    second = bit_or_fields 16 lower_half (x / 2 ^ 8 % 256) (omega arith)

    top : (x * 2 ^ 24) % 2 ^ 32 ≡ x % 256 * 2 ^ 24
    top = omega arith

    third :
        bit_or (lower_half + x / 2 ^ 8 % 256 * 2 ^ 16) ((x % 256) <<< 24)
        ≡ lower_half + x / 2 ^ 8 % 256 * 2 ^ 16 + x % 256 * 2 ^ 24
    third = bit_or_fields 24 (lower_half + x / 2 ^ 8 % 256 * 2 ^ 16) (x % 256) (omega arith)

pub swab32-swab32 : (x : ℕ) → x < 2 ^ 32 → swab32 (swab32 x) ≡ x
swab32-swab32 x h =
    omega (arith, swab32_bytes x h, swab32_bytes (swab32 x) (omega (arith, swab32_bytes x h)))

-- A cell whose fields have their widths.
pub record IsCell (c : Cell) : Type 0 where
  pub block_bitmap : c.bg_block_bitmap < 2 ^ 32
  pub inode_bitmap : c.bg_inode_bitmap < 2 ^ 32
  pub inode_table : c.bg_inode_table < 2 ^ 32
  pub free_blocks : c.bg_free_blocks_count < 2 ^ 16
  pub free_inodes : c.bg_free_inodes_count < 2 ^ 16
  pub used_dirs : c.bg_used_dirs_count < 2 ^ 16
  pub flags : c.bg_flags < 2 ^ 16
  pub exclude_bitmap : c.bg_exclude_bitmap_lo < 2 ^ 32
  pub block_csum : c.bg_block_bitmap_csum_lo < 2 ^ 16
  pub inode_csum : c.bg_inode_bitmap_csum_lo < 2 ^ 16
  pub itable_unused : c.bg_itable_unused < 2 ^ 16
  pub checksum : c.bg_checksum < 2 ^ 16

swap_lower-swap_lower : (c : Cell) → IsCell c → swap_lower (swap_lower c) ≡ c
unfolding swap_lower
swap_lower-swap_lower c v i = record {
  bg_block_bitmap = swab32-swab32 c.bg_block_bitmap v.block_bitmap i;
  bg_inode_bitmap = swab32-swab32 c.bg_inode_bitmap v.inode_bitmap i;
  bg_inode_table = swab32-swab32 c.bg_inode_table v.inode_table i;
  bg_free_blocks_count = swab16-swab16 c.bg_free_blocks_count v.free_blocks i;
  bg_free_inodes_count = swab16-swab16 c.bg_free_inodes_count v.free_inodes i;
  bg_used_dirs_count = swab16-swab16 c.bg_used_dirs_count v.used_dirs i;
  bg_flags = swab16-swab16 c.bg_flags v.flags i;
  bg_exclude_bitmap_lo = swab32-swab32 c.bg_exclude_bitmap_lo v.exclude_bitmap i;
  bg_block_bitmap_csum_lo = swab16-swab16 c.bg_block_bitmap_csum_lo v.block_csum i;
  bg_inode_bitmap_csum_lo = swab16-swab16 c.bg_inode_bitmap_csum_lo v.inode_csum i;
  bg_itable_unused = swab16-swab16 c.bg_itable_unused v.itable_unused i;
  bg_checksum = swab16-swab16 c.bg_checksum v.checksum i;
}

swab16_again : (x : ℕ) → swab16 (u16 (swab16 (u16 x))) ≡ x % 2 ^ 16
swab16_again x = rw small (swab16-swab16 (u16 x) (omega arith))
  where
    small : u16 (swab16 (u16 x)) ≡ swab16 (u16 x)
    small = omega (arith, swab16_bytes (u16 x) (omega arith))

swap_upper-swap_upper :
    (c : Cell)
    → IsCell c
    → swap_upper (swap_upper c)
      ≡ record c { bg_exclude_bitmap_lo = c.bg_exclude_bitmap_lo % 2 ^ 16 }
unfolding swap_upper
swap_upper-swap_upper c v i = record c {
  bg_block_bitmap = swab32-swab32 c.bg_block_bitmap v.block_bitmap i;
  bg_inode_bitmap = swab32-swab32 c.bg_inode_bitmap v.inode_bitmap i;
  bg_inode_table = swab32-swab32 c.bg_inode_table v.inode_table i;
  bg_free_blocks_count = swab16-swab16 c.bg_free_blocks_count v.free_blocks i;
  bg_free_inodes_count = swab16-swab16 c.bg_free_inodes_count v.free_inodes i;
  bg_used_dirs_count = swab16-swab16 c.bg_used_dirs_count v.used_dirs i;
  bg_flags = swab16-swab16 c.bg_flags v.flags i;
  bg_exclude_bitmap_lo = swab16_again c.bg_exclude_bitmap_lo i;
  bg_block_bitmap_csum_lo = swab16-swab16 c.bg_block_bitmap_csum_lo v.block_csum i;
  bg_inode_bitmap_csum_lo = swab16-swab16 c.bg_inode_bitmap_csum_lo v.inode_csum i;
}

-- Swapping a descriptor whose fields fit their words twice restores it, but for the upper 16 bits
-- of the upper word of the exclude bitmap of a 64-byte descriptor, which are lost.
pub swap_group_desc2_twice :
    (fs : Filsys) (lo up : Cell)
    → IsCell lo
    → IsCell up
    → swap_group_desc2 fs (swap_group_desc2 fs (lo, up)) ≡ (
      lo,
      if ltb fs.super.s_desc_size 64
          then up
          else record up { bg_exclude_bitmap_lo = up.bg_exclude_bitmap_lo % 2 ^ 16 },
    )
unfolding swap_group_desc2
swap_group_desc2_twice fs lo up vl vu = elim (Bool-cases (ltb fs.super.s_desc_size 64)) [
  | inl e ↦ rw (narrow e, e) (λ i. (swap_lower-swap_lower lo vl i, up))
  | inr e ↦ rw (wide e, e) (λ i. (swap_lower-swap_lower lo vl i, swap_upper-swap_upper up vu i))
]
  where
    narrow :
        ltb fs.super.s_desc_size 64 ≡ true
        → ((fs.super.s_desc_size == 0) || ltb fs.super.s_desc_size 64) ≡ true
    narrow e = ground (arith, e)

    wide :
        ltb fs.super.s_desc_size 64 ≡ false
        → ((fs.super.s_desc_size == 0) || ltb fs.super.s_desc_size 64) ≡ false
    wide e = ground (arith, e)
