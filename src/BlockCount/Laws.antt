-- ===== src/BlockCount/Laws.antt =====
-- Laws of the block counts, which are kept as two halves.
use libext2fs.Prelude.{ℕ, ◌+◌, ◌^◌, ◌<◌, ◌<<<◌, ◌>>>◌, u32, u64}
use libext2fs.Prelude.{bit_or}
use libext2fs.Prelude.{if◌then◌else◌, ◌≡◌, arith}
use libext2fs.Bits.Fields.{bit_or_fields, bit_or-zero_right}
use libext2fs.Fs.{Super, has_incompat, incompat_64bit}
use libext2fs.BlockCount.{blocks_count, blocks_count_set, r_blocks_count, r_blocks_count_set}
use libext2fs.BlockCount.{free_blocks_count, free_blocks_count_set, free_blocks_count_add}

-- A 64-bit number is its two 32-bit halves.
pub join_halves : (n : ℕ) → n < 2 ^ 64 → bit_or (u32 n) (u32 (n >>> 32) <<< 32) ≡ n
join_halves n h = omega (arith, bit_or_fields 32 (u32 n) (u32 (n >>> 32)) (omega arith))

-- What a count can hold: 64 bits with the 64BIT feature, else 32.
abbrev pub held : Super → ℕ → ℕ
held sb n = if has_incompat sb incompat_64bit then n else u32 n

-- Each of the three counts reads back what was set, cut to 32 bits without the 64BIT feature, and
-- setting it leaves the other two as they were.
pub counts_roundtrip :
    (sb : Super) (n : ℕ)
    → n < 2 ^ 64
    → (blocks_count (blocks_count_set sb n) ≡ held sb n)
      × (r_blocks_count (r_blocks_count_set sb n) ≡ held sb n)
      × (free_blocks_count (free_blocks_count_set sb n) ≡ held sb n)
      × (r_blocks_count (blocks_count_set sb n) ≡ r_blocks_count sb)
      × (free_blocks_count (blocks_count_set sb n) ≡ free_blocks_count sb)
      × (blocks_count (r_blocks_count_set sb n) ≡ blocks_count sb)
      × (free_blocks_count (r_blocks_count_set sb n) ≡ free_blocks_count sb)
      × (blocks_count (free_blocks_count_set sb n) ≡ blocks_count sb)
      × (r_blocks_count (free_blocks_count_set sb n) ≡ r_blocks_count sb)
unfolding blocks_count blocks_count_set r_blocks_count r_blocks_count_set free_blocks_count
    free_blocks_count_set
counts_roundtrip sb n h = ground (arith, join_halves n h, bit_or-zero_right (u32 n))

-- Adding to the free count and then adding the complement gives the count back, across every wrap:
-- `ext2fs_block_alloc_stats2` takes blocks away by adding a negative number.
pub free_blocks_count_add_undo :
    (sb : Super) (n m : ℕ)
    → sb.s_free_blocks_count < 2 ^ 32
    → sb.s_free_blocks_hi < 2 ^ 32
    → n + m ≡ 2 ^ 64
    → free_blocks_count (free_blocks_count_add (free_blocks_count_add sb n) m)
      ≡ free_blocks_count sb
unfolding free_blocks_count_add free_blocks_count free_blocks_count_set
free_blocks_count_add_undo sb n m lo hi e = ground (
  arith,
  bit_or_fields 32 sb.s_free_blocks_count sb.s_free_blocks_hi lo,
  bit_or-zero_right sb.s_free_blocks_count,
  join_halves (u64 (bit_or sb.s_free_blocks_count (sb.s_free_blocks_hi <<< 32) + n)) (omega arith),
  join_halves (u64 (u64 (bit_or sb.s_free_blocks_count (sb.s_free_blocks_hi <<< 32) + n) + m))
      (omega arith),
  bit_or-zero_right (u32 (u64 (bit_or sb.s_free_blocks_count 0 + n))),
  bit_or-zero_right (u32 (u64 (bit_or (u32 (u64 (bit_or sb.s_free_blocks_count 0 + n))) 0 + m))),
)
