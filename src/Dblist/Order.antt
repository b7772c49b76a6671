-- ===== src/Dblist/Order.antt =====
-- source/dblist.c: the order of the entries.
use libext2fs.Prelude.{◌≤◌, ◌<◌, ◌^◌, ◌≡◌, ◌⊎◌, ◌↔◌, arith}
use libext2fs.Dblist.{DbEntry, dir_block_cmp2}

-- An entry with numbers whose differences fit an `int`.
abbrev pub IsSmall : DbEntry → Type 0
IsSmall e = (e.blk < 2 ^ 31) × (e.ino < 2 ^ 31) × (e.blockcnt < 2 ^ 31)

-- The entry comes first: by its block, then its inode, then its place in the directory.
abbrev pub IsEarlier : DbEntry → DbEntry → Type 0
IsEarlier a b =
    (a.blk < b.blk)
    ⊎ ((a.blk ≡ b.blk) × ((a.ino < b.ino) ⊎ ((a.ino ≡ b.ino) × (a.blockcnt < b.blockcnt))))

-- Where the numbers of two entries are below 2^31, their comparison is negative as a 32-bit `int` if
-- and only if the first comes earlier, and 0 if and only if all their numbers agree.
pub dir_block_cmp2_iff :
    (a b : DbEntry)
    → IsSmall a
    → IsSmall b
    → ((2 ^ 31 ≤ dir_block_cmp2 a b) ↔ IsEarlier a b)
      × ((dir_block_cmp2 a b ≡ 0) ↔ ((a.blk ≡ b.blk) × (a.ino ≡ b.ino) × (a.blockcnt ≡ b.blockcnt)))
unfolding dir_block_cmp2
dir_block_cmp2_iff a b (a1, a2, a3) (b1, b2, b3) = ground arith
