-- ===== src/Errors.antt =====
-- `errcode_t` values (source/ext2_err.h, errno.h); 0 is success.
use libext2fs.Prelude.{ℕ}

abbrev pub magic_badblocks_list : ℕ
magic_badblocks_list = 2133571330

abbrev pub magic_badblocks_iterate : ℕ
magic_badblocks_iterate = 2133571331

abbrev pub no_memory : ℕ
no_memory = 2133571398

abbrev pub einval : ℕ
einval = 22

abbrev pub eoverflow : ℕ
eoverflow = 75

abbrev pub magic_block_bitmap : ℕ
magic_block_bitmap = 2133571336

abbrev pub magic_inode_bitmap : ℕ
magic_inode_bitmap = 2133571337

abbrev pub magic_generic_bitmap : ℕ
magic_generic_bitmap = 2133571338

abbrev pub invalid_argument : ℕ
invalid_argument = 2133571399

abbrev pub magic_icount : ℕ
magic_icount = 2133571341

abbrev pub enoent : ℕ
enoent = 2

abbrev pub no_inode_bitmap : ℕ
no_inode_bitmap = 2133571367

abbrev pub no_block_bitmap : ℕ
no_block_bitmap = 2133571368

abbrev pub block_alloc_fail : ℕ
block_alloc_fail = 2133571400

abbrev pub inode_alloc_fail : ℕ
inode_alloc_fail = 2133571401

abbrev pub magic_dblist : ℕ
magic_dblist = 2133571340

abbrev pub db_not_found : ℕ
db_not_found = 2133571406

abbrev pub dblist_empty : ℕ
dblist_empty = 2133571434
