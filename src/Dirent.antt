-- ===== src/Dirent.antt =====
-- source/dir_iterate.c: the length of a directory entry, which has 16 bits also where a block has
-- 2^16 bytes or more.
pub mod RecLen
mod Tests
use libext2fs.Prelude.{
  ℕ, ◌+◌, ◌-◌, ◌%◌, ◌^◌, ◌<<<◌, ◌>>>◌, u16, bit_and, bit_or, truth, Bool, not, ltb, ◌==◌, ◌||◌,
  if◌then◌else◌,
}
use libext2fs.Fs.{Filsys}
use libext2fs.Errors.{einval}

-- `struct ext2_dir_entry`, without the name.
pub record DirEntry : Type 0 where
  pub inode : ℕ
  pub rec_len : ℕ
  pub name_len : ℕ

-- The length that is stored through `rec_len`; the function always returns 0.
unfoldable pub get_rec_len : Filsys → DirEntry → ℕ
get_rec_len fs dirent =
    let len = dirent.rec_len in
    if ltb fs.blocksize 65536
    then len
    else (if (len == 0xffff) || (len == 0)
        then fs.blocksize
        else bit_or (bit_and len 65532) (bit_and len 3 <<< 16))

unfoldable pub set_rec_len : Filsys → ℕ → DirEntry → ℕ × DirEntry
set_rec_len fs len dirent =
    if ltb fs.blocksize len || (ltb (2 ^ 18) fs.blocksize || truth (bit_and len 3))
    then (einval, dirent)
    else (if ltb len 65536
        then (0, record dirent { rec_len = u16 len })
        else (if len == fs.blocksize
            then (0, record dirent { rec_len = if fs.blocksize == 65536 then 0xffff else 0 })
            else (
              0,
              record dirent { rec_len = u16 (bit_or (bit_and len 65532) (bit_and (len >>> 16) 3)) },
            )))
