-- ===== src/Link.antt =====
-- source/link.c, source/unlink.c: the functions that put an entry into a directory block and take one
-- out, as an iteration over the entries of the block calls them. The memory of a block is a slot for
-- each offset, with the entry that starts there: a write at one offset does not show in the slots of
-- the others, as in a block whose entries do not overlap.
pub mod Runs
pub mod Proc
pub mod Place
pub mod Insert
pub mod Unlink
pub mod Remove
pub mod Validate
mod Tests
use libext2fs.Prelude.{
  ℕ, ◌+◌, ◌-◌, ◌*◌, ◌/◌, ◌%◌, ◌<<<◌, u16, List, take, Bool, true, false, ◌&&◌, ◌||◌, not, ltb, leb,
  ◌==◌, if◌then◌else◌, truth, bit_and, bit_or,
}
use libext2fs.Fs.{Filsys, has_incompat, filetype}
use libext2fs.Dirent.{DirEntry, get_rec_len, set_rec_len}

-- `struct ext2_dir_entry` with its name.
pub record Slot : Type 0 where
  pub head : DirEntry
  pub name : List ℕ

abbrev pub Block : Type 0
Block = ℕ → Slot

abbrev pub put : Block → ℕ → Slot → Block
put b at s o = if o == at then s else b o

-- A store into the head of an entry.
abbrev pub put_head : Block → ℕ → DirEntry → Block
put_head b at d = put b at (record { head = d; name = (b at).name })

-- EXT2_DIR_REC_LEN
abbrev pub dir_rec_len : ℕ → ℕ
dir_rec_len name_len = (name_len + 8 + 3) / 4 * 4

-- DIRENT_CHANGED and DIRENT_ABORT
abbrev pub changed : ℕ
changed = 1

abbrev pub abort : ℕ
abort = 2

-- `struct link_struct` of link.c
pub record LinkStruct : Type 0 where
  pub name : List ℕ
  pub namelen : ℕ
  pub inode : ℕ
  pub flags : ℕ
  pub done : ℕ
  pub err : ℕ

-- Whether the next entry is unused, so that it is absorbed.
unfoldable pub absorbs : Filsys → Block → ℕ → ℕ → Bool
absorbs fs b offset curr_rec_len =
    let next = (b (offset + curr_rec_len)).head in
    ltb (offset + curr_rec_len) (fs.blocksize - 8)
    && ((next.inode == 0) && leb (offset + curr_rec_len + next.rec_len) fs.blocksize)

-- The part of `link_proc` for an entry in use, with its length: it is split where the new name fits.
unfoldable pub split_entry : Filsys → LinkStruct → Block → ℕ → ℕ → ℕ → ℕ × LinkStruct × Block
split_entry fs ls b offset curr_rec_len ret =
    let d = (b offset).head in
    let min_rec_len = dir_rec_len (bit_and d.name_len 0xFF) in
    let (err, d') = set_rec_len fs min_rec_len d in
    let b' = put_head b offset d' in
    let at = offset + d'.rec_len in
    let (err', next) =
      set_rec_len fs (curr_rec_len - min_rec_len)
        (record (b' at).head { inode = 0; name_len = 0 }) in
    if ltb curr_rec_len (min_rec_len + dir_rec_len ls.namelen)
    then (ret, ls, b)
    else (if not (err == 0)
        then (abort, record ls { err = err }, b)
        else (if not (err' == 0)
            then (
              abort,
              record ls { err = err' },
              put_head b' at (record (b' at).head { inode = 0; name_len = 0 }),
            )
            else (changed, ls, put_head b' at next)))

-- The part of `link_proc` for an entry that is not in use: it is filled where the new name fits.
unfoldable pub fill_entry : Filsys → LinkStruct → Block → ℕ → ℕ → ℕ → ℕ × LinkStruct × Block
fill_entry fs ls b offset curr_rec_len ret =
    let name_len =
      if has_incompat fs.super filetype
      then bit_or ls.namelen (bit_and ls.flags 0x7 <<< 8)
      else ls.namelen in
    if ltb curr_rec_len (dir_rec_len ls.namelen) then (ret, ls, b) else (
      abort + changed,
      record ls { done = ls.done + 1 },
      put b offset (record {
        head = record (b offset).head { inode = ls.inode; name_len = name_len };
        name = take ls.namelen ls.name;
      }),
    )

-- What `link_proc` does when the next entry is absorbed or stays.
unfoldable pub place_entry : Filsys → LinkStruct → Block → ℕ → ℕ → ℕ → ℕ × LinkStruct × Block
place_entry fs ls b offset curr_rec_len ret =
    if not ((b offset).head.inode == 0)
    then split_entry fs ls b offset curr_rec_len ret
    else fill_entry fs ls b offset curr_rec_len ret

-- The result, and what `link_proc` changes.
unfoldable pub link_proc : Filsys → LinkStruct → Block → ℕ → ℕ × LinkStruct × Block
link_proc fs ls b offset =
    let curr_rec_len = get_rec_len fs (b offset).head in
    let grown = curr_rec_len + (b (offset + curr_rec_len)).head.rec_len in
    let (err, d) = set_rec_len fs grown (b offset).head in
    let b' = put_head b offset d in
    let ls' = record ls { err = 0 } in
    if absorbs fs b offset curr_rec_len
    then (if not (err == 0)
        then (abort, record ls { err = err }, b)
        else place_entry fs ls' b' offset grown changed)
    else place_entry fs ls' b offset curr_rec_len 0
