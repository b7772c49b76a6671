-- ===== src/Dblist.antt =====
-- source/dblist.c: the blocks of all directories. `count` is the number of entries of the list; an
-- argument `room` says whether a reallocation succeeds. The 64-bit `blockcnt` is a word, and so is the
-- result of a comparison, a 32-bit `int`. `qsort` is a parameter, as is the function of an iteration,
-- which gets an entry, may change it, and keeps a state of its own.
pub mod Dirs
pub mod Entries
pub mod Order
mod Tests
use libext2fs.Prelude.{
  ℕ, zero, suc, ◌+◌, ◌-◌, ◌*◌, ◌/◌, ◌%◌, ◌^◌, u32, u64, sub32, sub64, List, [], ◌∷◌, ◌++◌, length,
  take, get_or, Bool, true, false, ◌&&◌, ◌||◌, not, ltb, leb, ◌==◌, if◌then◌else◌, truth, bit_and,
  Option, none, some,
}
use libext2fs.Errors.{magic_dblist, db_not_found, dblist_empty, no_memory}
use libext2fs.Fs.{Filsys}
use libext2fs.GroupDesc.{bg_used_dirs_count}

-- `struct ext2_db_entry2`
pub record DbEntry : Type 0 where
  pub ino : ℕ
  pub blk : ℕ
  pub blockcnt : ℕ

-- `struct ext2_struct_dblist`
pub record Dblist : Type 0 where
  pub magic : ℕ
  pub size : ℕ
  pub sorted : ℕ
  pub list : List DbEntry

-- The loop of `ext2fs_get_num_dirs`, with `left` groups to go from group `i`.
pub sum_dirs : Filsys → ℕ → ℕ → ℕ → ℕ
sum_dirs fs zero i num_dirs = num_dirs
sum_dirs fs (suc left) i num_dirs =
    let max_dirs = fs.super.s_inodes_per_group in
    let used = bg_used_dirs_count fs i in
    sum_dirs fs left (i + 1) (u32 (num_dirs + (if ltb max_dirs used then max_dirs / 8 else used)))

pub get_num_dirs : Filsys → ℕ
get_num_dirs fs =
    let num_dirs = sum_dirs fs fs.group_desc_count 0 0 in
    if ltb fs.super.s_inodes_count num_dirs then fs.super.s_inodes_count else num_dirs

-- A status with the list that was made.
pub data Made : Type 0 where
  made : Dblist → Made
  failed : ℕ → Made

-- `make_dblist` where the caller gives a place for the result, as all callers do.
pub make_dblist : Bool → Bool → Filsys → ℕ → List DbEntry → Made
make_dblist mem array fs size list =
    if not mem
    then failed no_memory
    else (if not array
        then failed no_memory
        else made (record {
          magic = magic_dblist;
          size = if size == 0 then u32 (u32 (get_num_dirs fs * 2) + 12) else size;
          sorted = 0;
          list = list;
        }))

pub init_dblist : Bool → Bool → Filsys → Made
init_dblist mem array fs = elim (make_dblist mem array fs 0 []) [
  | failed e ↦ failed e
  | made dblist ↦ made (record dblist { sorted = 1 })
]

pub copy_dblist : Bool → Bool → Filsys → Dblist → Made
copy_dblist mem array fs src = elim (make_dblist mem array fs (u32 src.size) src.list) [
  | failed e ↦ failed e
  | made dblist ↦ made (record dblist { sorted = src.sorted })
]

pub add_dir_block2 : Bool → Dblist → ℕ → ℕ → ℕ → ℕ × Dblist
add_dir_block2 room dblist ino blk blockcnt =
    let size' =
      if leb dblist.size (length dblist.list)
      then u64 (dblist.size + (if ltb 200 dblist.size then dblist.size / 2 else 100))
      else dblist.size in
    if not (dblist.magic == magic_dblist)
    then (magic_dblist, dblist)
    else (if leb dblist.size (length dblist.list) && not room then (no_memory, dblist) else (
      0,
      record dblist {
        size = size';
        sorted = 0;
        list = dblist.list ++ (record { ino = ino; blk = blk; blockcnt = blockcnt } ∷ []);
      },
    ))

-- How the loop of `ext2fs_set_dir_block2` ends: with the list that has the entry changed, behind the
-- last entry, or not at all.
pub data Replacing : Type 0 where
  replaced : List DbEntry → Replacing
  absent endless : Replacing

pub behind : DbEntry → Replacing → Replacing
behind e (replaced es) = replaced (e ∷ es)
behind e absent = absent
behind e endless = endless

-- The loop, from the entry `i` on. The number of entries has 64 bits and `i` has 32: a count that comes
-- back to 0 starts over, on entries that it has passed, and so for ever.
pub replace_block : ℕ → List DbEntry → ℕ → ℕ → ℕ → Replacing
replace_block i [] ino blk blockcnt = absent
replace_block i (e ∷ es) ino blk blockcnt =
    let next = u32 (i + 1) in
    let rest = if next == 0 then endless else replace_block next es ino blk blockcnt in
    if not (e.ino == ino) || not (e.blockcnt == blockcnt)
    then behind e rest
    else replaced (record e { blk = blk } ∷ es)

-- The result and the list; `none` if the call does not return.
pub set_dir_block2 : Dblist → ℕ → ℕ → ℕ → Option (ℕ × Dblist)
set_dir_block2 dblist ino blk blockcnt =
    if not (dblist.magic == magic_dblist)
    then some (magic_dblist, dblist)
    else elim (replace_block 0 dblist.list ino blk blockcnt) [
      | absent ↦ some (db_not_found, dblist)
      | replaced list ↦ some (0, record dblist { list = list; sorted = 0 })
      | endless ↦ none
    ]

-- `(int) (a - b)` of 32-bit and of 64-bit words, as a 32-bit word.
pub dir_block_cmp2 : DbEntry → DbEntry → ℕ
dir_block_cmp2 a b =
    if not (a.blk == b.blk)
    then u32 (sub64 a.blk b.blk)
    else if not (a.ino == b.ino)
    then sub32 a.ino b.ino
    else u32 (sub64 a.blockcnt b.blockcnt)

-- A comparison function, and a `qsort` that is given one.
abbrev pub Cmp : Type 0
Cmp = DbEntry → DbEntry → ℕ

abbrev pub Qsort : Type 0
Qsort = Cmp → List DbEntry → List DbEntry

pub dblist_sort2 : Qsort → Option Cmp → Dblist → Dblist
dblist_sort2 qsort sortfunc dblist = record dblist {
  list = qsort (elim sortfunc [ none ↦ dir_block_cmp2 | some f ↦ f ]) dblist.list;
  sorted = 1;
}

-- The loop of `ext2fs_dblist_iterate2`; DBLIST_ABORT is 1.
pub visit : {S : Type 0} → (S → DbEntry → ℕ × DbEntry × S) → S → List DbEntry → List DbEntry × S
visit func s [] = ([], s)
visit func s (e ∷ es) =
    let (ret, e', s') = func s e in
    let (es', end) = visit func s' es in
    if truth (bit_and ret 1) then (e' ∷ es, s') else (e' ∷ es', end)

pub dblist_iterate2 :
    {S : Type 0} → Qsort → (S → DbEntry → ℕ × DbEntry × S) → S → Dblist → ℕ × Dblist × S
dblist_iterate2 qsort func s dblist =
    let dblist' = if dblist.sorted == 0 then dblist_sort2 qsort none dblist else dblist in
    let (list, end) = visit func s dblist'.list in
    if not (dblist.magic == magic_dblist)
    then (magic_dblist, dblist, s)
    else (0, record dblist' { list = list }, end)

pub dblist_count2 : Dblist → ℕ
dblist_count2 dblist = length dblist.list

pub dblist_get_last2 : Dblist → ℕ × Option DbEntry
dblist_get_last2 dblist =
    let count = length dblist.list in
    if not (dblist.magic == magic_dblist)
    then (magic_dblist, none)
    else (if count == 0
        then (dblist_empty, none)
        else (0, some (get_or dblist.list (count - 1) (record { ino = 0; blk = 0; blockcnt = 0 }))))

pub dblist_drop_last : Dblist → ℕ × Dblist
dblist_drop_last dblist =
    let count = length dblist.list in
    if not (dblist.magic == magic_dblist)
    then (magic_dblist, dblist)
    else (if count == 0
        then (dblist_empty, dblist)
        else (0, record dblist { list = take (count - 1) dblist.list }))
