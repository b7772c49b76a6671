-- ===== src/Icount.antt =====
-- source/icount.c: the number of links of each inode. A bitmap marks the inodes with one link; the
-- others that have some are in a list that ascends by inode number. The bitmap `multiple`, which an
-- icount need not have, marks the inodes that have an entry with more than one link.
-- The store in a tdb file, which takes the place of the list, is not modelled (`icount->tdb` is
-- null), and the list is allocated. The bitmaps are those of gen_bitmap.c.
-- A pointer to an entry is its index, and `count` is the number of entries of the list. An argument
-- `room` is the outcome of the reallocation of the list: `none` if it fails, otherwise the size that
-- the code estimates with floating point numbers.
pub mod Operations
pub mod Entries
pub mod Seek
pub mod Element
pub mod Invariant
pub mod Marks
pub mod Counts
pub mod Answers
pub mod Steps
pub mod Refine
pub mod Create
pub mod Made
pub mod Bounds
pub mod Room
pub mod Trace
mod Tests
use libext2fs.Prelude.{
  ℕ, zero, suc, ◌+◌, ◌-◌, ◌*◌, ◌/◌, u32, List, [], ◌∷◌, ◌++◌, map, length, take, drop, get_or, set,
  Bool, true, false, ◌&&◌, ◌||◌, not, ltb, leb, ◌==◌, if◌then◌else◌, truth, Option, none, some,
}
use libext2fs.Errors.{magic_icount, magic_inode_bitmap, no_memory, invalid_argument, enoent}
use libext2fs.Fs.{Filsys}
use libext2fs.Bitmap.{
  Bitmap, test_generic_bitmap, mark_generic_bitmap, unmark_generic_bitmap, make_generic_bitmap,
}
use libext2fs.Bitmap

-- `struct ext2_icount_el`
pub record IcountEl : Type 0 where
  pub ino : ℕ
  pub count : ℕ

-- `struct ext2_icount`
pub record Icount : Type 0 where
  pub magic : ℕ
  pub single : Bitmap
  pub multiple : Option Bitmap
  pub size : ℕ
  pub num_inodes : ℕ
  pub cursor : ℕ
  pub list : List IcountEl
  pub last_lookup : Option ℕ

abbrev pub icount_16_xlate : ℕ → ℕ
icount_16_xlate x = if ltb 65500 x then 65500 else x

-- `icount->list[i].ino` and `icount->list[i].count`
abbrev pub ino_at : List IcountEl → ℕ → ℕ
ino_at list i = (get_or list i (record { ino = 0; count = 0 })).ino

abbrev pub count_at : List IcountEl → ℕ → ℕ
count_at list i = (get_or list i (record { ino = 0; count = 0 })).count

-- The rest of `insert_icount_el` once there is room.
pub place_el : Icount → ℕ → ℕ → Icount × Option ℕ
place_el icount ino pos = if ltb (length icount.list) pos then (icount, none) else (
  record icount {
    list = take pos icount.list ++ (record { ino = ino; count = 0 } ∷ drop pos icount.list);
    last_lookup = some pos;
  },
  some pos,
)

-- The size that a full list is given.
pub grown_size : Icount → ℕ → ℕ
grown_size icount estimate =
    let new_size = if length icount.list == 0 then 0 else estimate in
    if ltb new_size (u32 (icount.size + 100)) then u32 (icount.size + 100) else new_size

-- `icount->last_lookup && icount->last_lookup->ino == ino`
abbrev pub is_last_lookup : Icount → ℕ → Bool
is_last_lookup icount ino = elim icount.last_lookup [
  | none ↦ false
  | some i ↦ ino_at icount.list i == ino
]

pub insert_icount_el : Option ℕ → Icount → ℕ → ℕ → Icount × Option ℕ
insert_icount_el room icount ino pos =
    if is_last_lookup icount ino
    then (icount, icount.last_lookup)
    else (if leb icount.size (length icount.list)
        then elim room [
          | none ↦ (icount, none)
          | some estimate ↦ place_el (record icount { size = grown_size icount estimate }) ino pos
        ]
        else place_el icount ino pos)

-- How the binary search of `get_icount_el` ends: at an entry, or with `low` where there is none.
-- `unfinished` is a model's fuel that ran out.
pub data Ending : Type 0 where
  hit gap : ℕ → Ending
  unfinished : Ending

-- The argument `high` is the code's `high + 1`.
pub seek_loop : ℕ → List IcountEl → ℕ → ℕ → ℕ → Ending
seek_loop zero list ino low high = unfinished
seek_loop (suc fuel) list ino low high =
    let mid = (low + (high - 1)) / 2 in
    let left = seek_loop fuel list ino low mid in
    let right = seek_loop fuel list ino (mid + 1) high in
    if not (ltb low high)
    then gap low
    else (if ino == ino_at list mid
        then hit mid
        else (if ltb ino (ino_at list mid) then left else right))

-- The rest of `get_icount_el` after the search. Its loop ends within the fuel (Icount.Seek).
pub sought : Bool → Option ℕ → Icount → ℕ → Ending → Icount × Option ℕ
sought create room icount ino (hit mid) = (record icount { cursor = mid + 1 }, some mid)
sought create room icount ino (gap low) =
    if create then insert_icount_el room icount ino low else (icount, none)
sought create room icount ino unfinished = (icount, none)

-- The part of `get_icount_el` that looks for the entry of a list that is not empty.
pub look_up : Bool → Option ℕ → Icount → ℕ → Icount × Option ℕ
look_up create room icount ino =
    let cursor = if leb (length icount.list) icount.cursor then 0 else icount.cursor in
    let rewound = record icount { cursor = cursor } in
    if ino == ino_at icount.list cursor
    then (record icount { cursor = cursor + 1 }, some cursor)
    else sought create room rewound ino
        (seek_loop (length icount.list + 1) icount.list ino 0 (length icount.list))

pub get_icount_el : Bool → Option ℕ → Icount → ℕ → Icount × Option ℕ
get_icount_el create room icount ino =
    let count = length icount.list in
    if create && ((count == 0) || ltb (ino_at icount.list (count - 1)) ino)
    then insert_icount_el room icount ino count
    else (if count == 0 then (icount, none) else look_up create room icount ino)

-- The status and the icount.
pub set_inode_count : Option ℕ → Icount → ℕ → ℕ → ℕ × Icount
set_inode_count room icount ino count =
    let (icount', el) = get_icount_el true room icount ino in
    elim el [
      | none ↦ (no_memory, icount')
      | some i ↦ (
        0,
        record icount' {
          list = set icount'.list i (record { ino = ino_at icount'.list i; count = count });
        },
      )
    ]

-- The status, the count and the icount.
pub get_inode_count : Icount → ℕ → ℕ × ℕ × Icount
get_inode_count icount ino =
    let (icount', el) = get_icount_el false none icount ino in
    elim el [ none ↦ (enoent, 0, icount') | some i ↦ (0, count_at icount'.list i, icount') ]
