-- ===== src/Icount/Operations.antt =====
-- source/icount.c: the operations on the count of an inode. An operation gives its status, the count
-- that it stores where `ret` points, if it stores one, and the icount.
use libext2fs.Prelude.{
  ℕ, zero, suc, ◌+◌, ◌-◌, u32, List, length, Bool, true, false, ◌||◌, not, ltb, leb, ◌==◌,
  if◌then◌else◌, truth, Option, none, some,
}
use libext2fs.Errors.{magic_icount, no_memory, invalid_argument}
use libext2fs.Bitmap.{test_generic_bitmap, mark_generic_bitmap, unmark_generic_bitmap}
use libext2fs.Icount.{IcountEl, Icount, icount_16_xlate, ino_at, set_inode_count, get_inode_count}

abbrev pub in_single : Icount → ℕ → Bool
in_single ic ino = truth (test_generic_bitmap ic.single ino)

-- `icount->multiple && !ext2fs_test_inode_bitmap2(icount->multiple, ino)`
abbrev pub missed_by_multiple : Icount → ℕ → Bool
missed_by_multiple ic ino = elim ic.multiple [
  | none ↦ false
  | some bm ↦ not (truth (test_generic_bitmap bm ino))
]

abbrev pub has_multiple : Icount → Bool
has_multiple ic = elim ic.multiple [ none ↦ false | some bm ↦ true ]

abbrev pub mark_single : Icount → ℕ → Icount
mark_single ic ino = record ic { single = (mark_generic_bitmap ic.single ino).1 }

abbrev pub unmark_single : Icount → ℕ → Icount
unmark_single ic ino = record ic { single = (unmark_generic_bitmap ic.single ino).1 }

-- `if (icount->multiple) ext2fs_mark_inode_bitmap2(icount->multiple, ino)`
abbrev pub mark_multiple : Icount → ℕ → Icount
mark_multiple ic ino = record ic {
  multiple = elim ic.multiple [ none ↦ none | some bm ↦ some (mark_generic_bitmap bm ino).1 ];
}

abbrev pub unmark_multiple : Icount → ℕ → Icount
unmark_multiple ic ino = record ic {
  multiple = elim ic.multiple [ none ↦ none | some bm ↦ some (unmark_generic_bitmap bm ino).1 ];
}

-- `!ino || (ino > icount->num_inodes)`
abbrev pub is_bad_ino : Icount → ℕ → Bool
is_bad_ino ic ino = (ino == 0) || ltb ic.num_inodes ino

unfoldable pub icount_fetch : Icount → ℕ → ℕ × Option ℕ × Icount
icount_fetch ic ino =
    let (status, val, ic') = get_inode_count ic ino in
    if not (ic.magic == magic_icount)
    then (magic_icount, none, ic)
    else (if is_bad_ino ic ino
        then (invalid_argument, none, ic)
        else (if in_single ic ino
            then (0, some 1, ic)
            else (if missed_by_multiple ic ino
                then (0, some 0, ic)
                else (0, some (icount_16_xlate val), ic'))))

-- The end of `ext2fs_icount_increment`.
abbrev pub incremented : Icount → ℕ → ℕ → ℕ × Option ℕ × Icount
incremented ic ino curr_value = (0, some (icount_16_xlate curr_value), mark_multiple ic ino)

-- The count of an inode that is not in `single`, incremented in the list.
unfoldable pub increment_listed : Option ℕ → Icount → ℕ → ℕ × Option ℕ × Icount
increment_listed room ic ino =
    let (_, curr_value, ic1) = get_inode_count ic ino in
    let (status, ic2) = set_inode_count room ic1 ino (u32 (curr_value + 1)) in
    if not (status == 0) then (no_memory, none, ic2) else incremented ic2 ino (u32 (curr_value + 1))

unfoldable pub increment_single : Option ℕ → Icount → ℕ → ℕ × Option ℕ × Icount
increment_single room ic ino =
    let (status, ic1) = set_inode_count room ic ino 2 in
    if not (status == 0) then (no_memory, none, ic1) else incremented (unmark_single ic1 ino) ino 2

unfoldable pub icount_increment : Option ℕ → Icount → ℕ → ℕ × Option ℕ × Icount
icount_increment room ic ino =
    if not (ic.magic == magic_icount)
    then (magic_icount, none, ic)
    else (if is_bad_ino ic ino
        then (invalid_argument, none, ic)
        else (if in_single ic ino
            then increment_single room ic ino
            else (if missed_by_multiple ic ino
                then (0, some 1, mark_single ic ino)
                else increment_listed room ic ino)))

-- The count of an inode that is not in `single`, decremented in the list.
unfoldable pub decrement_listed : Option ℕ → Icount → ℕ → ℕ × Option ℕ × Icount
decrement_listed room ic ino =
    let (_, val, ic1) = get_inode_count ic ino in
    let curr_value = val - 1 in
    let (status, ic2) = set_inode_count room ic1 ino curr_value in
    let ic3 = if curr_value == 1 then mark_single ic2 ino else ic2 in
    let ic4 = if curr_value == 0 then unmark_multiple ic3 ino else ic3 in
    if val == 0
    then (invalid_argument, none, ic1)
    else (if not (status == 0)
        then (no_memory, none, ic2)
        else (0, some (icount_16_xlate curr_value), ic4))

-- `if (icount->multiple) unmark … else set_inode_count(icount, ino, 0)`, whose status is not looked at.
unfoldable pub forget : Option ℕ → Icount → ℕ → Icount
forget room ic ino =
    if has_multiple ic then unmark_multiple ic ino else (set_inode_count room ic ino 0).1

unfoldable pub icount_decrement : Option ℕ → Icount → ℕ → ℕ × Option ℕ × Icount
icount_decrement room ic ino =
    if is_bad_ino ic ino
    then (invalid_argument, none, ic)
    else (if not (ic.magic == magic_icount)
        then (magic_icount, none, ic)
        else (if in_single ic ino
            then (0, some 0, forget room (unmark_single ic ino) ino)
            else (if missed_by_multiple ic ino
                then (invalid_argument, none, ic)
                else decrement_listed room ic ino)))

unfoldable pub store_listed : Option ℕ → Icount → ℕ → ℕ → ℕ × Icount
store_listed room ic ino count =
    let (status, ic1) = set_inode_count room ic ino count in
    if not (status == 0) then (no_memory, ic1) else (0, mark_multiple (unmark_single ic1 ino) ino)

unfoldable pub icount_store : Option ℕ → Icount → ℕ → ℕ → ℕ × Icount
icount_store room ic ino count =
    if is_bad_ino ic ino
    then (invalid_argument, ic)
    else (if not (ic.magic == magic_icount)
        then (magic_icount, ic)
        else (if count == 1
            then (0, unmark_multiple (mark_single ic ino) ino)
            else (if count == 0
                then (0, forget room (unmark_single ic ino) ino)
                else store_listed room ic ino count)))

-- Whether an entry from index `i` on, `left` of them, is not above the one before it.
unfoldable pub misplaced : List IcountEl → ℕ → ℕ → Bool
misplaced list zero i = false
misplaced list (suc left) i =
    leb (ino_at list i) (ino_at list (i - 1)) || misplaced list left (i + 1)

unfoldable pub icount_validate : Icount → ℕ
icount_validate ic =
    if not (ic.magic == magic_icount)
    then magic_icount
    else (if ltb ic.size (length ic.list)
        then invalid_argument
        else if misplaced ic.list (length ic.list - 1) 1
        then invalid_argument
        else 0)

unfoldable pub get_icount_size : Icount → ℕ
get_icount_size ic = if not (ic.magic == magic_icount) then 0 else ic.size
