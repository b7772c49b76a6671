-- ===== src/Badblocks.antt =====
-- source/badblocks.c: a list of 32-bit block numbers that is kept in ascending order.
-- An `int` index or size is a number; the code's sums of them do not pass 2^31 while the list has
-- fewer than 2^31 - 100 entries.
pub mod Order
pub mod Find
pub mod Insert
pub mod Add
pub mod Del
pub mod Iterate
mod Tests
use libext2fs.Prelude.{
  ℕ, zero, suc, ◌+◌, ◌-◌, ◌/◌, List, ◌++◌, Option, none, some, Bool, true, false,
}
use libext2fs.Prelude.{ltb, leb, ◌==◌, ◌&&◌, ◌||◌, not, if◌then◌else◌, get_or, set, take, replicate}
use libext2fs.Errors.{magic_badblocks_list, magic_badblocks_iterate, no_memory}

-- `struct ext2_struct_u32_list`
pub record U32List : Type 0 where
  pub magic : ℕ
  pub num : ℕ
  pub size : ℕ
  pub list : List ℕ
  pub badblocks_flags : ℕ

-- A status with the structure that was made.
pub data Made : Type 0 where
  made : U32List → Made
  failed : ℕ → Made

-- `bb->list[i]`; the proofs show that the accesses are in range.
abbrev pub at : List ℕ → ℕ → ℕ
at list i = get_or list i 0

-- `mem` and `array` say whether the two allocations succeed.
pub make_u32_list : Bool → Bool → ℕ → ℕ → Option (List ℕ) → Made
make_u32_list mem array size num list =
    if not mem
    then failed no_memory
    else (if not array
        then failed no_memory
        else (let size' = if size == 0 then 10 else size in
            made (record {
              magic = magic_badblocks_list;
              num = num;
              size = size';
              list = elim list [ none ↦ replicate size' 0 | some l ↦ take size' l ];
              badblocks_flags = 0;
            })))

pub u32_list_create : Bool → Bool → ℕ → Made
u32_list_create mem array size = make_u32_list mem array size 0 none

pub u32_copy : Bool → Bool → U32List → Made
u32_copy mem array src = elim (make_u32_list mem array src.size src.num (some src.list)) [
  | failed e ↦ failed e
  | made dest ↦ made (record dest { badblocks_flags = src.badblocks_flags })
]

-- Where the scan of `ext2fs_u32_list_add` stops.
pub data Slot : Type 0 where
  present : Slot
  before : ℕ → Slot

-- The scan from index `i`, with `left` entries to go.
pub scan : List ℕ → ℕ → ℕ → ℕ → Slot
scan list blk zero i = before i
scan list blk (suc left) i =
    let rest = scan list blk left (i + 1) in
    if at list i == blk then present else (if ltb blk (at list i) then before i else rest)

-- `for (i = num; i > j; i--) list[i] = list[i-1]`, with `left` rounds to go.
pub shift_up : List ℕ → ℕ → ℕ → List ℕ
shift_up list zero i = list
shift_up list (suc left) i = shift_up (set list i (at list (i - 1))) left (i - 1)

-- The part of `ext2fs_u32_list_add` after the list has room for one more.
pub place : U32List → ℕ → U32List
place bb blk =
    if not (bb.num == 0) && (at bb.list (bb.num - 1) == blk)
    then bb
    else (if (bb.num == 0) || ltb (at bb.list (bb.num - 1)) blk
        then record bb { list = set bb.list bb.num blk; num = bb.num + 1 }
        else elim (scan bb.list blk bb.num 0) [
          | present ↦ bb
          | before j ↦ record bb {
            list = set (shift_up bb.list (bb.num - j) bb.num) j blk;
            num = bb.num + 1;
          }
        ])

-- `grown` is what the reallocation adds to the array, or `none` if it fails.
pub u32_list_add : Option (List ℕ) → U32List → ℕ → ℕ × U32List
u32_list_add grown bb blk =
    if not (bb.magic == magic_badblocks_list)
    then (magic_badblocks_list, bb)
    else (if leb bb.size bb.num
        then elim grown [
          | none ↦ (no_memory, bb)
          | some fresh ↦
              (0, place (record bb { size = bb.size + 100; list = bb.list ++ fresh }) blk)
        ]
        else (0, place bb blk))

-- What `ext2fs_u32_list_find` returns: an index, or -1. `unfinished` is a model's fuel that ran out.
pub data Search : Type 0 where
  found : ℕ → Search
  absent unfinished : Search

pub search_loop : ℕ → List ℕ → ℕ → ℕ → ℕ → Search
search_loop zero list blk low high = unfinished
search_loop (suc fuel) list blk low high =
    let mid = (low + high) / 2 in
    let left = search_loop fuel list blk low mid in
    let right = search_loop fuel list blk mid high in
    if not (ltb low high)
    then absent
    else (if (mid == low) || (mid == high)
        then absent
        else (if at list mid == blk
            then found mid
            else if ltb blk (at list mid)
            then left
            else right))

pub u32_list_find : U32List → ℕ → Search
u32_list_find bb blk =
    if not (bb.magic == magic_badblocks_list)
    then absent
    else (if bb.num == 0
        then absent
        else (if at bb.list 0 == blk
            then found 0
            else (if at bb.list (bb.num - 1) == blk
                then found (bb.num - 1)
                else search_loop bb.num bb.list blk 0 (bb.num - 1))))

pub u32_list_test : U32List → ℕ → ℕ
u32_list_test bb blk = elim (u32_list_find bb blk) [ found i ↦ 1 | _ ↦ 0 ]

-- `for (i = remloc; i < num - 1; i++) list[i] = list[i+1]`, with `left` rounds to go.
pub shift_down : List ℕ → ℕ → ℕ → List ℕ
shift_down list zero i = list
shift_down list (suc left) i = shift_down (set list i (at list (i + 1))) left (i + 1)

-- `false` is the return value -1.
pub u32_list_del : U32List → ℕ → Bool × U32List
u32_list_del bb blk = if bb.num == 0 then (false, bb) else elim (u32_list_find bb blk) [
  | found remloc ↦
      (true, record bb { list = shift_down bb.list (bb.num - 1 - remloc) remloc; num = bb.num - 1 })
  | _ ↦ (false, bb)
]

-- `struct ext2_struct_u32_iterate`; `bb` is a pointer to a list, which the calls are given.
pub record U32Iterate : Type 0 where
  pub magic : ℕ
  pub ptr : ℕ

-- `mem` says whether the allocation succeeds.
pub u32_list_iterate_begin : Bool → U32List → ℕ × Option U32Iterate
u32_list_iterate_begin mem bb =
    if not (bb.magic == magic_badblocks_list)
    then (magic_badblocks_list, none)
    else if mem
    then (0, some (record { magic = magic_badblocks_iterate; ptr = 0 }))
    else (no_memory, none)

-- The iterator after the call, and the block if there is one; otherwise the call returns 0.
pub u32_list_iterate : U32List → U32Iterate → U32Iterate × Option ℕ
u32_list_iterate bb iter =
    if not (iter.magic == magic_badblocks_iterate)
    then (iter, none)
    else (if not (bb.magic == magic_badblocks_list)
        then (iter, none)
        else (if ltb iter.ptr bb.num
            then (record iter { ptr = iter.ptr + 1 }, some (at bb.list iter.ptr))
            else (iter, none)))

-- `memcmp(list1, list2, n * 4) != 0`
pub same_words : List ℕ → List ℕ → ℕ → Bool
same_words l1 l2 zero = true
same_words l1 l2 (suc n) = (at l1 n == at l2 n) && same_words l1 l2 n

-- A bad magic number makes this return the error code, which a caller reads as "equal".
pub u32_list_equal : U32List → U32List → ℕ
u32_list_equal bb1 bb2 =
    if not (bb1.magic == magic_badblocks_list)
    then magic_badblocks_list
    else (if not (bb2.magic == magic_badblocks_list)
        then magic_badblocks_list
        else (if not (bb1.num == bb2.num)
            then 0
            else if same_words bb1.list bb2.list bb1.num
            then 1
            else 0))

pub u32_list_count : U32List → ℕ
u32_list_count bb = bb.num
