-- ===== src/Icount/Tests.antt =====
-- Icounts of a file system with 16 inodes.
use libext2fs.Prelude.{
  ℕ, zero, suc, ◌≤◌, ◌<◌, ◌^◌, [], ◌∷◌, ◌≡◌, ◌≢◌, ◌⊎◌, ◌↔◌, refl, arith, true, none, some, length,
}
use libext2fs.Errors.{magic_icount, magic_inode_bitmap, no_memory}
use libext2fs.Fs.Samples.{small}
use libext2fs.Bitmap.{Bitmap, test_generic_bitmap, mark_generic_bitmap}
use libext2fs.Bitops.{set_bit, test_bit}
use libext2fs.Bitops.Laws.{IsBytes}
use libext2fs.Icount.{
  Icount, ino_at, get_icount_el, look_up, sought, seek_loop, set_inode_count, get_inode_count,
}
use libext2fs.Icount.Entries.{IsAscending}
use libext2fs.Icount.Invariant.{IsInodeMap, IsValid}
use libext2fs.Icount.Operations.{decrement_listed, icount_decrement, icount_validate}
use libext2fs.Icount.Create.{create_icount2, made, failed}
use libext2fs.Icount.Marks.{links}
use libext2fs.Icount.Counts.{fetch, increment, decrement, store, specified, IsOutcome}
use libext2fs.Icount.Refine.{call, call-IsOutcome}
use libext2fs.Icount.Bounds.{icount_validate_iff}
use libext2fs.Icount.Room.{icount_validate-call}
use libext2fs.Icount.Trace.{replies, map_replies, replies-map_replies}
use libext2fs.Icount.Made.{plenty, IsEmptyCount, create_icount2_lem}

abbrev inode_map : ℕ → ℕ → Bitmap
inode_map b0 b1 = record {
  magic = magic_inode_bitmap;
  start = 1;
  end = 16;
  real_end = 16;
  bitmap = b0 ∷ b1 ∷ [];
}

-- Inode 5 has one link, inode 3 has four and inode 9 two.
abbrev linked : Icount
linked = record {
  magic = magic_icount;
  single = inode_map 0x10 0;
  multiple = some (inode_map 0x04 0x01);
  size = 2;
  num_inodes = 16;
  cursor = 1;
  list = record { ino = 3; count = 4 } ∷ record { ino = 9; count = 2 } ∷ [];
  last_lookup = some 1;
}

inode_map_all : (b0 b1 : ℕ) → b0 < 2 ^ 8 → b1 < 2 ^ 8 → IsInodeMap 16 (inode_map b0 b1)
inode_map_all b0 b1 h0 h1 = record {
  valid = record {
    kind = refl;
    ends = omega arith;
    starts = omega arith;
    small = omega arith;
    room = omega arith;
    bytes = bytes;
  };
  covers = λ n lo hi. ground arith;
}
  where
    bytes : IsBytes (b0 ∷ b1 ∷ [])
    bytes zero = omega arith
    bytes (suc zero) = omega arith
    bytes (suc (suc i)) = omega arith

linked_ascends : IsAscending linked.list
linked_ascends i zero h k = absurd (omega arith)
linked_ascends zero (suc zero) h k = omega arith
linked_ascends (suc i) (suc zero) h k = absurd (omega arith)
linked_ascends i (suc (suc j)) h k = absurd (omega arith)

linked-IsValid : IsValid linked
linked-IsValid = record {
  magic_ok = refl;
  singles = inode_map_all 0x10 0 (omega arith) (omega arith);
  multiples = inode_map_all 0x04 0x01 (omega arith) (omega arith);
  listed = record { ascending = linked_ascends; last_ok = λ i e. ground (arith, e) };
}

-- A second link for inode 5, in a list that is full, without memory.
call-IsOutcome_example :
    IsOutcome none linked
      (specified 16 (links linked) (increment 5))
      (call none linked (increment 5))
call-IsOutcome_example = call-IsOutcome none linked (increment 5) linked-IsValid

replies-map_replies_example :
    replies linked
      ((increment 5, 0) ∷ (decrement 9, 0) ∷ (fetch 9, 0) ∷ (store 12 7, 300) ∷ (fetch 17, 0) ∷ [])
    ≡ map_replies 16 (links linked) (
        (increment 5, 0) ∷ (decrement 9, 0) ∷ (fetch 9, 0) ∷ (store 12 7, 300) ∷ (fetch 17, 0) ∷ [])
replies-map_replies_example =
    replies-map_replies
      ((increment 5, 0) ∷ (decrement 9, 0) ∷ (fetch 9, 0) ∷ (store 12 7, 300) ∷ (fetch 17, 0) ∷ [])
      linked linked-IsValid

icount_validate_iff_example :
    (icount_validate linked ≡ 0) ↔ ((length linked.list ≤ 2) × IsAscending linked.list)
icount_validate_iff_example = icount_validate_iff linked refl

linked_accepted : icount_validate linked ≡ 0
linked_accepted = icount_validate_iff_example.1 (omega arith, linked_ascends)

icount_validate-call_example : icount_validate (call (some 0) linked (increment 5)).2 ≡ 0
icount_validate-call_example =
    icount_validate-call (some 0) linked (increment 5) linked-IsValid linked_accepted (omega arith)

create_icount2_lem_example :
    ((ic : Icount) × (create_icount2 plenty small true 0 none ≡ made ic) × IsEmptyCount small ic)
    ⊎ ((create_icount2 plenty small true 0 none ≡ failed no_memory) × (plenty ≢ plenty))
create_icount2_lem_example =
    create_icount2_lem plenty small true 0 none (omega arith, omega arith, omega arith) tt

-- An inode whose count fell to 1 is marked in `single`, and its entry stays in the list.
stale_entry :
    let ic = (icount_decrement none linked 9).2 in
    Path (ℕ × ℕ × ℕ) (test_generic_bitmap ic.single 9, ino_at ic.list 1, length ic.list) (1, 9, 2)
unfolding icount_decrement decrement_listed get_inode_count set_inode_count get_icount_el look_up
    sought seek_loop test_generic_bitmap mark_generic_bitmap set_bit test_bit
stale_entry = refl
