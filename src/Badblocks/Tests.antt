-- ===== src/Badblocks/Tests.antt =====
-- The bad block list on concrete lists.
use libext2fs.Prelude.{
  ℕ, zero, suc, false, ◌<◌, [], ◌∷◌, none, some, ◌≡◌, ◌≢◌, ◌⊎◌, ◌↔◌, inl, refl, arith, true,
  replicate,
}
use libext2fs.Errors.{magic_badblocks_list, magic_badblocks_iterate}
use libext2fs.Badblocks.{
  U32List, U32Iterate, made, at, make_u32_list, u32_list_create, scan, shift_up, place,
  u32_list_add, found, absent, search_loop, u32_list_find, u32_list_test, shift_down, u32_list_del,
  u32_list_iterate_begin, u32_list_equal, u32_list_count,
}
use libext2fs.Badblocks.Order.{IsValid, Holds}
use libext2fs.Badblocks.Find.{find_lem}
use libext2fs.Badblocks.Add.{IsAdded, add-IsAdded}
use libext2fs.Badblocks.Del.{del_lem}
use libext2fs.Badblocks.Iterate.{drain, drain-begin}

abbrev three_blocks : U32List
three_blocks = record {
  magic = magic_badblocks_list;
  num = 3;
  size = 4;
  list = 7 ∷ 20 ∷ 31 ∷ 0 ∷ [];
  badblocks_flags = 0;
}

abbrev full : U32List
full = record {
  magic = magic_badblocks_list;
  num = 2;
  size = 2;
  list = 7 ∷ 20 ∷ [];
  badblocks_flags = 0;
}

three_blocks-IsValid : IsValid three_blocks
three_blocks-IsValid = record {
  magic_ok = refl;
  fits = omega arith;
  sized = refl;
  ascending = ascends;
}
  where
    ascends : (i j : ℕ) → i < j → j < 3 → at three_blocks.list i < at three_blocks.list j
    ascends i zero h k = absurd (omega arith)
    ascends zero (suc zero) h k = omega arith
    ascends (suc i) (suc zero) h k = absurd (omega arith)
    ascends zero (suc (suc zero)) h k = omega arith
    ascends (suc zero) (suc (suc zero)) h k = omega arith
    ascends (suc (suc i)) (suc (suc zero)) h k = absurd (omega arith)
    ascends i (suc (suc (suc j))) h k = absurd (omega arith)

full-IsValid : IsValid full
full-IsValid = record { magic_ok = refl; fits = omega arith; sized = refl; ascending = ascends }
  where
    ascends : (i j : ℕ) → i < j → j < 2 → at full.list i < at full.list j
    ascends i zero h k = absurd (omega arith)
    ascends zero (suc zero) h k = omega arith
    ascends (suc i) (suc zero) h k = absurd (omega arith)
    ascends i (suc (suc j)) h k = absurd (omega arith)

-- Insertion in the middle, at the end, of a block that is there, and into a full array.
add_cases :
    ((u32_list_add none three_blocks 25).1.list ≡ 7 ∷ 20 ∷ 25 ∷ 31 ∷ [])
    × ((u32_list_add none three_blocks 40).1.list ≡ 7 ∷ 20 ∷ 31 ∷ 40 ∷ [])
    × (u32_list_add none three_blocks 20 ≡ (0, three_blocks))
    × ((u32_list_add (some (replicate 100 0)) full 3).1.num ≡ 3)
unfolding u32_list_add place scan shift_up
add_cases = (refl, refl, refl, refl)

find_cases :
    (u32_list_find three_blocks 20 ≡ found 1)
    × (u32_list_find three_blocks 21 ≡ absent)
    × (u32_list_test three_blocks 31 ≡ 1)
    × (u32_list_count three_blocks ≡ 3)
unfolding u32_list_find search_loop u32_list_test u32_list_count
find_cases = (refl, refl, refl, refl)

del_cases :
    ((u32_list_del three_blocks 20).1.list ≡ 7 ∷ 31 ∷ 31 ∷ 0 ∷ [])
    × ((u32_list_del three_blocks 20).1.num ≡ 2)
    × ((u32_list_del three_blocks 21).0 ≡ false)
unfolding u32_list_del u32_list_find search_loop shift_down
del_cases = (refl, refl, refl)

create_default_size :
    u32_list_create true true 0
    ≡ made (record {
      magic = magic_badblocks_list;
      num = 0;
      size = 10;
      list = replicate 10 0;
      badblocks_flags = 0;
    })
unfolding u32_list_create make_u32_list
create_default_size = refl

-- A list whose magic number is wrong compares as nonzero, which reads as "equal".
equal_bad_magic : u32_list_equal (record full { magic = 1 }) three_blocks ≢ 0
unfolding u32_list_equal
equal_bad_magic h = omega arith

add-IsAdded_example :
    ((u32_list_add none three_blocks 25).0 ≡ 0)
    × IsAdded three_blocks 25 (u32_list_add none three_blocks 25).1
add-IsAdded_example = add-IsAdded none three_blocks 25 three_blocks-IsValid (inl (omega arith))

find_lem_example :
    ((i : ℕ) × (u32_list_find three_blocks 20 ≡ found i) × (i < 3) × (at three_blocks.list i ≡ 20))
    ⊎ ((u32_list_find three_blocks 20 ≡ absent) × ¬ Holds three_blocks 20)
find_lem_example = find_lem three_blocks 20 three_blocks-IsValid

del_lem_example :
    ((u32_list_del three_blocks 20).0 ≡ true ↔ Holds three_blocks 20)
    × IsValid (u32_list_del three_blocks 20).1
    × ((x : ℕ) → Holds (u32_list_del three_blocks 20).1 x ↔ (Holds three_blocks x × (x ≢ 20)))
del_lem_example = del_lem three_blocks 20 three_blocks-IsValid

begun : U32Iterate
begun = record { magic = magic_badblocks_iterate; ptr = 0 }

drain-begin_example : drain 4 three_blocks begun ≡ some (7 ∷ 20 ∷ 31 ∷ [])
unfolding u32_list_iterate_begin begun
drain-begin_example = drain-begin three_blocks begun three_blocks-IsValid refl
