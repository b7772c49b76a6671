-- ===== src/Icount/Marks.antt =====
-- source/icount.c: what marking an inode in the bitmaps of an icount changes.
use libext2fs.Prelude.{
  ℕ, ◌≤◌, ◌≡◌, refl, Option, none, some, not, ◌&&◌, ◌||◌, ◌==◌, if◌then◌else◌, arith,
}
use libext2fs.Bitmap.{Bitmap, mark_generic_bitmap, unmark_generic_bitmap}
use libext2fs.Bitmap.Single.{test-mark, test-unmark}
use libext2fs.Icount.{Icount}
use libext2fs.Icount.Entries.{lookup}
use libext2fs.Icount.Operations.{
  in_single, missed_by_multiple, has_multiple, mark_single, unmark_single, mark_multiple,
  unmark_multiple,
}
use libext2fs.Icount.Invariant.{
  IsMultipleMap, IsValid, IsListing, mark-IsInodeMap, unmark-IsInodeMap,
}

-- The number of links of an inode.
abbrev pub links : Icount → ℕ → ℕ
links ic n = if in_single ic n then 1 else if missed_by_multiple ic n then 0 else lookup ic.list n

-- `multiple` after an inode is marked or unmarked.
module _ (num i : ℕ) where
  marked_map :
      (o : Option Bitmap)
      → IsMultipleMap num o
      → IsMultipleMap num (elim o [ none ↦ none | some bm ↦ some (mark_generic_bitmap bm i).1 ])
  marked_map none v = v
  marked_map (some bm) v = mark-IsInodeMap bm i num v

  unmarked_map :
      (o : Option Bitmap)
      → IsMultipleMap num o
      → IsMultipleMap num (elim o [ none ↦ none | some bm ↦ some (unmark_generic_bitmap bm i).1 ])
  unmarked_map none v = v
  unmarked_map (some bm) v = unmark-IsInodeMap bm i num v

  missed-marked_map :
      (ic : Icount) (o : Option Bitmap) (n : ℕ)
      → IsMultipleMap num o
      → 1 ≤ i
      → i ≤ num
      → missed_by_multiple (mark_multiple (record ic { multiple = o }) i) n
        ≡ (not (i == n) && missed_by_multiple (record ic { multiple = o }) n)
  missed-marked_map ic none n v lo hi = ground arith
  missed-marked_map ic (some bm) n v lo hi =
      ground (arith, test-mark bm v.valid i n, v.covers i lo hi)

  missed-unmarked_map :
      (ic : Icount) (o : Option Bitmap) (n : ℕ)
      → IsMultipleMap num o
      → missed_by_multiple (unmark_multiple (record ic { multiple = o }) i) n ≡ (
          (has_multiple (record ic { multiple = o }) && (i == n))
          || missed_by_multiple (record ic { multiple = o }) n)
  missed-unmarked_map ic none n v = ground arith
  missed-unmarked_map ic (some bm) n v = ground (arith, test-unmark bm v.valid i n)

module _ (ic : Icount) (v : IsValid ic) (i : ℕ) where
  pub in_single-mark :
      (n : ℕ)
      → 1 ≤ i
      → i ≤ ic.num_inodes
      → in_single (mark_single ic i) n ≡ ((i == n) || in_single ic n)
  in_single-mark n lo hi =
      ground (arith, test-mark ic.single v.singles.valid i n, v.singles.covers i lo hi)

  pub in_single-unmark :
      (n : ℕ) → in_single (unmark_single ic i) n ≡ (not (i == n) && in_single ic n)
  in_single-unmark n = test-unmark ic.single v.singles.valid i n

  pub missed-mark :
      (n : ℕ)
      → 1 ≤ i
      → i ≤ ic.num_inodes
      → missed_by_multiple (mark_multiple ic i) n ≡ (not (i == n) && missed_by_multiple ic n)
  missed-mark n lo hi = missed-marked_map ic.num_inodes i ic ic.multiple n v.multiples lo hi

  pub missed-unmark :
      (n : ℕ)
      → missed_by_multiple (unmark_multiple ic i) n
        ≡ ((has_multiple ic && (i == n)) || missed_by_multiple ic n)
  missed-unmark n = missed-unmarked_map ic.num_inodes i ic ic.multiple n v.multiples

  pub mark_single-IsValid : IsValid (mark_single ic i)
  mark_single-IsValid = record {
    magic_ok = v.magic_ok;
    singles = mark-IsInodeMap ic.single i ic.num_inodes v.singles;
    multiples = v.multiples;
    listed = v.listed;
  }

  pub unmark_single-IsValid : IsValid (unmark_single ic i)
  unmark_single-IsValid = record {
    magic_ok = v.magic_ok;
    singles = unmark-IsInodeMap ic.single i ic.num_inodes v.singles;
    multiples = v.multiples;
    listed = v.listed;
  }

  pub mark_multiple-IsValid : IsValid (mark_multiple ic i)
  mark_multiple-IsValid = record {
    magic_ok = v.magic_ok;
    singles = v.singles;
    multiples = marked_map ic.num_inodes i ic.multiple v.multiples;
    listed = v.listed;
  }

  pub unmark_multiple-IsValid : IsValid (unmark_multiple ic i)
  unmark_multiple-IsValid = record {
    magic_ok = v.magic_ok;
    singles = v.singles;
    multiples = unmarked_map ic.num_inodes i ic.multiple v.multiples;
    listed = v.listed;
  }

-- The tests in an icount whose list was changed.
module _ (counts : ℕ → ℕ) (a b : Icount) (s : IsListing counts a b) where
  pub in_single-listing : (n : ℕ) → in_single b n ≡ in_single a n
  in_single-listing n = rw s.single_same refl

  pub missed-listing : (n : ℕ) → missed_by_multiple b n ≡ missed_by_multiple a n
  missed-listing n = rw s.multiple_same refl

  pub has_multiple-listing : has_multiple b ≡ has_multiple a
  has_multiple-listing = rw s.multiple_same refl

  pub links-listing :
      (n : ℕ)
      → links b n ≡ (if in_single a n then 1 else if missed_by_multiple a n then 0 else counts n)
  links-listing n = rw (s.single_same, s.multiple_same, s.counts_same n) refl
