-- ===== src/Icount/Invariant.antt =====
-- source/icount.c: what an icount keeps true.
use libext2fs.Prelude.{ℕ, ◌≤◌, ◌<◌, ◌≡◌, refl, List, length, Option, none, some, false, ◌∙◌}
use libext2fs.Errors.{magic_icount}
use libext2fs.Bitmap.{Bitmap, outside, mark_generic_bitmap, unmark_generic_bitmap}
use libext2fs.Bitmap.Valid
use libext2fs.Bitmap.Single.{mark-IsValid, unmark-IsValid, outside-mark, outside-unmark}
use libext2fs.Icount.{IcountEl, Icount}
use libext2fs.Icount.Entries.{IsAscending, lookup}

-- A valid bitmap of all inodes from 1 to a number.
pub record IsInodeMap (num_inodes : ℕ) (bm : Bitmap) : Type 0 where
  pub valid : Valid.IsValid bm
  pub covers : (n : ℕ) → 1 ≤ n → n ≤ num_inodes → outside bm n ≡ false

-- The bitmap `multiple` of an icount that has one.
abbrev pub IsMultipleMap : ℕ → Option Bitmap → Type 0
IsMultipleMap num_inodes none = Unit {0}
IsMultipleMap num_inodes (some bm) = IsInodeMap num_inodes bm

-- The list ascends, and the entry that was made last is in it.
pub record IsListed (list : List IcountEl) (last_lookup : Option ℕ) : Type 0 where
  pub ascending : IsAscending list
  pub last_ok : (i : ℕ) → last_lookup ≡ some i → i < length list

pub record IsValid (ic : Icount) : Type 0 where
  pub magic_ok : ic.magic ≡ magic_icount
  pub singles : IsInodeMap ic.num_inodes ic.single
  pub multiples : IsMultipleMap ic.num_inodes ic.multiple
  pub listed : IsListed ic.list ic.last_lookup

-- The list of another icount stands for given counts, and all else is as before but for the size,
-- the cursor and the entry that was made last.
pub record IsListing (counts : ℕ → ℕ) (ic ic' : Icount) : Type 0 where
  pub magic_same : ic'.magic ≡ ic.magic
  pub single_same : ic'.single ≡ ic.single
  pub multiple_same : ic'.multiple ≡ ic.multiple
  pub num_same : ic'.num_inodes ≡ ic.num_inodes
  pub counts_same : (n : ℕ) → lookup ic'.list n ≡ counts n
  pub listed : IsListed ic'.list ic'.last_lookup

abbrev pub IsSame : Icount → Icount → Type 0
IsSame ic ic' = IsListing (lookup ic.list) ic ic'

module _ (bm : Bitmap) (n : ℕ) where
  pub mark-IsInodeMap : (num : ℕ) → IsInodeMap num bm → IsInodeMap num (mark_generic_bitmap bm n).1
  mark-IsInodeMap num v = record {
    valid = mark-IsValid bm v.valid n;
    covers = λ m lo hi. outside-mark bm n m ∙ v.covers m lo hi;
  }

  pub unmark-IsInodeMap :
      (num : ℕ) → IsInodeMap num bm → IsInodeMap num (unmark_generic_bitmap bm n).1
  unmark-IsInodeMap num v = record {
    valid = unmark-IsValid bm v.valid n;
    covers = λ m lo hi. outside-unmark bm n m ∙ v.covers m lo hi;
  }

-- The size and the cursor do not matter.
pub touched-IsSame :
    (ic : Icount) (n c : ℕ)
    → IsListed ic.list ic.last_lookup
    → IsSame ic (record ic { size = n; cursor = c })
touched-IsSame ic n c l = record {
  magic_same = refl;
  single_same = refl;
  multiple_same = refl;
  num_same = refl;
  counts_same = λ m. refl;
  listed = l;
}

pub refl-IsSame : (ic : Icount) → IsListed ic.list ic.last_lookup → IsSame ic ic
refl-IsSame ic l = touched-IsSame ic ic.size ic.cursor l

pub trans-IsListing :
    (counts : ℕ → ℕ) (a b c : Icount) → IsSame a b → IsListing counts b c → IsListing counts a c
trans-IsListing counts a b c s t = record {
  magic_same = t.magic_same ∙ s.magic_same;
  single_same = t.single_same ∙ s.single_same;
  multiple_same = t.multiple_same ∙ s.multiple_same;
  num_same = t.num_same ∙ s.num_same;
  counts_same = t.counts_same;
  listed = t.listed;
}

pub trans-IsSame : (a b c : Icount) → IsSame a b → IsSame b c → IsSame a c
trans-IsSame a b c s t = record {
  magic_same = t.magic_same ∙ s.magic_same;
  single_same = t.single_same ∙ s.single_same;
  multiple_same = t.multiple_same ∙ s.multiple_same;
  num_same = t.num_same ∙ s.num_same;
  counts_same = λ n. t.counts_same n ∙ s.counts_same n;
  listed = t.listed;
}

pub listing-IsValid : (counts : ℕ → ℕ) (a b : Icount) → IsListing counts a b → IsValid a → IsValid b
listing-IsValid counts a b s v = record {
  magic_ok = s.magic_same ∙ v.magic_ok;
  singles = rw (s.single_same, s.num_same) v.singles;
  multiples = rw (s.multiple_same, s.num_same) v.multiples;
  listed = s.listed;
}
