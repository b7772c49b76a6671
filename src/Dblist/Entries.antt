-- ===== src/Dblist/Entries.antt =====
-- source/dblist.c: adding, changing and dropping entries.
use libext2fs.Prelude.{
  ℕ, ◌+◌, ◌-◌, ◌≤◌, ◌<◌, ◌^◌, ◌≡◌, ◌⊎◌, inl, inr, refl, ap, ◌∙◌, List, [], ◌∷◌, ◌++◌, length,
  length-append, take, get_or, Bool, true, false, ◌&&◌, ◌||◌, not, leb, ◌==◌, Option, none, some,
  arith, Bool-cases, ==_iff, ne→==, u32,
}
use libext2fs.Errors.{magic_dblist, db_not_found, no_memory}
use libext2fs.Dblist.{
  DbEntry, Dblist, Replacing, replaced, absent, endless, behind, add_dir_block2, replace_block,
  set_dir_block2, dblist_get_last2, dblist_drop_last, dblist_count2,
}

abbrev no_entry : DbEntry
no_entry = record { ino = 0; blk = 0; blockcnt = 0 }

take-append : (xs ys : List DbEntry) → take (length xs) (xs ++ ys) ≡ xs
take-append [] ys = refl
take-append (x ∷ xs) ys = ap (λ r. x ∷ r) (take-append xs ys)

length_snoc : (xs : List DbEntry) (e : DbEntry) → length (xs ++ (e ∷ [])) ≡ length xs + 1
length_snoc xs e = length-append xs (e ∷ [])

last_snoc : (xs : List DbEntry) (e : DbEntry) → get_or (xs ++ (e ∷ [])) (length xs) no_entry ≡ e
last_snoc [] e = refl
last_snoc (x ∷ xs) e = last_snoc xs e

-- Reading and dropping the last entry of a list that ends with it.
module _ (db : Dblist) (xs : List DbEntry) (e : DbEntry) (ok : db.magic ≡ magic_dblist)
    (ends : db.list ≡ xs ++ (e ∷ [])) where
  last_index : length db.list - 1 ≡ length xs
  last_index = rw ends (omega (arith, length_snoc xs e))

  has_entries : (length db.list == 0) ≡ false
  has_entries = rw ends (ground (arith, length_snoc xs e))

  get_last_lem : dblist_get_last2 db ≡ (0, some e)
  unfolding dblist_get_last2
  get_last_lem =
      rw ((==_iff db.magic magic_dblist).1 ok, has_entries, last_index)
        (rw (ends, last_snoc xs e) refl)

  drop_last_lem : dblist_drop_last db ≡ (0, record db { list = xs })
  unfolding dblist_drop_last
  drop_last_lem =
      rw ((==_iff db.magic magic_dblist).1 ok, has_entries, last_index)
        (ap {A = List DbEntry} (λ l. (0, record db { list = l }))
          (ap (take (length xs)) ends ∙ take-append xs (e ∷ [])))

-- The list has room for its entries.
abbrev pub Fits : Dblist → Type 0
Fits db = length db.list ≤ db.size

-- An addition to a list with room for its entries and fewer than 2^63 places succeeds if there is
-- room for one more, or else memory: the entry is then the last one, dropping it leaves the entries
-- as they were, the list is marked as not sorted, and it has room for its entries. Without memory
-- nothing changes.
pub add_dir_block2_lem :
    (room : Bool) (db : Dblist) (ino blk blockcnt : ℕ)
    → db.magic ≡ magic_dblist
    → Fits db
    → db.size < 2 ^ 63
    → (((length db.list < db.size) ⊎ (room ≡ true))
        × ((db' : Dblist) × (add_dir_block2 room db ino blk blockcnt ≡ (0, db'))
            × (dblist_count2 db' ≡ dblist_count2 db + 1)
            × (dblist_get_last2 db'
                ≡ (0, some (record { ino = ino; blk = blk; blockcnt = blockcnt })))
            × (dblist_drop_last db' ≡ (0, record db' { list = db.list }))
            × (db'.sorted ≡ 0)
            × Fits db'))
      ⊎ ((length db.list ≡ db.size)
          × (room ≡ false)
          × (add_dir_block2 room db ino blk blockcnt ≡ (no_memory, db)))
unfolding add_dir_block2 dblist_count2
add_dir_block2_lem room db ino blk blockcnt ok fits bound =
    elim (Bool-cases (leb db.size (length db.list) && not room)) [
      | inl e ↦
          inr
            (ground (arith, e), ground (arith, e), rw ((==_iff db.magic magic_dblist).1 ok, e) refl)
      | inr e ↦
          rw ((==_iff db.magic magic_dblist).1 ok, e)
            (inl (
              can_add e,
              (
                _,
                refl,
                length_snoc db.list new,
                get_last_lem _ db.list new ok refl,
                drop_last_lem _ db.list new ok refl,
                refl,
                ground (arith, length_snoc db.list new),
              ),
            ))
    ]
  where
    new : DbEntry
    new = record { ino = ino; blk = blk; blockcnt = blockcnt }

    can_add :
        (leb db.size (length db.list) && not room) ≡ false
        → (length db.list < db.size) ⊎ (room ≡ true)
    can_add e = elim (Bool-cases room) [ inl r ↦ inr r | inr r ↦ inl (ground (arith, e, r)) ]

-- The entry of a directory's block.
abbrev pub IsBlockOf : ℕ → ℕ → DbEntry → Type 0
IsBlockOf ino blockcnt e = (e.ino ≡ ino) × (e.blockcnt ≡ blockcnt)

-- No entry of a list is of the block.
abbrev pub NoneOf : ℕ → ℕ → List DbEntry → Type 0
NoneOf ino blockcnt [] = Unit {0}
NoneOf ino blockcnt (e ∷ es) = (¬ IsBlockOf ino blockcnt e) × NoneOf ino blockcnt es

-- How a list was changed, or why not.
abbrev pub IsReplaced : List DbEntry → ℕ → ℕ → ℕ → Replacing → Type 0
IsReplaced list ino blk blockcnt absent = NoneOf ino blockcnt list
IsReplaced list ino blk blockcnt (replaced list') =
    (xs ys : List DbEntry) × (e : DbEntry) × (list ≡ xs ++ (e ∷ ys))
    × (list' ≡ xs ++ (record e { blk = blk } ∷ ys))
    × IsBlockOf ino blockcnt e
    × NoneOf ino blockcnt xs
IsReplaced list ino blk blockcnt endless = ⊥

deeper :
    (x : DbEntry) (list : List DbEntry) (ino blk blockcnt : ℕ) (r : Replacing)
    → ¬ IsBlockOf ino blockcnt x
    → IsReplaced list ino blk blockcnt r
    → IsReplaced (x ∷ list) ino blk blockcnt (behind x r)
unfolding behind
deeper x list ino blk blockcnt absent other none_left = (other, none_left)
deeper x list ino blk blockcnt (replaced es) other (xs, ys, e, before, after, hit, earlier) =
    (x ∷ xs, ys, e, ap (λ l. x ∷ l) before, ap (λ l. x ∷ l) after, hit, (other, earlier))
deeper x list ino blk blockcnt endless other h = elim h [ ]

replace_block-IsReplaced :
    (i : ℕ) (list : List DbEntry) (ino blk blockcnt : ℕ)
    → i + length list < 2 ^ 32
    → IsReplaced list ino blk blockcnt (replace_block i list ino blk blockcnt)
unfolding replace_block
replace_block-IsReplaced i [] ino blk blockcnt few = tt
replace_block-IsReplaced i (x ∷ list) ino blk blockcnt few =
    elim (Bool-cases (not (x.ino == ino) || not (x.blockcnt == blockcnt))) [
      | inl other ↦
          rw (other, next, ne→== (i + 1) 0 (omega arith))
            (deeper x list ino blk blockcnt (replace_block (i + 1) list ino blk blockcnt)
              (λ (a, b). ground (arith, other, a, b))
              (replace_block-IsReplaced (i + 1) list ino blk blockcnt (omega arith)))
      | inr hit ↦ rw hit ([], list, x, refl, refl, (ground (arith, hit), ground (arith, hit)), tt)
    ]
  where
    next : u32 (i + 1) ≡ i + 1
    next = omega arith

-- In a list of fewer than 2^32 entries with its magic number, setting the block of a directory's part
-- returns. It changes the block number of the first entry of that inode and part and nothing else, and
-- marks the list as not sorted; if there is no such entry, the error says so and nothing changes.
pub set_dir_block2_lem :
    (db : Dblist) (ino blk blockcnt : ℕ)
    → db.magic ≡ magic_dblist
    → length db.list < 2 ^ 32
    → ((list : List DbEntry) × (set_dir_block2 db ino blk blockcnt
          ≡ some (0, record db { list = list; sorted = 0 }))
        × IsReplaced db.list ino blk blockcnt (replaced list))
      ⊎ (NoneOf ino blockcnt db.list
          × (set_dir_block2 db ino blk blockcnt ≡ some (db_not_found, db)))
unfolding set_dir_block2
set_dir_block2_lem db ino blk blockcnt ok few = rw ((==_iff db.magic magic_dblist).1 ok) (
    by_result (replace_block 0 db.list ino blk blockcnt)
      (replace_block-IsReplaced 0 db.list ino blk blockcnt (omega (arith, few))))
  where
    ended : Replacing → Option (ℕ × Dblist)
    ended r = elim r [
      | absent ↦ some (db_not_found, db)
      | replaced list ↦ some (0, record db { list = list; sorted = 0 })
      | endless ↦ none
    ]

    by_result :
        (r : Replacing)
        → IsReplaced db.list ino blk blockcnt r
        → ((list : List DbEntry) × (ended r ≡ some (0, record db { list = list; sorted = 0 }))
            × IsReplaced db.list ino blk blockcnt (replaced list))
          ⊎ (NoneOf ino blockcnt db.list × (ended r ≡ some (db_not_found, db)))
    by_result absent h = inr (h, refl)
    by_result (replaced list) h = inl (list, refl, h)
    by_result endless h = elim h [ ]
