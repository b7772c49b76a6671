-- ===== src/Icount/Made.antt =====
-- source/icount.c: `ext2fs_create_icount2` makes a valid icount that counts no links.
use libext2fs.Prelude.{
  ℕ, zero, suc, ◌*◌, ◌^◌, ◌≤◌, ◌<◌, ◌≡◌, ◌≢◌, ◌&&◌, ◌⊎◌, inl, inr, refl, u32, List, [], ◌∷◌, map,
  length, Option, none, some, Bool, true, false, not, truth, ◌==◌, arith, ap, Bool-cases,
}
use libext2fs.Errors.{magic_icount, magic_inode_bitmap, no_memory}
use libext2fs.Fs.{Filsys}
use libext2fs.Bitmap.{Bitmap, outside, test_generic_bitmap, make_generic_bitmap}
use libext2fs.Bitmap
use libext2fs.Bitmap.Make.{make_lem}
use libext2fs.Icount.{IcountEl, Icount, ino_at}
use libext2fs.Icount.Entries.{lookup, IsAscending}
use libext2fs.Icount.Invariant.{IsInodeMap, IsMultipleMap, IsValid}
use libext2fs.Icount.Operations.{missed_by_multiple}
use libext2fs.Icount.Create.{
  Memory, made, failed, allocate_inode_bitmap, alloc_icount, list_size, uncounted, hinted,
  create_icount2,
}
use libext2fs.Icount.Marks.{links}
use libext2fs.Icount.Room.{Fits}

-- The inodes of the file system are numbered from 1 within its groups.
abbrev pub HasInodes : Filsys → Type 0
HasInodes fs =
    (1 ≤ fs.super.s_inodes_count)
    × (fs.super.s_inodes_count ≤ fs.super.s_inodes_per_group * fs.group_desc_count)
    × (fs.super.s_inodes_per_group * fs.group_desc_count < 2 ^ 32)

-- The list of the hint, if there is one, was in order.
abbrev pub IsHint : Option Icount → Type 0
IsHint none = Unit {0}
IsHint (some h) = (h.magic ≡ magic_icount) × IsAscending h.list × Fits h

lookup-hinted : (h : Option Icount) (n : ℕ) → lookup (hinted h) n ≡ 0
lookup-hinted none n = refl
lookup-hinted (some h) n = by_list h.list
  where
    by_list : (l : List IcountEl) → lookup (map uncounted l) n ≡ 0
    by_list [] = refl
    by_list (e ∷ es) = ground (arith, by_list es)

length-hinted_list : (l : List IcountEl) → length (map uncounted l) ≡ length l
length-hinted_list [] = refl
length-hinted_list (e ∷ es) = ap suc (length-hinted_list es)

ino_at-hinted_list : (l : List IcountEl) (i : ℕ) → ino_at (map uncounted l) i ≡ ino_at l i
ino_at-hinted_list [] i = refl
ino_at-hinted_list (e ∷ es) zero = refl
ino_at-hinted_list (e ∷ es) (suc i) = ino_at-hinted_list es i

hinted-IsAscending : (h : Option Icount) → IsHint h → IsAscending (hinted h)
hinted-IsAscending none v i j ij hj = absurd (omega arith)
hinted-IsAscending (some h) (_, asc, _) i j ij hj = omega (
  arith,
  ino_at-hinted_list h.list i,
  ino_at-hinted_list h.list j,
  asc i j ij (omega (arith, length-hinted_list h.list)),
)

hinted-fits :
    (fs : Filsys) (size : ℕ) (h : Option Icount)
    → IsHint h
    → length (hinted h) ≤ list_size fs size h
unfolding list_size
hinted-fits fs size none v = omega arith
hinted-fits fs size (some h) (_, _, f) = ground (arith, f, length-hinted_list h.list)

-- A new bitmap of all inodes, with none marked.
record IsFresh (num : ℕ) (bm : Bitmap) : Type 0 where
  all : IsInodeMap num bm
  nothing : (n : ℕ) → truth (test_generic_bitmap bm n) ≡ false

allocate_lem :
    (mem array : Bool) (fs : Filsys)
    → HasInodes fs
    → ((bm : Bitmap) × (allocate_inode_bitmap mem array fs ≡ Bitmap.made bm)
        × IsFresh fs.super.s_inodes_count bm)
      ⊎ ((mem && array) ≡ false × (allocate_inode_bitmap mem array fs ≡ Bitmap.failed no_memory))
unfolding allocate_inode_bitmap
allocate_lem mem array fs (lo, hi, small) =
    elim (make_lem mem array magic_inode_bitmap 1 fs.super.s_inodes_count
      (u32 (fs.super.s_inodes_per_group * fs.group_desc_count)) refl lo (omega arith)
      (omega arith)) [
        | inl (_, (bm, e, s, t, empty)) ↦ inl (
          bm,
          e,
          record {
            all = record { valid = empty.valid; covers = λ n a b. ground (arith, s, t) };
            nothing = empty.nothing;
          },
        )
        | inr h ↦ inr h
      ]

-- Every allocation succeeds.
abbrev pub plenty : Memory
plenty = record {
  icount_ok = true;
  single_ok = true;
  single_array_ok = true;
  multiple_ok = true;
  multiple_array_ok = true;
  list_ok = true;
}

scarce : {b : Bool} → b ≡ true → b ≡ false → ⊥
scarce {b = b} t f = ground (arith, t, f)

-- A new icount for the inodes of a file system.
record IsNew (fs : Filsys) (ic : Icount) : Type 0 where
  num_ok : ic.num_inodes ≡ fs.super.s_inodes_count
  magic_ok : ic.magic ≡ magic_icount
  single_new : IsFresh fs.super.s_inodes_count ic.single
  multiple_ok : IsMultipleMap fs.super.s_inodes_count ic.multiple
  last_ok : ic.last_lookup ≡ none

alloc_icount_lem :
    (memory : Memory) (fs : Filsys) (increment : Bool)
    → HasInodes fs
    → ((ic : Icount) × (alloc_icount memory fs increment ≡ made ic) × IsNew fs ic)
      ⊎ ((alloc_icount memory fs increment ≡ failed no_memory) × (memory ≢ plenty))
unfolding alloc_icount
alloc_icount_lem memory fs increment h = elim (Bool-cases memory.icount_ok) [
  | inr e ↦ inr (rw e refl, λ p. scarce (ap (λ (m : Memory). m.icount_ok) p) e)
  | inl e ↦ rw e (elim (allocate_lem memory.single_ok memory.single_array_ok fs h) [
    | inr (f, g) ↦
        inr (rw g refl, λ p. scarce (ap (λ (m : Memory). m.single_ok && m.single_array_ok) p) f)
    | inl (bm, g, new) ↦ rw g (elim (Bool-cases increment) [
      | inr i ↦ rw i (
          inl (
            _,
            refl,
            record {
              num_ok = refl;
              magic_ok = refl;
              single_new = new;
              multiple_ok = tt;
              last_ok = refl;
            },
          ))
      | inl i ↦ rw i (elim (allocate_lem memory.multiple_ok memory.multiple_array_ok fs h) [
        | inr (f, k) ↦
            inr (
              rw k refl,
              λ p. scarce (ap (λ (m : Memory). m.multiple_ok && m.multiple_array_ok) p) f,
            )
        | inl (bm2, k, new2) ↦ rw k (
            inl (
              _,
              refl,
              record {
                num_ok = refl;
                magic_ok = refl;
                single_new = new;
                multiple_ok = new2.all;
                last_ok = refl;
              },
            ))
      ])
    ])
  ])
]

-- A valid icount that counts no links.
pub record IsEmptyCount (fs : Filsys) (ic : Icount) : Type 0 where
  pub valid : IsValid ic
  pub num_ok : ic.num_inodes ≡ fs.super.s_inodes_count
  pub fits : Fits ic
  pub nothing : (n : ℕ) → links ic n ≡ 0

filled-IsEmptyCount :
    (fs : Filsys) (ic : Icount) (size : ℕ) (hint : Option Icount)
    → IsNew fs ic
    → IsHint hint
    → IsEmptyCount fs (record ic { size = list_size fs size hint; list = hinted hint })
filled-IsEmptyCount fs ic size hint new v = record {
  valid = record {
    magic_ok = new.magic_ok;
    singles = rw new.num_ok new.single_new.all;
    multiples = rw new.num_ok new.multiple_ok;
    listed = record {
      ascending = hinted-IsAscending hint v;
      last_ok = λ i e. absurd (ground (arith, e, new.last_ok));
    };
  };
  num_ok = new.num_ok;
  fits = hinted-fits fs size hint v;
  nothing = λ n.
      ground (
        arith,
        new.single_new.nothing n,
        lookup-hinted hint n,
        Bool-cases (missed_by_multiple ic n),
      );
}

hint_passes :
    (hint : Option Icount)
    → IsHint hint
    → Path Bool (elim hint [ none ↦ false | some h ↦ not (h.magic == magic_icount) ]) false
hint_passes none v = refl
hint_passes (some h) (e, _, _) = ground (arith, e)

-- For a file system with an inode, whose groups cover its inodes with numbers of 32 bits,
-- `ext2fs_create_icount2`, given no hint or one whose list is in order, makes a valid icount of all
-- inodes in which no inode has a link, whose list has room for the entries of the hint; or an
-- allocation failed, and the status says so.
pub create_icount2_lem :
    (memory : Memory) (fs : Filsys) (increment : Bool) (size : ℕ) (hint : Option Icount)
    → HasInodes fs
    → IsHint hint
    → ((ic : Icount) × (create_icount2 memory fs increment size hint ≡ made ic)
        × IsEmptyCount fs ic)
      ⊎ ((create_icount2 memory fs increment size hint ≡ failed no_memory) × (memory ≢ plenty))
unfolding create_icount2
create_icount2_lem memory fs increment size hint h v =
    rw (hint_passes hint v) (elim (alloc_icount_lem memory fs increment h) [
      | inr (e, few) ↦ inr (rw e refl, few)
      | inl (ic, e, new) ↦ rw e (elim (Bool-cases memory.list_ok) [
        | inr l ↦ inr (rw l refl, λ p. scarce (ap (λ (m : Memory). m.list_ok) p) l)
        | inl l ↦ inl (_, rw l refl, filled-IsEmptyCount fs ic size hint new v)
      ])
    ])
