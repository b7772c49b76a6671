-- ===== src/Icount/Answers.antt =====
-- source/icount.c: the numbers of links that the ends of the operations leave.
use native.Mathlib.Decide.{ℕ_discrete}
use libext2fs.Prelude.{
  ℕ, ◌≤◌, ◌≡◌, inl, inr, refl, Option, none, some, false, ◌==◌, if◌then◌else◌, arith, ap,
  Bool-cases, ==_iff, ne→==,
}
use libext2fs.Bitmap.{Bitmap}
use libext2fs.Icount.{Icount, icount_16_xlate, set_inode_count}
use libext2fs.Icount.Entries.{lookup}
use libext2fs.Icount.Operations.{
  in_single, missed_by_multiple, has_multiple, mark_single, unmark_single, mark_multiple,
  unmark_multiple, is_bad_ino, forget,
}
use libext2fs.Icount.Invariant.{IsListing, IsSame, IsValid, listing-IsValid}
use libext2fs.Icount.Marks.{
  links, in_single-mark, in_single-unmark, missed-mark, missed-unmark, mark_single-IsValid,
  unmark_single-IsValid, mark_multiple-IsValid, unmark_multiple-IsValid, in_single-listing,
  missed-listing, links-listing,
}
use libext2fs.Icount.Counts.{updated, IsStored, set_inode_count-IsStored, IsAnswered}

module _ (ic : Icount) (v : IsValid ic) (ino : ℕ) where
  -- What the guards let through.
  pub in_range : is_bad_ino ic ino ≡ false → (1 ≤ ino) × (ino ≤ ic.num_inodes)
  in_range h = (ground (arith, h), ground (arith, h))

  pub same_answer :
      (b : Icount)
      → IsSame ic b
      → (status : ℕ) (value : Option ℕ)
      → IsAnswered ic
          (record { status = status; value = value; counts = links ic })
          (status, value, b)
  same_answer b s status value = record {
    status_ok = refl;
    value_ok = refl;
    valid = listing-IsValid (lookup ic.list) ic b s v;
    num_same = s.num_same;
    counts_ok = links-listing (lookup ic.list) ic b s;
  }

-- The icount after an entry was set to a count, and the bitmaps were brought in line with it.
module _ (ic ic1 : Icount) (v : IsValid ic) (ino c : ℕ) (lo : 1 ≤ ino) (hi : ino ≤ ic.num_inodes)
    (s : IsListing (updated (lookup ic.list) ino c) ic ic1) where
  v1 : IsValid ic1
  v1 = listing-IsValid (updated (lookup ic.list) ino c) ic ic1 s v

  hi1 : ino ≤ ic1.num_inodes
  hi1 = omega (arith, s.num_same)

  -- An inode that is only in `multiple`.
  pub many_answer :
      (status : ℕ) (value : Option ℕ)
      → IsAnswered ic
          (record { status = status; value = value; counts = updated (links ic) ino c })
          (status, value, mark_multiple (unmark_single ic1 ino) ino)
  many_answer status value = record {
    status_ok = refl;
    value_ok = refl;
    valid = mark_multiple-IsValid (unmark_single ic1 ino) (unmark_single-IsValid ic1 v1 ino) ino;
    num_same = s.num_same;
    counts_ok = λ n. ground (
      arith,
      in_single-unmark ic1 v1 ino n,
      missed-mark (unmark_single ic1 ino) (unmark_single-IsValid ic1 v1 ino) ino n lo hi1,
      in_single-listing _ ic ic1 s n,
      missed-listing _ ic ic1 s n,
      s.counts_same n,
    );
  }

  -- The same where the inode was not in `single`.
  pub listed_answer :
      (status : ℕ) (value : Option ℕ)
      → in_single ic ino ≡ false
      → IsAnswered ic
          (record { status = status; value = value; counts = updated (links ic) ino c })
          (status, value, mark_multiple ic1 ino)
  listed_answer status value single = record {
    status_ok = refl;
    value_ok = refl;
    valid = mark_multiple-IsValid ic1 v1 ino;
    num_same = s.num_same;
    counts_ok = λ n. ground (
      arith,
      missed-mark ic1 v1 ino n lo hi1,
      in_single-listing _ ic ic1 s n,
      missed-listing _ ic ic1 s n,
      s.counts_same n,
      single,
      ap (λ (k : ℕ). in_single ic k) {x = ino} {y = n},
    );
  }

  module _ (single : in_single ic ino ≡ false) (missed : missed_by_multiple ic ino ≡ false) where
    kept : (n : ℕ) → links ic1 n ≡ updated (links ic) ino c n
    kept n = ground (
      arith,
      links-listing _ ic ic1 s n,
      single,
      missed,
      ap (λ (k : ℕ). in_single ic k) {x = ino} {y = n},
      ap (λ (k : ℕ). missed_by_multiple ic k) {x = ino} {y = n},
    )

    -- The end of `decrement_listed`.
    pub decremented_answer :
        IsAnswered ic
          (record {
            status = 0;
            value = some (icount_16_xlate c);
            counts = updated (links ic) ino c;
          })
          (
            0,
            some (icount_16_xlate c),
            let ic3 = if c == 1 then mark_single ic1 ino else ic1 in
                if c == 0 then unmark_multiple ic3 ino else ic3,
          )
    decremented_answer = elim (ℕ_discrete c 0) [
      | yes z ↦ rw (ne→== c 1 (omega arith)) (
          rw ((==_iff c 0).1 z) (record {
            status_ok = refl;
            value_ok = refl;
            valid = unmark_multiple-IsValid ic1 v1 ino;
            num_same = s.num_same;
            counts_ok = λ n. ground (
              arith,
              kept n,
              missed-unmark ic1 v1 ino n,
              in_single-listing _ ic ic1 s n,
              single,
              ap (λ (k : ℕ). in_single ic k) {x = ino} {y = n},
            );
          }))
      | no nz ↦ rw (ne→== c 0 nz) (elim (ℕ_discrete c 1) [
        | yes o ↦ rw ((==_iff c 1).1 o) (record {
          status_ok = refl;
          value_ok = refl;
          valid = mark_single-IsValid ic1 v1 ino;
          num_same = s.num_same;
          counts_ok = λ n. ground (arith, kept n, in_single-mark ic1 v1 ino n lo hi1);
        })
        | no no_one ↦ rw (ne→== c 1 no_one) (record {
          status_ok = refl;
          value_ok = refl;
          valid = v1;
          num_same = s.num_same;
          counts_ok = kept;
        })
      ])
    ]

no_multiple : (ic : Icount) (n : ℕ) → has_multiple ic ≡ false → missed_by_multiple ic n ≡ false
no_multiple ic n h = by_cases ic.multiple h
  where
    by_cases :
        (o : Option Bitmap)
        → has_multiple (record ic { multiple = o }) ≡ false
        → missed_by_multiple (record ic { multiple = o }) n ≡ false
    by_cases none h = refl
    by_cases (some bm) h = absurd (ground (arith, h))

module _ (room : Option ℕ) (ic : Icount) (v : IsValid ic) (ino : ℕ) where
  forgotten :
      IsStored room (unmark_single ic ino) ino 0 (set_inode_count room (unmark_single ic ino) ino 0)
      → IsListing
          (updated (lookup ic.list) ino 0)
          (unmark_single ic ino)
          (set_inode_count room (unmark_single ic ino) ino 0).1
  forgotten (inl (_, s)) = s
  forgotten (inr (_, _, zero, s)) = record {
    magic_same = s.magic_same;
    single_same = s.single_same;
    multiple_same = s.multiple_same;
    num_same = s.num_same;
    counts_same = λ n.
        ground (arith, zero, s.counts_same n, ap (λ (k : ℕ). lookup ic.list k) {x = ino} {y = n});
    listed = s.listed;
  }

  -- No bitmap or entry counts an inode that was forgotten, whether there was memory or not.
  pub forget_answer :
      (value : Option ℕ)
      → IsAnswered ic
          (record { status = 0; value = value; counts = updated (links ic) ino 0 })
          (0, value, forget room (unmark_single ic ino) ino)
  unfolding forget
  forget_answer value = elim (Bool-cases (has_multiple ic)) [
    | inl h ↦ rw h (record {
      status_ok = refl;
      value_ok = refl;
      valid = unmark_multiple-IsValid (unmark_single ic ino) b_valid ino;
      num_same = refl;
      counts_ok = λ n. ground (
        arith,
        in_single-unmark ic v ino n,
        missed-unmark (unmark_single ic ino) b_valid ino n,
        h,
      );
    })
    | inr h ↦ rw h (record {
      status_ok = refl;
      value_ok = refl;
      valid = listing-IsValid _ (unmark_single ic ino) _ listing b_valid;
      num_same = listing.num_same;
      counts_ok = λ n. ground (
        arith,
        links-listing _ (unmark_single ic ino) _ listing n,
        in_single-unmark ic v ino n,
        no_multiple ic n h,
      );
    })
  ]
    where
      b_valid : IsValid (unmark_single ic ino)
      b_valid = unmark_single-IsValid ic v ino

      listing :
          IsListing
            (updated (lookup ic.list) ino 0)
            (unmark_single ic ino)
            (set_inode_count room (unmark_single ic ino) ino 0).1
      listing = forgotten (set_inode_count-IsStored room (unmark_single ic ino) ino 0 v.listed)
