-- ===== src/Icount/Steps.antt =====
-- source/icount.c: the parts of the operations that use the list do to the numbers of links what a request says.
use native.Mathlib.Decide.{ℕ_discrete}
use libext2fs.Prelude.{
  ℕ, ◌+◌, ◌-◌, ◌≤◌, ◌≡◌, inl, inr, refl, u32, Option, none, some, true, false, ◌==◌, if◌then◌else◌,
  arith, ap, sym, ◌∙◌, Bool-cases, ==_iff, ne→==,
}
use libext2fs.Errors.{no_memory, invalid_argument, magic_icount}
use libext2fs.Icount.{Icount, icount_16_xlate, set_inode_count, get_inode_count}
use libext2fs.Icount.Entries.{lookup}
use libext2fs.Icount.Operations.{
  in_single, missed_by_multiple, mark_single, unmark_multiple, is_bad_ino, icount_fetch,
  increment_listed, increment_single, decrement_listed, store_listed,
}
use libext2fs.Icount.Invariant.{IsSame, IsValid, trans-IsSame, refl-IsSame}
use libext2fs.Icount.Marks.{
  links, in_single-mark, missed-unmark, mark_single-IsValid, unmark_multiple-IsValid,
}
use libext2fs.Icount.Counts.{
  fetch, increment, decrement, store, specified, answered, IsStored, set_inode_count-IsStored,
  get_inode_count-IsGot, IsAnswered, IsOutcome,
}
use libext2fs.Icount.Answers.{same_answer, many_answer, listed_answer, decremented_answer}

-- Setting a count in an icount that stands for the same counts.
after_same :
    (room : Option ℕ) (ic ic1 : Icount) (ino c : ℕ) (r : ℕ × Icount)
    → IsSame ic ic1
    → IsStored room ic1 ino c r
    → IsStored room ic ino c r
after_same room ic ic1 ino c r same (inl (e, s)) = inl (
  e,
  record {
    magic_same = s.magic_same ∙ same.magic_same;
    single_same = s.single_same ∙ same.single_same;
    multiple_same = s.multiple_same ∙ same.multiple_same;
    num_same = s.num_same ∙ same.num_same;
    counts_same =
        λ n. s.counts_same n ∙ ap (λ (k : ℕ). if ino == n then c else k) (same.counts_same n);
    listed = s.listed;
  },
)
after_same room ic ic1 ino c r same (inr (e, no_room, zero, s)) =
    inr (e, no_room, sym (same.counts_same ino) ∙ zero, trans-IsSame ic ic1 r.1 same s)

module _ (ic : Icount) (v : IsValid ic) (ino : ℕ) where
  pub fetch-IsAnswered :
      IsAnswered ic (specified ic.num_inodes (links ic) (fetch ino)) (icount_fetch ic ino)
  unfolding icount_fetch
  fetch-IsAnswered =
      rw ((==_iff ic.magic magic_icount).1 v.magic_ok) (elim (Bool-cases (is_bad_ino ic ino)) [
        | inl e ↦ rw e (same_answer ic v ino ic (refl-IsSame ic v.listed) invalid_argument none)
        | inr e ↦ rw e (elim (Bool-cases (in_single ic ino)) [
          | inl s ↦ rw s (same_answer ic v ino ic (refl-IsSame ic v.listed) 0 (some 1))
          | inr s ↦ rw s (elim (Bool-cases (missed_by_multiple ic ino)) [
            | inl m ↦ rw m (same_answer ic v ino ic (refl-IsSame ic v.listed) 0 (some 0))
            | inr m ↦
                rw (m, (get_inode_count-IsGot ic ino v.listed).0)
                  (same_answer ic v ino _ (get_inode_count-IsGot ic ino v.listed).1 0
                    (some (icount_16_xlate (lookup ic.list ino))))
          ])
        ])
      ])

  pub fresh : IsSame ic ic
  fresh = refl-IsSame ic v.listed

  pub increment_single-IsOutcome :
      (room : Option ℕ)
      → 1 ≤ ino
      → ino ≤ ic.num_inodes
      → in_single ic ino ≡ true
      → IsOutcome room ic (answered (links ic) (increment ino)) (increment_single room ic ino)
  unfolding increment_single
  increment_single-IsOutcome room lo hi s = elim (set_inode_count-IsStored room ic ino 2 v.listed) [
    | inl (e, listing) ↦ inl (rw (e, s) (many_answer ic _ v ino 2 lo hi listing 0 (some 2)))
    | inr (e, no_room, zero, same) ↦
        inr (no_room, rw e (same_answer ic v ino _ same no_memory none))
  ]

  -- The list's count of an inode that only the list counts.
  links_listed :
      in_single ic ino ≡ false
      → missed_by_multiple ic ino ≡ false
      → links ic ino ≡ lookup ic.list ino
  links_listed single missed = rw (single, missed) refl

  -- The icount in which `get_inode_count` found the count, with the count set.
  got_and_set :
      (room : Option ℕ) (c : ℕ)
      → IsStored room ic ino c (set_inode_count room (get_inode_count ic ino).2 ino c)
  got_and_set room c =
      after_same room ic (get_inode_count ic ino).2 ino c _ got
        (set_inode_count-IsStored room (get_inode_count ic ino).2 ino c got.listed)
    where
      got : IsSame ic (get_inode_count ic ino).2
      got = (get_inode_count-IsGot ic ino v.listed).1

  pub increment_listed-IsOutcome :
      (room : Option ℕ)
      → 1 ≤ ino
      → ino ≤ ic.num_inodes
      → in_single ic ino ≡ false
      → missed_by_multiple ic ino ≡ false
      → IsOutcome room ic (answered (links ic) (increment ino)) (increment_listed room ic ino)
  unfolding increment_listed
  increment_listed-IsOutcome room lo hi single missed =
      rw (links_listed single missed, (get_inode_count-IsGot ic ino v.listed).0)
        (elim (got_and_set room (u32 (lookup ic.list ino + 1))) [
          | inl (e, listing) ↦ inl (rw e (listed_answer ic _ v ino _ lo hi listing 0 _ single))
          | inr (e, no_room, zero, same) ↦
              inr (no_room, rw e (same_answer ic v ino _ same no_memory none))
        ])

  pub decrement_listed-IsOutcome :
      (room : Option ℕ)
      → 1 ≤ ino
      → ino ≤ ic.num_inodes
      → in_single ic ino ≡ false
      → missed_by_multiple ic ino ≡ false
      → IsOutcome room ic (answered (links ic) (decrement ino)) (decrement_listed room ic ino)
  unfolding decrement_listed
  decrement_listed-IsOutcome room lo hi single missed =
      rw (links_listed single missed, (get_inode_count-IsGot ic ino v.listed).0)
        (elim (ℕ_discrete (lookup ic.list ino) 0) [
          | yes z ↦ rw ((==_iff (lookup ic.list ino) 0).1 z) (
              inl (
                same_answer ic v ino _ (get_inode_count-IsGot ic ino v.listed).1 invalid_argument
                  none))
          | no nz ↦
              rw (ne→== (lookup ic.list ino) 0 nz)
                (elim (got_and_set room (lookup ic.list ino - 1)) [
                  | inl (e, listing) ↦
                      inl (rw e (decremented_answer ic _ v ino _ lo hi listing single missed))
                  | inr (e, no_room, zero, same) ↦
                      inr (no_room, rw e (same_answer ic v ino _ same no_memory none))
                ])
        ])

  pub store_listed-IsOutcome :
      (room : Option ℕ) (c : ℕ)
      → 1 ≤ ino
      → ino ≤ ic.num_inodes
      → IsOutcome room ic
          (answered (links ic) (store ino c))
          (let (status, ic') = store_listed room ic ino c in (status, none, ic'))
  unfolding store_listed
  store_listed-IsOutcome room c lo hi = elim (set_inode_count-IsStored room ic ino c v.listed) [
    | inl (e, listing) ↦ inl (rw e (many_answer ic _ v ino c lo hi listing 0 none))
    | inr (e, no_room, zero, same) ↦
        inr (no_room, rw e (same_answer ic v ino _ same no_memory none))
  ]

  -- `ext2fs_icount_store` with a count of 1.
  pub store_one :
      1 ≤ ino
      → ino ≤ ic.num_inodes
      → IsAnswered ic
          (answered (links ic) (store ino 1))
          (0, none, unmark_multiple (mark_single ic ino) ino)
  store_one lo hi = record {
    status_ok = refl;
    value_ok = refl;
    valid = unmark_multiple-IsValid (mark_single ic ino) (mark_single-IsValid ic v ino) ino;
    num_same = refl;
    counts_ok = λ n. ground (
      arith,
      in_single-mark ic v ino n lo hi,
      missed-unmark (mark_single ic ino) (mark_single-IsValid ic v ino) ino n,
    );
  }
