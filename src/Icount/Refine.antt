-- ===== src/Icount/Refine.antt =====
-- source/icount.c: the operations do to the numbers of links what their requests say.
use native.Mathlib.Decide.{ℕ_discrete}
use libext2fs.Prelude.{
  ℕ, ◌≡◌, ◌≢◌, inl, inr, refl, Option, none, some, true, false, ◌==◌, arith, Bool-cases, ==_iff,
  ne→==,
}
use libext2fs.Errors.{invalid_argument, magic_icount}
use libext2fs.Icount.{Icount}
use libext2fs.Icount.Operations.{
  in_single, missed_by_multiple, mark_single, unmark_single, unmark_multiple, is_bad_ino,
  icount_fetch, icount_increment, increment_listed, increment_single, icount_decrement,
  decrement_listed, forget, icount_store, store_listed,
}
use libext2fs.Icount.Invariant.{IsValid}
use libext2fs.Icount.Marks.{links, in_single-mark, mark_single-IsValid}
use libext2fs.Icount.Counts.{
  Request, fetch, increment, decrement, store, specified, answered, IsAnswered, IsOutcome,
}
use libext2fs.Icount.Answers.{in_range, same_answer, forget_answer}
use libext2fs.Icount.Steps.{
  fetch-IsAnswered, fresh, increment_single-IsOutcome, increment_listed-IsOutcome,
  decrement_listed-IsOutcome, store_listed-IsOutcome, store_one,
}

module _ (ic : Icount) (v : IsValid ic) (ino : ℕ) where
  magic_holds : (ic.magic == magic_icount) ≡ true
  magic_holds = (==_iff ic.magic magic_icount).1 v.magic_ok

  module _ (room : Option ℕ) where
    increment-IsOutcome :
        IsOutcome room ic
          (specified ic.num_inodes (links ic) (increment ino))
          (icount_increment room ic ino)
    increment-IsOutcome = elim (Bool-cases (is_bad_ino ic ino)) [
      | inl e ↦
          rw (e, refused e) (inl (same_answer ic v ino ic (fresh ic v ino) invalid_argument none))
      | inr e ↦ rw e (elim (Bool-cases (in_single ic ino)) [
        | inl s ↦ rw (single e s) (
            increment_single-IsOutcome ic v ino room (in_range ic v ino e).0 (in_range ic v ino e).1
              s)
        | inr s ↦ elim (Bool-cases (missed_by_multiple ic ino)) [
          | inl m ↦ rw (missed e s m) (inl (first_link e s m))
          | inr m ↦ rw (listed e s m) (
              increment_listed-IsOutcome ic v ino room (in_range ic v ino e).0
                (in_range ic v ino e).1 s m)
        ]
      ])
    ]
      where
        refused :
            is_bad_ino ic ino ≡ true → icount_increment room ic ino ≡ (invalid_argument, none, ic)
        refused e = unfold icount_increment in rw (magic_holds, e) refl

        single :
            is_bad_ino ic ino ≡ false
            → in_single ic ino ≡ true
            → icount_increment room ic ino ≡ increment_single room ic ino
        single e s = unfold icount_increment in rw (magic_holds, e, s) refl

        missed :
            is_bad_ino ic ino ≡ false
            → in_single ic ino ≡ false
            → missed_by_multiple ic ino ≡ true
            → icount_increment room ic ino ≡ (0, some 1, mark_single ic ino)
        missed e s m = unfold icount_increment in rw (magic_holds, e, s, m) refl

        listed :
            is_bad_ino ic ino ≡ false
            → in_single ic ino ≡ false
            → missed_by_multiple ic ino ≡ false
            → icount_increment room ic ino ≡ increment_listed room ic ino
        listed e s m = unfold icount_increment in rw (magic_holds, e, s, m) refl

        first_link :
            is_bad_ino ic ino ≡ false
            → in_single ic ino ≡ false
            → missed_by_multiple ic ino ≡ true
            → IsAnswered ic (answered (links ic) (increment ino)) (0, some 1, mark_single ic ino)
        first_link e s m =
            rw (s, m)
              (record {
                status_ok = refl;
                value_ok = refl;
                valid = mark_single-IsValid ic v ino;
                num_same = refl;
                counts_ok = λ n. ground (
                  arith,
                  in_single-mark ic v ino n (in_range ic v ino e).0 (in_range ic v ino e).1,
                );
              })

    decrement-IsOutcome :
        IsOutcome room ic
          (specified ic.num_inodes (links ic) (decrement ino))
          (icount_decrement room ic ino)
    decrement-IsOutcome = elim (Bool-cases (is_bad_ino ic ino)) [
      | inl e ↦
          rw (e, refused e) (inl (same_answer ic v ino ic (fresh ic v ino) invalid_argument none))
      | inr e ↦ rw e (elim (Bool-cases (in_single ic ino)) [
        | inl s ↦ rw (single e s) (inl (rw s (forget_answer room ic v ino (some 0))))
        | inr s ↦ elim (Bool-cases (missed_by_multiple ic ino)) [
          | inl m ↦
              rw (missed e s m)
                (rw (s, m) (inl (same_answer ic v ino ic (fresh ic v ino) invalid_argument none)))
          | inr m ↦ rw (listed e s m) (
              decrement_listed-IsOutcome ic v ino room (in_range ic v ino e).0
                (in_range ic v ino e).1 s m)
        ]
      ])
    ]
      where
        refused :
            is_bad_ino ic ino ≡ true → icount_decrement room ic ino ≡ (invalid_argument, none, ic)
        refused e = unfold icount_decrement in rw (magic_holds, e) refl

        single :
            is_bad_ino ic ino ≡ false
            → in_single ic ino ≡ true
            → icount_decrement room ic ino ≡ (0, some 0, forget room (unmark_single ic ino) ino)
        single e s = unfold icount_decrement in rw (magic_holds, e, s) refl

        missed :
            is_bad_ino ic ino ≡ false
            → in_single ic ino ≡ false
            → missed_by_multiple ic ino ≡ true
            → icount_decrement room ic ino ≡ (invalid_argument, none, ic)
        missed e s m = unfold icount_decrement in rw (magic_holds, e, s, m) refl

        listed :
            is_bad_ino ic ino ≡ false
            → in_single ic ino ≡ false
            → missed_by_multiple ic ino ≡ false
            → icount_decrement room ic ino ≡ decrement_listed room ic ino
        listed e s m = unfold icount_decrement in rw (magic_holds, e, s, m) refl

    store-IsOutcome :
        (c : ℕ)
        → IsOutcome room ic
            (specified ic.num_inodes (links ic) (store ino c))
            (let (status, ic') = icount_store room ic ino c in (status, none, ic'))
    store-IsOutcome c = elim (Bool-cases (is_bad_ino ic ino)) [
      | inl e ↦
          rw (e, refused e) (inl (same_answer ic v ino ic (fresh ic v ino) invalid_argument none))
      | inr e ↦ rw e (elim (ℕ_discrete c 1) [
        | yes one ↦
            rw (stores_one e one)
              (inl (rw one (store_one ic v ino (in_range ic v ino e).0 (in_range ic v ino e).1)))
        | no not_one ↦ elim (ℕ_discrete c 0) [
          | yes zero ↦ rw (stores_none e zero) (inl (rw zero (forget_answer room ic v ino none)))
          | no not_zero ↦ rw (stores_more e not_one not_zero) (
              store_listed-IsOutcome ic v ino room c (in_range ic v ino e).0
                (in_range ic v ino e).1)
        ]
      ])
    ]
      where
        refused : is_bad_ino ic ino ≡ true → icount_store room ic ino c ≡ (invalid_argument, ic)
        refused e = unfold icount_store in rw (magic_holds, e) refl

        stores_one :
            is_bad_ino ic ino ≡ false
            → c ≡ 1
            → icount_store room ic ino c ≡ (0, unmark_multiple (mark_single ic ino) ino)
        stores_one e one = unfold icount_store in rw (magic_holds, e, (==_iff c 1).1 one) refl

        stores_none :
            is_bad_ino ic ino ≡ false
            → c ≡ 0
            → icount_store room ic ino c ≡ (0, forget room (unmark_single ic ino) ino)
        stores_none e zero =
            unfold icount_store in
            rw (magic_holds, e, ne→== c 1 (omega arith), (==_iff c 0).1 zero) refl

        stores_more :
            is_bad_ino ic ino ≡ false
            → c ≢ 1
            → c ≢ 0
            → icount_store room ic ino c ≡ store_listed room ic ino c
        stores_more e not_one not_zero =
            unfold icount_store in rw (magic_holds, e, ne→== c 1 not_one, ne→== c 0 not_zero) refl

-- A call of the operation that a request names.
abbrev pub call : Option ℕ → Icount → Request → ℕ × Option ℕ × Icount
call room ic (fetch i) = icount_fetch ic i
call room ic (increment i) = icount_increment room ic i
call room ic (decrement i) = icount_decrement room ic i
call room ic (store i c) = let (status, ic') = icount_store room ic i c in (status, none, ic')

-- A call of ext2fs_icount_fetch, increment, decrement or store on a valid icount leaves it valid and
-- does what the request asks of a map from inodes to counts: an inode out of range is refused, as is
-- a decrement of 0; otherwise the count given is at most 65500, and only the inode's count changes,
-- modulo 2^32 for an increment. Or the list could not be grown, which the status says, and no count
-- changed.
pub call-IsOutcome :
    (room : Option ℕ) (ic : Icount) (r : Request)
    → IsValid ic
    → IsOutcome room ic (specified ic.num_inodes (links ic) r) (call room ic r)
call-IsOutcome room ic (fetch i) v = inl (fetch-IsAnswered ic v i)
call-IsOutcome room ic (increment i) v = increment-IsOutcome ic v i room
call-IsOutcome room ic (decrement i) v = decrement-IsOutcome ic v i room
call-IsOutcome room ic (store i c) v = store-IsOutcome ic v i room c
