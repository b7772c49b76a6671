-- ===== src/Bitmap/Single.antt =====
-- source/gen_bitmap.c: marking, unmarking and testing one number, as operations on a set.
use libext2fs.Prelude.{
  ℕ, ◌-◌, ◌≡◌, refl, ap, false, not, truth, ◌||◌, ◌&&◌, ◌==◌, arith, Bool-cases, inl, inr,
}
use libext2fs.Bitops.{set_bit, clear_bit}
use libext2fs.Bitops.Laws.{
  set_bit_was, clear_bit_was, member-set_bit, member-clear_bit, set_bit-IsBytes, clear_bit-IsBytes,
  length-set_bit, length-clear_bit,
}
use libext2fs.Bitmap.{
  Bitmap, outside, test_generic_bitmap, mark_generic_bitmap, unmark_generic_bitmap,
}
use libext2fs.Bitmap.Valid.{IsValid, truth-test}

module _ (bm : Bitmap) (n : ℕ) where
  pub outside-mark : (m : ℕ) → outside (mark_generic_bitmap bm n).1 m ≡ outside bm m
  unfolding mark_generic_bitmap
  outside-mark m = ground arith

  pub outside-unmark : (m : ℕ) → outside (unmark_generic_bitmap bm n).1 m ≡ outside bm m
  unfolding unmark_generic_bitmap
  outside-unmark m = ground arith

module _ (bm : Bitmap) (v : IsValid bm) where
  with_set : (n : ℕ) → IsValid (record bm { bitmap = (set_bit n bm.bitmap).1 })
  with_set n = record {
    kind = v.kind;
    ends = v.ends;
    starts = v.starts;
    small = v.small;
    room = omega (arith, v.room, length-set_bit n bm.bitmap);
    bytes = set_bit-IsBytes n bm.bitmap v.bytes;
  }

  with_clear : (n : ℕ) → IsValid (record bm { bitmap = (clear_bit n bm.bitmap).1 })
  with_clear n = record {
    kind = v.kind;
    ends = v.ends;
    starts = v.starts;
    small = v.small;
    room = omega (arith, v.room, length-clear_bit n bm.bitmap);
    bytes = clear_bit-IsBytes n bm.bitmap v.bytes;
  }

  after_set :
      (n m : ℕ)
      → outside bm n ≡ false
      → truth (test_generic_bitmap (record bm { bitmap = (set_bit (n - bm.start) bm.bitmap).1 }) m)
        ≡ ((n == m) || truth (test_generic_bitmap bm m))
  after_set n m e = ground (
    arith,
    v.room,
    v.ends,
    truth-test bm m v,
    truth-test (record bm { bitmap = (set_bit (n - bm.start) bm.bitmap).1 }) m
        (with_set (n - bm.start)),
    member-set_bit (n - bm.start) bm.bitmap (m - bm.start),
  )

  after_clear :
      (n m : ℕ)
      → outside bm n ≡ false
      → truth
          (test_generic_bitmap (record bm { bitmap = (clear_bit (n - bm.start) bm.bitmap).1 }) m)
        ≡ (not (n == m) && truth (test_generic_bitmap bm m))
  after_clear n m e = ground (
    arith,
    v.room,
    v.ends,
    truth-test bm m v,
    truth-test (record bm { bitmap = (clear_bit (n - bm.start) bm.bitmap).1 }) m
        (with_clear (n - bm.start)),
    member-clear_bit (n - bm.start) bm.bitmap (m - bm.start),
  )

  -- Marking a number, within the limits or not, keeps a bitmap valid.
  pub mark-IsValid : (n : ℕ) → IsValid (mark_generic_bitmap bm n).1
  unfolding mark_generic_bitmap
  mark-IsValid n = elim (Bool-cases (outside bm n)) [
    | inl e ↦ rw v.kind (rw e v)
    | inr e ↦ rw v.kind (rw e (with_set (n - bm.start)))
  ]

  pub unmark-IsValid : (n : ℕ) → IsValid (unmark_generic_bitmap bm n).1
  unfolding unmark_generic_bitmap
  unmark-IsValid n = elim (Bool-cases (outside bm n)) [
    | inl e ↦ rw v.kind (rw e v)
    | inr e ↦ rw v.kind (rw e (with_clear (n - bm.start)))
  ]

  -- After a number is marked in a valid bitmap, the tests that succeed are those that did before, and
  -- the one of that number if it is within the limits; a number outside them changes nothing.
  pub test-mark :
      (n m : ℕ)
      → truth (test_generic_bitmap (mark_generic_bitmap bm n).1 m)
        ≡ ((not (outside bm n) && (n == m)) || truth (test_generic_bitmap bm m))
  unfolding mark_generic_bitmap
  test-mark n m = elim (Bool-cases (outside bm n)) [
    | inl e ↦ rw v.kind (rw e refl)
    | inr e ↦ rw v.kind (rw e (after_set n m e))
  ]

  -- After a number is unmarked in a valid bitmap, the tests that succeed are those of the other numbers that did.
  pub test-unmark :
      (n m : ℕ)
      → truth (test_generic_bitmap (unmark_generic_bitmap bm n).1 m)
        ≡ (not (n == m) && truth (test_generic_bitmap bm m))
  unfolding unmark_generic_bitmap
  test-unmark n m = elim (Bool-cases (outside bm n)) [
    | inl e ↦ rw v.kind (rw e (ground (arith, e, truth-test bm m v)))
    | inr e ↦ rw v.kind (rw e (after_clear n m e))
  ]

  -- Marking and unmarking in a valid bitmap tell whether a test would have succeeded.
  pub mark-was :
      (n : ℕ)
      → (truth (mark_generic_bitmap bm n).0 ≡ truth (test_generic_bitmap bm n))
        × (truth (unmark_generic_bitmap bm n).0 ≡ truth (test_generic_bitmap bm n))
  unfolding mark_generic_bitmap unmark_generic_bitmap test_generic_bitmap
  mark-was n = elim (Bool-cases (outside bm n)) [
    | inl e ↦ rw v.kind (rw e (refl, refl))
    | inr e ↦ rw v.kind (
        rw e (
          ap truth (set_bit_was (n - bm.start) bm.bitmap),
          ap truth (clear_bit_was (n - bm.start) bm.bitmap),
        ))
  ]
