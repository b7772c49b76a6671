-- ===== src/Bitmap/Resize.antt =====
-- source/gen_bitmap.c: moving the limits of a bitmap, which may move its array.
use libext2fs.Prelude.{
  ℕ, ◌+◌, ◌-◌, ◌*◌, ◌/◌, ◌^◌, ◌≤◌, ◌<◌, ◌≡◌, inl, inr, refl, sym, ap, ◌∙◌, List, ◌++◌, length, take,
  Bool, true, false, if◌then◌else◌, truth, ltb, leb, ==_iff, ◌&&◌, ◌==◌, arith, Bool-cases, sub32,
  some,
}
use libext2fs.Bitops.{byte}
use libext2fs.Bitops.Laws.{member, IsBytes}
use libext2fs.Bitmap.{Bitmap, clear_down, wipe, test_generic_bitmap, resize_generic_bitmap}
use libext2fs.Bitmap.Valid.{IsValid, truth-test}
use libext2fs.Bitmap.Make.{member-zero_byte}
use libext2fs.Bitmap.Room.{
  member-same_byte, length-clear_down, clear_down-IsBytes, member-clear_down, byte-wipe,
  length-wipe, wipe-IsBytes,
}

-- No number beyond `real_end` is in the array, whose last byte may have room for some.
abbrev pub IsPadded : Bitmap → Type 0
IsPadded bm = (j : ℕ) → bm.real_end - bm.start < j → member bm.bitmap j ≡ 0

module _ (bm : Bitmap) (v : IsValid bm) (new_end new_real_end : ℕ) (low : bm.start ≤ new_end)
    (order : new_end ≤ new_real_end) (fits : new_real_end < 2 ^ 32) where
  -- An array that keeps the old numbers up to both ends and has no other up to the new one.
  record IsResized (bytes : List ℕ) : Type 0 where
    keeps :
        (j : ℕ)
        → bm.start + j ≤ new_end
        → member bytes j ≡ (if leb (bm.start + j) bm.end then member bm.bitmap j else 0)
    roomy : new_real_end - bm.start < 8 * length bytes
    byte_wise : IsBytes bytes

  abbrev moved : List ℕ → Bitmap
  moved bytes = record bm { end = new_end; real_end = new_real_end; bitmap = bytes }

  moved_lem :
      (bytes : List ℕ)
      → IsResized bytes
      → IsValid (moved bytes)
        × ((m : ℕ)
            → truth (test_generic_bitmap (moved bytes) m)
              ≡ (leb m new_end && truth (test_generic_bitmap bm m)))
  moved_lem bytes r = (
    valid,
    λ m. ground (
      arith,
      low,
      v.starts,
      truth-test bm m v,
      truth-test (moved bytes) m valid,
      r.keeps (m - bm.start),
    ),
  )
    where
      valid : IsValid (moved bytes)
      valid = record {
        kind = v.kind;
        ends = order;
        starts = low;
        small = fits;
        room = r.roomy;
        bytes = r.byte_wise;
      }

  abbrev bitno : ℕ
  bitno = if ltb new_end bm.real_end then new_end else bm.real_end

  -- The array after the loop of the function, if it runs.
  abbrev cleared : List ℕ
  cleared =
      if ltb bm.end new_end then clear_down (bitno - bm.end) bitno bm.start bm.bitmap else bm.bitmap

  length-cleared : length cleared ≡ length bm.bitmap
  length-cleared = elim (Bool-cases (ltb bm.end new_end)) [
    | inl e ↦ rw e (length-clear_down (bitno - bm.end) bitno bm.start bm.bitmap)
    | inr e ↦ rw e refl
  ]

  cleared-IsBytes : IsBytes cleared
  cleared-IsBytes = elim (Bool-cases (ltb bm.end new_end)) [
    | inl e ↦ rw e (clear_down-IsBytes (bitno - bm.end) bitno bm.start bm.bitmap v.bytes)
    | inr e ↦ rw e v.bytes
  ]

  member-cleared :
      (j : ℕ)
      → IsPadded bm
      → bm.start + j ≤ new_end
      → member cleared j ≡ (if leb (bm.start + j) bm.end then member bm.bitmap j else 0)
  member-cleared j p h = elim (Bool-cases (ltb bm.end new_end)) [
    | inl e ↦ rw e (
        ground (
          arith,
          v.ends,
          v.starts,
          p j,
          member-clear_down (bitno - bm.end) bitno bm.start bm.bitmap j (omega arith)
              (ground (arith, v.ends, v.starts)) (ground (arith, v.small))
              (ground (arith, v.ends, v.starts, v.room)),
        ))
    | inr e ↦ rw e (ground arith)
  ]

  cleared-IsResized :
      IsPadded bm → new_real_end - bm.start < 8 * length bm.bitmap → IsResized cleared
  cleared-IsResized p r = record {
    keeps = λ j h. member-cleared j p h;
    roomy = omega (arith, length-cleared, r);
    byte_wise = cleared-IsBytes;
  }

  abbrev size : ℕ
  size = (bm.real_end - bm.start) / 8 + 1

  abbrev new_size : ℕ
  new_size = (new_real_end - bm.start) / 8 + 1

  wiped-IsResized :
      (fresh : List ℕ)
      → IsPadded bm
      → new_size ≤ length bm.bitmap + length fresh
      → IsResized (wipe size new_size (take new_size (cleared ++ fresh)))
  wiped-IsResized fresh p r = record {
    keeps = kept;
    roomy = omega (arith, length-wipe size new_size cleared fresh a b);
    byte_wise = wipe-IsBytes size new_size cleared fresh a b cleared-IsBytes;
  }
    where
      a : size ≤ length cleared
      a = omega (arith, length-cleared, v.room)

      b : new_size ≤ length cleared + length fresh
      b = omega (arith, length-cleared, r)

      wiped : List ℕ
      wiped = wipe size new_size (take new_size (cleared ++ fresh))

      at_byte :
          (j : ℕ)
          → bm.start + j ≤ new_end
          → byte wiped (j / 8) ≡ (if ltb (j / 8) size then byte cleared (j / 8) else 0)
      at_byte j h = byte-wipe size new_size cleared fresh (j / 8) a b (omega (arith, order))

      kept :
          (j : ℕ)
          → bm.start + j ≤ new_end
          → member wiped j ≡ (if leb (bm.start + j) bm.end then member bm.bitmap j else 0)
      kept j h = elim (Bool-cases (ltb (j / 8) size)) [
        | inl e ↦ member-same_byte wiped cleared j (at_byte j h ∙ rw e refl) ∙ member-cleared j p h
        | inr e ↦
            let f : leb (bm.start + j) bm.end ≡ false = ground (arith, v.ends, v.starts) in
            rw f (member-zero_byte wiped j (at_byte j h ∙ rw e refl))
      ]

  -- The array that the function leaves.
  abbrev final : List ℕ → List ℕ
  final fresh =
      if new_real_end == bm.real_end
      then cleared
      else (if size == new_size
          then cleared
          else wipe size new_size (take new_size (cleared ++ fresh)))

  final-IsResized :
      (fresh : List ℕ)
      → IsPadded bm
      → new_size ≤ length bm.bitmap + length fresh
      → IsResized (final fresh)
  final-IsResized fresh p r = elim (Bool-cases (new_real_end == bm.real_end)) [
    | inl e ↦ rw e (cleared-IsResized p (ground (arith, v.room)))
    | inr e ↦ rw e (elim (Bool-cases (size == new_size)) [
      | inl f ↦ rw f (cleared-IsResized p (ground (arith, v.room, v.starts, v.ends)))
      | inr f ↦ rw f (wiped-IsResized fresh p r)
    ])
  ]

  branches :
      (c w : List ℕ) (x y : Bool)
      → (x ≡ true → new_real_end ≡ bm.real_end)
      → ◌≡◌ {A = ℕ × Bitmap}
          (if x
            then (0, record bm { end = new_end; bitmap = c })
            else (if y
                then (0, record bm { end = new_end; real_end = new_real_end; bitmap = c })
                else (0, record bm { end = new_end; real_end = new_real_end; bitmap = w })))
          (0, moved (if x then c else (if y then c else w)))
  branches c w true y h =
      ap {A = ℕ} {B = ℕ × Bitmap} (λ n. (0, record bm { end = new_end; real_end = n; bitmap = c }))
        (sym (h refl))
  branches c w false true h = refl
  branches c w false false h = refl

  resize-eq :
      (fresh : List ℕ)
      → resize_generic_bitmap (some fresh) bm.magic new_end new_real_end bm
        ≡ (0, moved (final fresh))
  unfolding resize_generic_bitmap
  resize-eq fresh =
      let s : sub32 bm.real_end bm.start ≡ bm.real_end - bm.start =
        omega (arith, v.small, v.starts, v.ends) in
      let t : sub32 new_real_end bm.start ≡ new_real_end - bm.start = omega arith in
      let same : (bm.magic == bm.magic) ≡ true = ground arith in
      rw s (
        rw t (
          rw same (elim (Bool-cases (ltb bm.end new_end)) [
            | inl c ↦ rw c (
                branches (clear_down (bitno - bm.end) bitno bm.start bm.bitmap) _
                  (new_real_end == bm.real_end) (size == new_size)
                  ((==_iff new_real_end bm.real_end).0))
            | inr c ↦ rw c (
                branches bm.bitmap _ (new_real_end == bm.real_end) (size == new_size)
                  ((==_iff new_real_end bm.real_end).0))
          ])))

  -- Moving the limits of a valid bitmap, which has no number beyond the room that it claims, to
  -- ordered 32-bit limits, with memory where it grows, succeeds: the bitmap is valid, and the tests
  -- that succeed are those up to the new end that did before. Numbers that are new are not in it.
  pub resize_lem :
      (fresh : List ℕ)
      → IsPadded bm
      → (new_real_end - bm.start) / 8 + 1 ≤ length bm.bitmap + length fresh
      → ((resize_generic_bitmap (some fresh) bm.magic new_end new_real_end bm).0 ≡ 0)
        × IsValid (resize_generic_bitmap (some fresh) bm.magic new_end new_real_end bm).1
        × ((m : ℕ)
            → truth (
                test_generic_bitmap
                  (resize_generic_bitmap (some fresh) bm.magic new_end new_real_end bm).1
                  m)
              ≡ (leb m new_end && truth (test_generic_bitmap bm m)))
  resize_lem fresh p r =
      let (valid, tests) = moved_lem (final fresh) (final-IsResized fresh p r) in
      rw (resize-eq fresh) (refl, valid, tests)
