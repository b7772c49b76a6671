-- ===== src/Bitmap/Ranges/Copy.antt =====
-- source/gen_bitmap.c: copying whole bytes of a bitmap in and out.
use libext2fs.Prelude.{
  ℕ, zero, suc, ◌+◌, ◌-◌, ◌/◌, ◌%◌, ◌^◌, ◌≤◌, ◌<◌, ◌≡◌, refl, ap, List, [], ◌∷◌, ◌++◌, length, take,
  drop, length-take, true, false, ltb, ◌||◌, ◌==◌, some, arith,
}
use libext2fs.Bitmap.{Bitmap}
use libext2fs.Bitmap.Ranges.{get_generic_bitmap_range, set_generic_bitmap_range, last_of}

take-append : (n : ℕ) (xs ys : List ℕ) → length xs ≡ n → take n (xs ++ ys) ≡ xs
take-append zero [] ys e = refl
take-append zero (x ∷ xs) ys e = absurd (omega arith)
take-append (suc n) [] ys e = absurd (omega arith)
take-append (suc n) (x ∷ xs) ys e = ap (λ r. x ∷ r) (take-append n xs ys (omega arith))

drop-append : (n : ℕ) (xs ys : List ℕ) → length xs ≡ n → drop n (xs ++ ys) ≡ ys
drop-append zero [] ys e = refl
drop-append zero (x ∷ xs) ys e = absurd (omega arith)
drop-append (suc n) [] ys e = absurd (omega arith)
drop-append (suc n) (x ∷ xs) ys e = drop-append n xs ys (omega arith)

take_whole : (n : ℕ) (xs : List ℕ) → length xs ≡ n → take n xs ≡ xs
take_whole zero [] e = refl
take_whole zero (x ∷ xs) e = absurd (omega arith)
take_whole (suc n) [] e = refl
take_whole (suc n) (x ∷ xs) e = ap (λ r. x ∷ r) (take_whole n xs (omega arith))

-- Bytes that are stored for a range within the limits and within the array come back.
pub get-set_range :
    (bm : Bitmap) (start num : ℕ) (bytes : List ℕ)
    → bm.start ≤ start
    → 1 ≤ num
    → start + num ≤ bm.real_end + 1
    → start + num + 7 < 2 ^ 32
    → start / 8 + (num + 7) / 8 ≤ length bm.bitmap
    → length bytes ≡ (num + 7) / 8
    → ((set_generic_bitmap_range bm bm.magic start num bytes).0 ≡ 0)
      × (get_generic_bitmap_range
            (set_generic_bitmap_range bm bm.magic start num bytes).1
            bm.magic
            start
            num
          ≡ (0, some bytes))
unfolding get_generic_bitmap_range set_generic_bitmap_range last_of
get-set_range bm start num bytes low some_bits within fits room size =
    rw same (rw ok (rw wide (rw same (rw ok (refl, ap (λ (bs : List ℕ). (0, some bs)) stored)))))
  where
    same : (bm.magic == bm.magic) ≡ true
    same = ground arith

    ok :
        (ltb start bm.start || ltb bm.real_end (((start + num) % 2 ^ 32 + 2 ^ 32 - 1) % 2 ^ 32))
        ≡ false
    ok = ground arith

    wide : (num + 7) % 2 ^ 32 ≡ num + 7
    wide = omega arith

    stored :
        take ((num + 7) / 8) (
          drop (start / 8) (
            take (start / 8) bm.bitmap
            ++ (take ((num + 7) / 8) bytes ++ drop (start / 8 + (num + 7) / 8) bm.bitmap)))
        ≡ bytes
    stored =
        rw
          (drop-append (start / 8) (take (start / 8) bm.bitmap) _
            (omega (arith, length-take (start / 8) bm.bitmap)))
          (rw (take_whole ((num + 7) / 8) bytes size)
            (take-append ((num + 7) / 8) bytes (drop (start / 8 + (num + 7) / 8) bm.bitmap) size))
