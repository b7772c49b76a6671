-- ===== src/Bitmap/Make.antt =====
-- source/gen_bitmap.c: making, copying and clearing bitmaps, and moving their end.
use libext2fs.Prelude.{
  ℕ, zero, suc, ◌+◌, ◌-◌, ◌/◌, ◌%◌, ◌^◌, ◌≤◌, ◌<◌, ◌≡◌, ◌⊎◌, inl, inr, refl, ap, ◌∙◌, List, [], ◌∷◌,
  length, take, drop, replicate, length-append, length-drop, length-replicate, get_or-replicate,
  get_or-append_left, get_or-append_right, get_or-drop, Bool, true, false, if◌then◌else◌, truth,
  ltb, le→ltb, ◌||◌, ◌&&◌, ◌==◌, arith, Bool-cases, sub32, none, some,
}
use libext2fs.Errors.{no_memory, magic_block_bitmap, magic_inode_bitmap, magic_generic_bitmap}
use libext2fs.Bits.Xor.{bit-zero}
use libext2fs.Bitops.{byte}
use libext2fs.Bitops.Laws.{member}
use libext2fs.Bitmap.{
  Bitmap, made, failed, zeroed, test_generic_bitmap, make_generic_bitmap, copy_generic_bitmap,
  clear_generic_bitmap, fudge_generic_bitmap_end,
}
use libext2fs.Bitmap.Valid.{IsValid, truth-test}

pub member-zero_byte : (bytes : List ℕ) (j : ℕ) → byte bytes (j / 8) ≡ 0 → member bytes j ≡ 0
unfolding member
member-zero_byte bytes j h = rw h (bit-zero (j % 8))

-- A bitmap that has no number in it.
pub record IsEmpty (bm : Bitmap) : Type 0 where
  pub valid : IsValid bm
  pub nothing : (n : ℕ) → truth (test_generic_bitmap bm n) ≡ false

-- The size of the array of a new bitmap, in bytes.
abbrev pub rounded_size : ℕ → ℕ → ℕ
rounded_size start real_end = let size = sub32 real_end start / 8 + 1 in size + 7 - (size + 7) % 4

-- With memory, a magic number of a bitmap and ordered limits of 32 bits, making a bitmap without
-- initial contents succeeds and gives an empty one with these limits; if an allocation fails, that
-- error is reported.
pub make_lem :
    (mem array : Bool) (magic start end real_end : ℕ)
    → ((magic == magic_generic_bitmap)
        || ((magic == magic_block_bitmap) || (magic == magic_inode_bitmap)))
      ≡ true
    → start ≤ end
    → end ≤ real_end
    → real_end < 2 ^ 32
    → ((mem && array) ≡ true
        × ((bm : Bitmap) × (make_generic_bitmap mem array magic start end real_end none ≡ made bm)
            × (bm.start ≡ start)
            × (bm.end ≡ end)
            × IsEmpty bm))
      ⊎ ((mem && array) ≡ false
          × (make_generic_bitmap mem array magic start end real_end none ≡ failed no_memory))
unfolding make_generic_bitmap
make_lem false array magic start end real_end k a b c = inr (refl, refl)
make_lem true false magic start end real_end k a b c = inr (refl, refl)
make_lem true true magic start end real_end k a b c = inl (
  refl,
  (
    fresh,
    refl,
    refl,
    refl,
    record {
      valid = fresh_valid;
      nothing = λ n. ground (
        arith,
        truth-test fresh n fresh_valid,
        member-zero_byte fresh.bitmap (n - start) (get_or-replicate size ((n - start) / 8) 0),
      );
    },
  ),
)
  where
    size : ℕ
    size = rounded_size start real_end

    fresh : Bitmap
    fresh = record {
      magic = magic;
      start = start;
      end = end;
      real_end = real_end;
      bitmap = replicate size 0;
    }

    fresh_valid : IsValid fresh
    fresh_valid = record {
      kind = k;
      ends = b;
      starts = a;
      small = c;
      room = omega (arith, length-replicate {A = ℕ} size 0);
      bytes = λ i. omega (arith, get_or-replicate {A = ℕ} size i 0);
    }

take_all : {n : ℕ} (xs : List ℕ) → length xs ≡ n → take n xs ≡ xs
take_all {n = zero} [] e = refl
take_all {n = zero} (x ∷ xs) e = absurd (omega arith)
take_all {n = suc n} [] e = refl
take_all {n = suc n} (x ∷ xs) e = ap (λ r. x ∷ r) (take_all {n = n} xs (omega arith))

-- A bitmap whose array has the size that a new one gets is copied whole; if an allocation fails,
-- that error is reported.
pub copy_generic_bitmap_lem :
    (mem array : Bool) (src : Bitmap)
    → length src.bitmap ≡ rounded_size src.start src.real_end
    → copy_generic_bitmap mem array src ≡ (if mem && array then made src else failed no_memory)
unfolding copy_generic_bitmap make_generic_bitmap
copy_generic_bitmap_lem false array src e = refl
copy_generic_bitmap_lem true false src e = refl
copy_generic_bitmap_lem true true src e =
    ap (λ bytes. made (record src { bitmap = bytes })) (take_all src.bitmap e)

byte-zeroed :
    (n : ℕ) (bytes : List ℕ) (i : ℕ)
    → byte (zeroed n bytes) i ≡ (if ltb i n then 0 else byte bytes i)
byte-zeroed n bytes i = elim (Bool-cases (ltb i n)) [
  | inl e ↦ rw e (
      get_or-append_left (replicate n 0) (drop n bytes) i 0
        (ground (arith, length-replicate {A = ℕ} n 0))
      ∙ get_or-replicate n i 0)
  | inr e ↦ rw e (
      byte_at (zeroed n bytes) i (length {A = ℕ} (replicate n 0) + (i - n))
        (ground (arith, length-replicate {A = ℕ} n 0))
      ∙ get_or-append_right (replicate n 0) (drop n bytes) (i - n) 0
      ∙ get_or-drop n bytes (i - n) 0
      ∙ byte_at bytes (n + (i - n)) i (ground arith))
]
  where
    byte_at : (b : List ℕ) (j k : ℕ) → j ≡ k → byte b j ≡ byte b k
    byte_at b j k f = ap (byte b) f

-- Clearing a valid bitmap leaves a valid one with no number in it.
pub clear-IsEmpty : (bm : Bitmap) → IsValid bm → IsEmpty (clear_generic_bitmap bm)
unfolding clear_generic_bitmap
clear-IsEmpty bm v = rw v.kind (record {
  valid = cleared_valid;
  nothing = λ n. ground (
    arith,
    v.small,
    v.starts,
    v.ends,
    truth-test cleared n cleared_valid,
    member-zero_byte cleared.bitmap (n - bm.start),
    byte-zeroed size bm.bitmap ((n - bm.start) / 8),
  );
})
  where
    size : ℕ
    size = sub32 bm.real_end bm.start / 8 + 1

    cleared : Bitmap
    cleared = record bm { bitmap = zeroed size bm.bitmap }

    cleared_valid : IsValid cleared
    cleared_valid = record {
      kind = v.kind;
      ends = v.ends;
      starts = v.starts;
      small = v.small;
      room = omega (
        arith,
        v.room,
        length-append (replicate size 0) (drop size bm.bitmap),
        length-replicate {A = ℕ} size 0,
        length-drop size bm.bitmap,
      );
      bytes = λ i. ground (arith, byte-zeroed size bm.bitmap i, v.bytes i);
    }

-- Moving the end of a valid bitmap to a number that the array has room for keeps it valid and gives
-- the old end, and moving it back there restores the bitmap; a number beyond the array is refused.
pub fudge_lem :
    (bm : Bitmap) (neq end : ℕ)
    → IsValid bm
    → bm.start ≤ end
    → (end ≤ bm.real_end
        × ((moved : Bitmap) × (fudge_generic_bitmap_end bm bm.magic neq end
              ≡ (0, moved, some bm.end))
            × IsValid moved
            × (fudge_generic_bitmap_end moved bm.magic neq bm.end ≡ (0, bm, some end))))
      ⊎ (bm.real_end < end × (fudge_generic_bitmap_end bm bm.magic neq end ≡ (neq, bm, none)))
unfolding fudge_generic_bitmap_end
fudge_lem bm neq end v low = elim (Bool-cases (ltb bm.real_end end)) [
  | inl e ↦ inr (ground arith, rw (self bm.magic) (rw e refl))
  | inr e ↦ inl (
    ground arith,
    (
      record bm { end = end },
      rw (self bm.magic) (rw e refl),
      record {
        kind = v.kind;
        ends = ground arith;
        starts = low;
        small = v.small;
        room = v.room;
        bytes = v.bytes;
      },
      rw (self bm.magic) (rw (le→ltb bm.real_end bm.end v.ends) refl),
    ),
  )
]
  where
    self : (n : ℕ) → (n == n) ≡ true
    self n = ground arith
