-- ===== src/Bitmap/Padding.antt =====
-- source/gen_bitmap.c: filling the numbers between the end of a bitmap and that of its array.
use libext2fs.Prelude.{
  ℕ, zero, suc, ◌+◌, ◌-◌, ◌*◌, ◌^◌, ◌≤◌, ◌<◌, ◌≡◌, refl, ◌∙◌, List, length, if◌then◌else◌, truth,
  ltb, leb, ◌&&◌, arith, sub32,
}
use libext2fs.Bitops.{set_bit}
use libext2fs.Bitops.Laws.{member, member-set_bit, length-set_bit, set_bit-IsBytes, IsBytes}
use libext2fs.Bitmap.{Bitmap, set_up, test_generic_bitmap, set_generic_bitmap_padding}
use libext2fs.Bitmap.Valid.{IsValid, truth-test, holds}

length-set_up : (n j : ℕ) (bytes : List ℕ) → length (set_up n j bytes) ≡ length bytes
unfolding set_up
length-set_up zero j bytes = refl
length-set_up (suc n) j bytes = length-set_up n (j + 1) _ ∙ length-set_bit j bytes

set_up-IsBytes : (n j : ℕ) (bytes : List ℕ) → IsBytes bytes → IsBytes (set_up n j bytes)
unfolding set_up
set_up-IsBytes zero j bytes h = h
set_up-IsBytes (suc n) j bytes h = set_up-IsBytes n (j + 1) _ (set_bit-IsBytes j bytes h)

member-set_up :
    (n j : ℕ) (bytes : List ℕ) (m : ℕ)
    → j + n ≤ 8 * length bytes
    → member (set_up n j bytes) m ≡ (if leb j m && ltb m (j + n) then 1 else member bytes m)
unfolding set_up
member-set_up zero j bytes m h = ground arith
member-set_up (suc n) j bytes m h = ground (
  arith,
  member-set_up n (j + 1) (set_bit j bytes).1 m (omega (arith, length-set_bit j bytes)),
  member-set_bit j bytes m (omega arith),
)

-- Padding a valid bitmap, whose end is not the last 32-bit number, keeps it valid and no test
-- changes; in its array all numbers after the end are then members.
pub padding_lem :
    (bm : Bitmap)
    → IsValid bm
    → bm.end < 2 ^ 32 - 1
    → IsValid (set_generic_bitmap_padding bm)
      × ((m : ℕ)
          → truth (test_generic_bitmap (set_generic_bitmap_padding bm) m)
            ≡ truth (test_generic_bitmap bm m))
      × ((i : ℕ)
          → i < bm.real_end - bm.end
          → holds (set_generic_bitmap_padding bm) (bm.end + 1 + i) ≡ 1)
unfolding set_generic_bitmap_padding
padding_lem bm v last =
    let e : sub32 (bm.end + 1) bm.start ≡ bm.end + 1 - bm.start =
      omega (arith, v.starts, v.ends, v.small) in
    rw e (valid, same, filled)
  where
    bits : List ℕ
    bits = set_up (bm.real_end - bm.end) (bm.end + 1 - bm.start) bm.bitmap

    members :
        (j : ℕ)
        → member bits j ≡ (
            if leb (bm.end + 1 - bm.start) j
              && ltb j (bm.end + 1 - bm.start + (bm.real_end - bm.end))
            then 1
            else member bm.bitmap j)
    members j =
        member-set_up (bm.real_end - bm.end) (bm.end + 1 - bm.start) bm.bitmap j
          (omega (arith, v.starts, v.ends, v.room))

    valid : IsValid (record bm { bitmap = bits })
    valid = record {
      kind = v.kind;
      ends = v.ends;
      starts = v.starts;
      small = v.small;
      room =
          omega
            (arith, v.room, length-set_up (bm.real_end - bm.end) (bm.end + 1 - bm.start) bm.bitmap);
      bytes = set_up-IsBytes (bm.real_end - bm.end) (bm.end + 1 - bm.start) bm.bitmap v.bytes;
    }

    same :
        (m : ℕ)
        → truth (test_generic_bitmap (record bm { bitmap = bits }) m)
          ≡ truth (test_generic_bitmap bm m)
    same m = ground (
      arith,
      truth-test bm m v,
      truth-test (record bm { bitmap = bits }) m valid,
      members (m - bm.start),
    )

    filled : (i : ℕ) → i < bm.real_end - bm.end → member bits (bm.end + 1 + i - bm.start) ≡ 1
    filled i h = ground (arith, v.starts, v.ends, members (bm.end + 1 + i - bm.start))
