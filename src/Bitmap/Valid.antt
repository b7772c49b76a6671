-- ===== src/Bitmap/Valid.antt =====
-- source/gen_bitmap.c: what a bitmap keeps true, and the set that it stands for.
use libext2fs.Prelude.{
  ℕ, zero, suc, ◌-◌, ◌*◌, ◌/◌, ◌%◌, ◌^◌, ◌≤◌, ◌<◌, ◌≡◌, length, true, false, if◌then◌else◌, truth,
  ◌==◌, arith,
}
use native.Mathlib.Nat.{one-le-pow}
use libext2fs.Bitops.{test_bit}
use libext2fs.Bitops.Laws.{member, member-lt, IsBytes, test_bit_lem}
use libext2fs.Bitmap.{Bitmap, is_32_bitmap, outside, test_generic_bitmap}

-- The limits are ordered 32-bit numbers, and the array has bytes for all numbers up to `real_end`.
pub record IsValid (bm : Bitmap) : Type 0 where
  pub kind : is_32_bitmap bm ≡ true
  pub ends : bm.end ≤ bm.real_end
  pub starts : bm.start ≤ bm.end
  pub small : bm.real_end < 2 ^ 32
  pub room : bm.real_end - bm.start < 8 * length bm.bitmap
  pub bytes : IsBytes bm.bitmap

-- Whether a number that is not below `start` is in the array.
abbrev pub holds : Bitmap → ℕ → ℕ
holds bm n = member bm.bitmap (n - bm.start)

truth_scaled : (b p : ℕ) → b < 2 → 1 ≤ p → truth (b * p) ≡ (b == 1)
truth_scaled zero p h hp = ground arith
truth_scaled (suc zero) p h hp = ground arith
truth_scaled (suc (suc b)) p h hp = absurd (omega arith)

-- What a test of a bit of the array tells.
pub truth-test_bit :
    (bm : Bitmap) (j : ℕ) → IsValid bm → truth (test_bit j bm.bitmap) ≡ (member bm.bitmap j == 1)
truth-test_bit bm j v =
    rw (test_bit_lem j bm.bitmap (v.bytes (j / 8)))
      (truth_scaled _ (2 ^ (j % 8)) (member-lt bm.bitmap j) (one-le-pow (j % 8) 2 (omega arith)))

-- What a client of a bitmap sees of a number.
pub truth-test :
    (bm : Bitmap) (n : ℕ)
    → IsValid bm
    → truth (test_generic_bitmap bm n) ≡ (if outside bm n then false else holds bm n == 1)
unfolding test_generic_bitmap
truth-test bm n v = ground (arith, v.kind, truth-test_bit bm (n - bm.start) v)
