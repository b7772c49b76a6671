-- ===== src/Bitmap/Ranges/Clear.antt =====
-- source/gen_bitmap.c: the test that all numbers of a range are free, from the loops over whole
-- bytes up to the function.
use libext2fs.Prelude.{
  ℕ, zero, suc, ◌+◌, ◌-◌, ◌*◌, ◌/◌, ◌%◌, ◌^◌, ◌≤◌, ◌<◌, ◌≡◌, refl, sym, ap, ◌∙◌, List, true, not,
  truth, ltb, leb, ◌&&◌, ◌==◌, arith, Bool-cases, inl, inr, sub32, u32, bit_and,
}
use libext2fs.Bitops.{byte}
use libext2fs.Bitops.Laws.{IsBytes}
use libext2fs.Bitmap.{Bitmap}
use libext2fs.Bitmap.Valid.{IsValid}
use libext2fs.Bitmap.Ranges.{
  zero_run, zero_chunks, mem_is_zero, ones_down, whole_bytes_clear, test_clear_generic_bitmap_range,
}
use libext2fs.Bitmap.Ranges.Bytes.{
  none_of, none_of-add, masked_free, zero_run-add, zero_run-eq-none_of,
}

zero_run-none : (mem : List ℕ) (at : ℕ) → zero_run mem at 0 ≡ true
unfolding zero_run
zero_run-none mem at = refl

zero_run_cong : (mem : List ℕ) (at m n : ℕ) → m ≡ n → zero_run mem at m ≡ zero_run mem at n
zero_run_cong mem at m n e = ap (zero_run mem at) e

-- The chunks of 256 bytes are the whole run; the fuel suffices.
chunks_lem :
    (fuel : ℕ) (mem : List ℕ) (at len : ℕ)
    → len ≤ fuel
    → zero_chunks fuel mem at len ≡ zero_run mem at len
unfolding zero_chunks
chunks_lem zero mem at len h = let e : len ≡ 0 = omega arith in rw e (sym (zero_run-none mem at))
chunks_lem (suc fuel) mem at len h = elim (Bool-cases (leb 256 len)) [
  | inl e ↦ ground (
    arith,
    chunks_lem fuel mem (at + 256) (len - 256),
    zero_run-add mem at 256 (len - 256),
    zero_run_cong mem at len (256 + (len - 256)) (ground arith),
  )
  | inr e ↦ ground (arith, zero_run-none mem at, zero_run_cong mem at len 0)
]

mem_is_zero_lem :
    (bytes : List ℕ) (j n : ℕ)
    → IsBytes bytes
    → mem_is_zero bytes j n ≡ none_of bytes (8 * j) (8 * n)
unfolding mem_is_zero
mem_is_zero_lem bytes j n h = chunks_lem n bytes j n (omega arith) ∙ zero_run-eq-none_of bytes j n h

none_of_cong :
    (bytes : List ℕ) (a b m n : ℕ) → a ≡ b → m ≡ n → none_of bytes a m ≡ none_of bytes b n
none_of_cong bytes a b m n e f = rw e (rw f refl)

none_of-zero : (bytes : List ℕ) (at : ℕ) → none_of bytes at 0 ≡ true
unfolding none_of
none_of-zero bytes at = refl

-- The mask of `n` bits that starts inside the byte of the number `at`.
head_lem :
    (bytes : List ℕ) (at n mark_bit : ℕ)
    → IsBytes bytes
    → at % 8 + n ≤ 8
    → mark_bit ≡ at % 8 + n - 1
    → not (truth (bit_and (ones_down n mark_bit 0) (byte bytes (at / 8)))) ≡ none_of bytes at n
head_lem bytes at n mark_bit h hn e = rw e (
    masked_free bytes (at / 8) (at % 8) n h hn
    ∙ none_of_cong bytes (8 * (at / 8) + at % 8) at n n (omega arith) refl)

-- From a whole byte on.
whole_bytes_clear_lem :
    (bytes : List ℕ) (j n m : ℕ)
    → IsBytes bytes
    → m < 8
    → whole_bytes_clear bytes j n m ≡ none_of bytes (8 * j) (8 * n + m)
unfolding whole_bytes_clear
whole_bytes_clear_lem bytes j n m h hm = rw (none_of-add bytes (8 * j) (8 * n) m) (
    ground (
      arith,
      mem_is_zero_lem bytes j n h,
      last,
      none_of_cong bytes (8 * j + 8 * n) (8 * (j + n)) m m (omega arith) refl,
      none_of-zero bytes (8 * j + 8 * n),
      none_of_cong bytes (8 * j) (8 * j) (8 * n) 0 refl,
      none_of-zero bytes (8 * j),
      none_of_cong bytes (8 * j + 8 * n) (8 * j + 8 * n) m 0 refl,
    ))
  where
    last :
        not (truth (bit_and (ones_down m (m - 1) 0) (byte bytes (j + n))))
        ≡ none_of bytes (8 * (j + n)) m
    last =
        let e : 0 + m - 1 ≡ m - 1 = omega arith in
        let f : 8 * (j + n) + 0 ≡ 8 * (j + n) = omega arith in
        rw (← e) (rw (← f) (masked_free bytes (j + n) 0 m h (omega arith)))

-- The numbers of the array from `s` on, by the code's two paths.
module _ (bytes : List ℕ) (h : IsBytes bytes) (s len : ℕ) where
  from_whole_byte :
      s % 8 ≡ 0 → whole_bytes_clear bytes (s / 8) (len / 8) (len % 8) ≡ none_of bytes s len
  from_whole_byte e =
      whole_bytes_clear_lem bytes (s / 8) (len / 8) (len % 8) h (omega arith)
      ∙ none_of_cong bytes (8 * (s / 8)) s (8 * (len / 8) + len % 8) len (omega arith) (omega arith)

  -- `c` numbers lie in the first byte.
  after_first_byte :
      (c : ℕ)
      → c ≡ 8 - s % 8
      → c ≤ len
      → none_of bytes s len
        ≡ (none_of bytes s c && whole_bytes_clear bytes (s / 8 + 1) ((len - c) / 8) ((len - c) % 8))
  after_first_byte c e le =
      none_of_cong bytes s s len (c + (len - c)) refl (omega arith)
      ∙ none_of-add bytes s c (len - c)
      ∙ ap (λ t. none_of bytes s c && t)
          (sym (
            whole_bytes_clear_lem bytes (s / 8 + 1) ((len - c) / 8) ((len - c) % 8) h (omega arith)
            ∙ none_of_cong bytes (8 * (s / 8 + 1)) (s + c) (8 * ((len - c) / 8) + (len - c) % 8)
                (len - c) (omega arith) (omega arith)))

-- The test by bytes and masks succeeds exactly where none of the `len` numbers from `start` on is
-- in the set, for a valid bitmap and a range that starts within it and ends below 2^32.
pub test_clear-eq-none_of :
    (bm : Bitmap) (start len : ℕ)
    → IsValid bm
    → bm.start ≤ start
    → start + len < 2 ^ 32
    → test_clear_generic_bitmap_range bm start len ≡ none_of bm.bitmap (start - bm.start) len
unfolding test_clear_generic_bitmap_range
test_clear-eq-none_of bm start len v low high =
    let s : ℕ = start - bm.start in
    let e : sub32 start bm.start ≡ start - bm.start = omega (arith, v.small, v.ends, v.starts) in
    rw e (elim (Bool-cases (s % 8 == 0)) [
      | inl z ↦ rw z (from_whole_byte bm.bitmap v.bytes s len (ground arith))
      | inr z ↦ rw z (elim (Bool-cases (ltb len (8 - s % 8))) [
        | inl l ↦ rw l (
            ground (
              arith,
              head_lem bm.bitmap s len (sub32 (u32 (len + s % 8)) 1) v.bytes (ground arith)
                  (ground arith),
            ))
        | inr l ↦ rw l (
            ground (
              arith,
              head_lem bm.bitmap s (8 - s % 8) 7 v.bytes (omega arith) (ground arith),
              after_first_byte bm.bitmap v.bytes s len (8 - s % 8) refl,
              none_of_cong bm.bitmap s s len (8 - s % 8) refl,
            ))
      ])
    ])
