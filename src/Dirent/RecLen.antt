-- ===== src/Dirent/RecLen.antt =====
-- source/dir_iterate.c: which lengths come back as they were stored.
use libext2fs.Prelude.{
  ℕ, ◌+◌, ◌*◌, ◌/◌, ◌%◌, ◌^◌, ◌≤◌, ◌<◌, ◌≡◌, inl, inr, Bool-cases, refl, sym, ap, ◌∙◌, max, ◌<<<◌,
  ◌>>>◌, u16, bit_and, bit_or, truth, false, ltb, ◌==◌, ◌||◌, if◌then◌else◌, arith,
}
use libext2fs.Bits.{bit_and_step, bit, bit-bit_or}
use libext2fs.Bits.Fields.{bit_and_low, bit_or_fields}
use libext2fs.Bits.Xor.{word_ext}
use libext2fs.Fs.{Filsys}
use libext2fs.Dirent.{DirEntry, get_rec_len, set_rec_len}

bit_or_comm : (a b : ℕ) → bit_or a b ≡ bit_or b a
bit_or_comm a b =
    word_ext (bit_or a b + bit_or b a) _ _ (omega arith) (omega arith)
      λ i. bit-bit_or a b i ∙ max_comm (bit a i) (bit b i) ∙ sym (bit-bit_or b a i)
  where
    max_comm : (x y : ℕ) → max x y ≡ max y x
    max_comm x y = omega arith

-- `len & 65532` drops the two lowest bits of 16.
high_part : (x : ℕ) → bit_and x 65532 ≡ 4 * (x / 4 % 2 ^ 14)
high_part x =
    omega (arith, bit_and_step x 65532, bit_and_step (x / 2) 32766, bit_and_low 14 (x / 2 / 2))

low_part : (x : ℕ) → bit_and x 3 ≡ x % 4
low_part x = bit_and_low 2 x

-- What `ext2fs_set_rec_len` stores for a length beyond 16 bits.
packed : (a b : ℕ) → b < 4 → bit_or (4 * a) b ≡ 4 * a + b
packed a b h = bit_or_comm (4 * a) b ∙ ap (bit_or b) (times a) ∙ bit_or_fields 2 b a h ∙ omega arith
  where
    times : (x : ℕ) → 4 * x ≡ x * 4
    times x = omega arith

stored_lem :
    (len : ℕ)
    → len < 2 ^ 18
    → bit_or (bit_and len 65532) (bit_and (len >>> 16) 3) ≡ 4 * (len / 4 % 2 ^ 14) + len / 65536
stored_lem len h = rw (high_part len) (
    rw (low_part (len / 65536))
      (packed (len / 4 % 2 ^ 14) (len / 65536 % 4) (omega arith) ∙ omega arith))

read_lem :
    (s : ℕ)
    → s < 65536
    → bit_or (bit_and s 65532) (bit_and s 3 <<< 16) ≡ 4 * (s / 4) + s % 4 * 65536
read_lem s h =
    rw (high_part s) (
      rw (low_part s) (bit_or_fields 16 (4 * (s / 4 % 2 ^ 14)) (s % 4) (omega arith) ∙ omega arith))

-- The test that guards the function passes.
guard_lem :
    (fs : Filsys) (len : ℕ)
    → len ≤ fs.blocksize
    → len % 4 ≡ 0
    → fs.blocksize ≤ 2 ^ 18
    → (ltb fs.blocksize len || (ltb (2 ^ 18) fs.blocksize || truth (bit_and len 3))) ≡ false
guard_lem fs len fits aligned small = ground (arith, low_part len)

-- A positive length, a multiple of 4 that is at most the block size, is stored without an error and
-- read back, for blocks of up to 2^18 bytes, unless it is 4 less than a block of 2^18 bytes, which
-- reads as the whole block.
pub get-set_rec_len :
    (fs : Filsys) (len : ℕ) (dirent : DirEntry)
    → 1 ≤ len
    → len ≤ fs.blocksize
    → len % 4 ≡ 0
    → fs.blocksize ≤ 2 ^ 18
    → ((set_rec_len fs len dirent).0 ≡ 0)
      × (get_rec_len fs (set_rec_len fs len dirent).1
          ≡ (if len == 262140 then fs.blocksize else len))
unfolding get_rec_len set_rec_len
get-set_rec_len fs len dirent some_length fits aligned small =
    rw (guard_lem fs len fits aligned small) (elim (Bool-cases (ltb len 65536)) [
      | inl e ↦
          rw e
            (let f : len % 2 ^ 16 ≡ len = ground arith in rw f (refl, ground (arith, read_lem len)))
      | inr e ↦ rw e (elim (Bool-cases (len == fs.blocksize)) [
        | inl f ↦ rw f (refl, ground arith)
        | inr f ↦ rw f (
            let s : ℕ = 4 * (len / 4 % 2 ^ 14) + len / 65536 in
            let q : u16 (bit_or (bit_and len 65532) (bit_and (len >>> 16) 3)) ≡ s =
              ground (arith, stored_lem len) in
            rw q (refl, ground (arith, read_lem s)))
      ])
    ])
