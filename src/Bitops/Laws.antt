-- ===== src/Bitops/Laws.antt =====
-- source/bitops.c: what the operations do to the bits of an array, as a set of numbers.
use libext2fs.Prelude.{
  ℕ, ◌-◌, ◌*◌, ◌/◌, ◌%◌, ◌^◌, ◌<◌, ◌≡◌, refl, ap, inl, inr, List, length, ltb, ltb→lt, set,
  set_outside, get_or-set, length-set, bit_and, bit_or, ◌==◌, if◌then◌else◌, ==_iff, arith,
}
use libext2fs.Prelude.{Bool, true, false, passes, passes_sound, Bool-cases}
use libext2fs.Bits.{bit, bit-lt, bit-bit_and, bit-bit_or}
use libext2fs.Bits.Fields.{bit_and_low}
use libext2fs.Bitops.{mask_of, byte, set_bit, clear_bit, test_bit, fast_set_bit, fast_clear_bit}

-- 1 where the array has the bit, else 0.
unfoldable pub member : List ℕ → ℕ → ℕ
member addr n = bit (byte addr (n / 8)) (n % 8)

-- The three facts below are finite: a bit's place in a byte and the byte itself.
mask_table : passes (λ k. passes (λ i. bit (2 ^ k) i == (if k == i then 1 else 0)) 8) 8 ≡ true
unfolding passes bit
mask_table = refl

bit-mask : (k i : ℕ) → k < 8 → i < 8 → bit (2 ^ k) i ≡ (if k == i then 1 else 0)
bit-mask k i hk hi = (==_iff _ _).0 (passes_sound _ 8 i hi (passes_sound _ 8 k hk mask_table))

rest_table :
    passes (λ k. passes (λ i. bit (0xff - 2 ^ k) i == (if k == i then 0 else 1)) 8) 8 ≡ true
unfolding passes bit
rest_table = refl

bit-rest : (k i : ℕ) → k < 8 → i < 8 → bit (0xff - 2 ^ k) i ≡ (if k == i then 0 else 1)
bit-rest k i hk hi = (==_iff _ _).0 (passes_sound _ 8 i hi (passes_sound _ 8 k hk rest_table))

masked_table : passes (λ k. passes (λ b. bit_and (2 ^ k) b == bit b k * 2 ^ k) 256) 8 ≡ true
unfolding passes bit
masked_table = refl

masked : (k b : ℕ) → k < 8 → b < 256 → bit_and (2 ^ k) b ≡ bit b k * 2 ^ k
masked k b hk hb = (==_iff _ _).0 (passes_sound _ 256 b hb (passes_sound _ 8 k hk masked_table))

mask_of_lem : (nr : ℕ) → mask_of nr ≡ 2 ^ (nr % 8)
mask_of_lem nr = rw (bit_and_low 3 nr) (omega arith)

-- `test_bit`, and the results of the two others, tell whether the bit is in the array.
pub test_bit_lem :
    (nr : ℕ) (addr : List ℕ)
    → byte addr (nr / 8) < 256
    → test_bit nr addr ≡ member addr nr * 2 ^ (nr % 8)
unfolding test_bit member
test_bit_lem nr addr h = rw (mask_of_lem nr) (masked (nr % 8) (byte addr (nr / 8)) (omega arith) h)

-- A write of a whole byte.
member-set :
    (addr : List ℕ) (j v m : ℕ)
    → j < length addr
    → member (set addr j v) m ≡ (if j == m / 8 then bit v (m % 8) else member addr m)
unfolding member
member-set addr j v m h = rw (get_or-set addr j (m / 8) v 0 h) (split (j == m / 8))
  where
    split :
        (t : Bool)
        → bit (if t then v else byte addr (m / 8)) (m % 8)
          ≡ (if t then bit v (m % 8) else bit (byte addr (m / 8)) (m % 8))
    split true = refl
    split false = refl

pub member-lt : (addr : List ℕ) (m : ℕ) → member addr m < 2
unfolding member
member-lt addr m = bit-lt (byte addr (m / 8)) (m % 8)

same_byte : (addr : List ℕ) (j m : ℕ) → j ≡ m / 8 → bit (byte addr j) (m % 8) ≡ member addr m
unfolding member
same_byte addr j m e = ap (λ t. bit (byte addr t) (m % 8)) e

-- Setting a bit in range makes it a member and keeps the others.
pub member-set_bit :
    (nr : ℕ) (addr : List ℕ) (m : ℕ)
    → nr < 8 * length addr
    → member (set_bit nr addr).1 m ≡ (if nr == m then 1 else member addr m)
unfolding set_bit
member-set_bit nr addr m h = rw (mask_of_lem nr) (
    ground (
      arith,
      member-set addr (nr / 8) (bit_or (byte addr (nr / 8)) (2 ^ (nr % 8))) m (omega arith),
      bit-bit_or (byte addr (nr / 8)) (2 ^ (nr % 8)) (m % 8),
      bit-mask (nr % 8) (m % 8) (omega arith) (omega arith),
      same_byte addr (nr / 8) m,
      member-lt addr m,
    ))

-- Clearing a bit in range removes it and keeps the others.
pub member-clear_bit :
    (nr : ℕ) (addr : List ℕ) (m : ℕ)
    → nr < 8 * length addr
    → member (clear_bit nr addr).1 m ≡ (if nr == m then 0 else member addr m)
unfolding clear_bit
member-clear_bit nr addr m h = rw (mask_of_lem nr) (
    ground (
      arith,
      member-set addr (nr / 8) (bit_and (byte addr (nr / 8)) (0xff - 2 ^ (nr % 8))) m (omega arith),
      bit-bit_and (byte addr (nr / 8)) (0xff - 2 ^ (nr % 8)) (m % 8),
      bit-rest (nr % 8) (m % 8) (omega arith) (omega arith),
      same_byte addr (nr / 8) m,
      member-lt addr m,
    ))

-- The operations write bytes.
abbrev pub IsBytes : List ℕ → Type 0
IsBytes addr = (i : ℕ) → byte addr i < 256

or_table : passes (λ k. passes (λ b. ltb (bit_or b (2 ^ k)) 256) 256) 8 ≡ true
unfolding passes
or_table = refl

and_table : passes (λ k. passes (λ b. ltb (bit_and b (0xff - 2 ^ k)) 256) 256) 8 ≡ true
unfolding passes
and_table = refl

set-IsBytes : (addr : List ℕ) (j v : ℕ) → IsBytes addr → v < 256 → IsBytes (set addr j v)
set-IsBytes addr j v h hv i = elim (Bool-cases (ltb j (length addr))) [
  | inl e ↦ ground (arith, get_or-set addr j i v 0 (ltb→lt _ _ e), h i)
  | inr e ↦ rw (set_outside addr j v (ground arith)) (h i)
]

pub set_bit-IsBytes : (nr : ℕ) (addr : List ℕ) → IsBytes addr → IsBytes (set_bit nr addr).1
unfolding set_bit
set_bit-IsBytes nr addr h = rw (mask_of_lem nr) (
    set-IsBytes addr (nr / 8) _ h (
      ltb→lt _ _ (
        passes_sound _ 256 (byte addr (nr / 8)) (h (nr / 8))
          (passes_sound _ 8 (nr % 8) (omega arith) or_table))))

pub clear_bit-IsBytes : (nr : ℕ) (addr : List ℕ) → IsBytes addr → IsBytes (clear_bit nr addr).1
unfolding clear_bit
clear_bit-IsBytes nr addr h = rw (mask_of_lem nr) (
    set-IsBytes addr (nr / 8) _ h (
      ltb→lt _ _ (
        passes_sound _ 256 (byte addr (nr / 8)) (h (nr / 8))
          (passes_sound _ 8 (nr % 8) (omega arith) and_table))))

pub length-set_bit : (nr : ℕ) (addr : List ℕ) → length (set_bit nr addr).1 ≡ length addr
unfolding set_bit
length-set_bit nr addr = length-set addr _ _

pub length-clear_bit : (nr : ℕ) (addr : List ℕ) → length (clear_bit nr addr).1 ≡ length addr
unfolding clear_bit
length-clear_bit nr addr = length-set addr _ _

pub set_bit_was : (nr : ℕ) (addr : List ℕ) → (set_bit nr addr).0 ≡ test_bit nr addr
unfolding set_bit test_bit
set_bit_was nr addr = refl

pub clear_bit_was : (nr : ℕ) (addr : List ℕ) → (clear_bit nr addr).0 ≡ test_bit nr addr
unfolding clear_bit test_bit
clear_bit_was nr addr = refl

pub fast_set_bit_lem : (nr : ℕ) (addr : List ℕ) → fast_set_bit nr addr ≡ (set_bit nr addr).1
unfolding fast_set_bit set_bit
fast_set_bit_lem nr addr = refl

pub fast_clear_bit_lem : (nr : ℕ) (addr : List ℕ) → fast_clear_bit nr addr ≡ (clear_bit nr addr).1
unfolding fast_clear_bit clear_bit
fast_clear_bit_lem nr addr = refl
