-- ===== src/Bitmap/Ranges/Bytes.antt =====
-- source/gen_bitmap.c: which numbers of an array are free, by bytes and by masks.
use libext2fs.Prelude.{
  ℕ, zero, suc, ◌+◌, ◌-◌, ◌*◌, ◌/◌, ◌%◌, ◌≤◌, ◌<◌, ◌≡◌, ◌↔◌, refl, sym, ap, ◌∙◌, List, Bool, true,
  not, if◌then◌else◌, truth, leb, ◌&&◌, ◌==◌, arith, Bool-cases, inl, inr, bit_and,
}
use libext2fs.Prelude.{passes, passes_sound}
use libext2fs.Bits.{bit}
use libext2fs.Bitops.{byte}
use libext2fs.Bitops.Laws.{member, IsBytes}
use libext2fs.Bitmap.Ranges.{zero_run, ones_down}

-- The specification of the test: no member among the `n` numbers from `at` on.
unfoldable pub none_of : List ℕ → ℕ → ℕ → Bool
none_of bytes at zero = true
none_of bytes at (suc n) = none_of bytes at n && (member bytes (at + n) == 0)

pub none_of_iff :
    (bytes : List ℕ) (at n : ℕ)
    → (none_of bytes at n ≡ true) ↔ ((i : ℕ) → i < n → member bytes (at + i) ≡ 0)
unfolding none_of
none_of_iff bytes at zero = (λ _ i h. absurd (omega arith), λ _. refl)
none_of_iff bytes at (suc n) = (
  λ h i hi. elim (Bool-cases (i == n)) [
    | inl e ↦ let f : i ≡ n = ground arith in rw f (ground arith)
    | inr e ↦ (none_of_iff bytes at n).0 (ground arith) i (ground arith)
  ],
  λ h. ground (arith, (none_of_iff bytes at n).1 (λ i hi. h i (omega arith)), h n (omega arith)),
)

member_at : (bytes : List ℕ) (i j : ℕ) → i ≡ j → member bytes i ≡ member bytes j
member_at bytes i j e = ap (member bytes) e

byte_at : (bytes : List ℕ) (i j : ℕ) → i ≡ j → byte bytes i ≡ byte bytes j
byte_at bytes i j e = ap (byte bytes) e

pub none_of-add :
    (bytes : List ℕ) (at m n : ℕ)
    → none_of bytes at (m + n) ≡ (none_of bytes at m && none_of bytes (at + m) n)
unfolding none_of
none_of-add bytes at m zero = let e : m + 0 ≡ m = omega arith in rw e (ground arith)
none_of-add bytes at m (suc n) =
    let e : m + suc n ≡ suc (m + n) = omega arith in
    rw e (
      ground (
        arith,
        none_of-add bytes at m n,
        member_at bytes (at + (m + n)) (at + m + n) (omega arith),
      ))

pub zero_run-add :
    (mem : List ℕ) (at m n : ℕ)
    → zero_run mem at (m + n) ≡ (zero_run mem at m && zero_run mem (at + m) n)
unfolding zero_run
zero_run-add mem at m zero = let e : m + 0 ≡ m = omega arith in rw e (ground arith)
zero_run-add mem at m (suc n) =
    let e : m + suc n ≡ suc (m + n) = omega arith in
    rw e (
      ground
        (arith, zero_run-add mem at m n, byte_at mem (at + (m + n)) (at + m + n) (omega arith)))

-- The specification inside one byte.
free_bits : ℕ → ℕ → ℕ → Bool
free_bits b at zero = true
free_bits b at (suc n) = free_bits b at n && (bit b (at + n) == 0)

none_of-eq-free_bits :
    (bytes : List ℕ) (j at n : ℕ)
    → at + n ≤ 8
    → none_of bytes (8 * j + at) n ≡ free_bits (byte bytes j) at n
unfolding none_of free_bits member
none_of-eq-free_bits bytes j at zero h = refl
none_of-eq-free_bits bytes j at (suc n) h =
    let q : (8 * j + at + n) / 8 ≡ j = omega arith in
    let r : (8 * j + at + n) % 8 ≡ at + n = omega arith in
    rw q (rw r (rw (none_of-eq-free_bits bytes j at n (omega arith)) refl))

same : Bool → Bool → Bool
same x y = if x then y else not y

same→≡ : (x y : Bool) → same x y ≡ true → x ≡ y
unfolding same
same→≡ x y h = ground arith

zero_table : passes (λ b. same (b == 0) (free_bits b 0 8)) 256 ≡ true
unfolding passes same free_bits bit
zero_table = refl

mask_table :
    passes
      (λ at.
        passes
          (λ n.
            passes
              (λ b.
                if leb (at + n) 8
                then same (not (truth (bit_and (ones_down n (at + n - 1) 0) b))) (free_bits b at n)
                else true)
              256)
          9)
      9
    ≡ true
unfolding passes same free_bits bit ones_down
mask_table = refl

-- A byte is 0 exactly when none of its 8 bits is set.
byte-zero : (bytes : List ℕ) (j : ℕ) → IsBytes bytes → (byte bytes j == 0) ≡ none_of bytes (8 * j) 8
byte-zero bytes j h =
    same→≡ _ _ (passes_sound _ 256 (byte bytes j) (h j) zero_table)
    ∙ sym (none_of-eq-free_bits bytes j 0 8 (omega arith))
    ∙ ap {A = ℕ} (λ t. none_of bytes t 8) (plus_zero (8 * j))
  where
    plus_zero : (t : ℕ) → t + 0 ≡ t
    plus_zero t = omega arith

-- The masks of the code have their bits from `at` to `at + n - 1`.
pub masked_free :
    (bytes : List ℕ) (j at n : ℕ)
    → IsBytes bytes
    → at + n ≤ 8
    → not (truth (bit_and (ones_down n (at + n - 1) 0) (byte bytes j)))
      ≡ none_of bytes (8 * j + at) n
masked_free bytes j at n h hn =
    same→≡ _ _ (
      holds_if (
        passes_sound _ 256 (byte bytes j) (h j)
          (passes_sound _ 9 n (omega arith) (passes_sound _ 9 at (omega arith) mask_table))))
    ∙ sym (none_of-eq-free_bits bytes j at n hn)
  where
    holds_if : {b : Bool} → (if leb (at + n) 8 then b else true) ≡ true → b ≡ true
    holds_if e = ground arith

pub zero_run-eq-none_of :
    (bytes : List ℕ) (j n : ℕ) → IsBytes bytes → zero_run bytes j n ≡ none_of bytes (8 * j) (8 * n)
unfolding zero_run none_of
zero_run-eq-none_of bytes j zero h = refl
zero_run-eq-none_of bytes j (suc n) h =
    let e : 8 * suc n ≡ 8 * n + 8 = omega arith in
    let f : 8 * j + 8 * n ≡ 8 * (j + n) = omega arith in
    rw e (
      rw (none_of-add bytes (8 * j) (8 * n) 8)
        (rw f (ground (arith, byte-zero bytes (j + n) h, zero_run-eq-none_of bytes j n h))))
