-- ===== src/Bits.antt =====
-- `|`, `&`, `^` and masks on words at variables: digit by digit, and as arithmetic on fields.
mod Digits
pub mod Fields
pub mod Xor
pub use Digits.{bit_and_step, bit_or_step, bit_xor_step}
use Prim.Native.Nat.{differ}
use libext2fs.Prelude.{ℕ, zero, suc, ◌+◌, ◌*◌, ◌/◌, ◌%◌, ◌^◌, ◌≤◌, ◌<◌, min, max}
use libext2fs.Prelude.{bit_and, bit_or, bit_xor, ◌≡◌, ◌≢◌, refl, ap, arith, ◌==◌, if◌then◌else◌}

-- Bit `i` of a word.
unfoldable pub bit : ℕ → ℕ → ℕ
bit x zero = x % 2
bit x (suc i) = bit (x / 2) i

pub bit-lt : (x i : ℕ) → bit x i < 2
unfolding bit
bit-lt x zero = omega arith
bit-lt x (suc i) = bit-lt (x / 2) i

pub bit-bit_and : (a b i : ℕ) → bit (bit_and a b) i ≡ min (bit a i) (bit b i)
unfolding bit
bit-bit_and a b zero = omega (arith, bit_and_step a b)
bit-bit_and a b (suc i) =
    rw (bit_and_step a b) (rw (half (bit_and (a / 2) (b / 2))) (bit-bit_and (a / 2) (b / 2) i))
  where
    half : (q : ℕ) → (min (a % 2) (b % 2) + 2 * q) / 2 ≡ q
    half q = omega arith

pub bit-bit_or : (a b i : ℕ) → bit (bit_or a b) i ≡ max (bit a i) (bit b i)
unfolding bit
bit-bit_or a b zero = omega (arith, bit_or_step a b)
bit-bit_or a b (suc i) =
    rw (bit_or_step a b) (rw (half (bit_or (a / 2) (b / 2))) (bit-bit_or (a / 2) (b / 2) i))
  where
    half : (q : ℕ) → (max (a % 2) (b % 2) + 2 * q) / 2 ≡ q
    half q = omega arith
