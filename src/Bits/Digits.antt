-- ===== src/Bits/Digits.antt =====
-- The native operations on words as recursions on the lowest binary digit.
use Prim.Native.Nat.{digits, differ, bit_and-bitwise, bit_or-bitwise, bit_xor-bitwise}
use libext2fs.Prelude.{ℕ, zero, suc, ◌+◌, ◌*◌, ◌/◌, ◌%◌, ◌≤◌, min, max}
use libext2fs.Prelude.{bit_and, bit_or, bit_xor, ◌≡◌, refl, arith}

module _ (f : ℕ → ℕ → ℕ) (z : ℕ → ℕ) where
  -- Any two amounts of fuel that cover the first number agree.
  fuel_irrelevant : (m n a b : ℕ) → a ≤ m → a ≤ n → digits z f m a b ≡ digits z f n a b
  fuel_irrelevant zero zero zero b p q = refl
  fuel_irrelevant zero (suc n) zero b p q = refl
  fuel_irrelevant (suc m) zero zero b p q = refl
  fuel_irrelevant (suc m) (suc n) zero b p q = refl
  fuel_irrelevant zero n (suc a) b p q = absurd (omega arith)
  fuel_irrelevant (suc m) zero (suc a) b p q = absurd (omega arith)
  fuel_irrelevant (suc m) (suc n) (suc a) b p q =
      omega (arith, fuel_irrelevant m n (suc a / 2) (b / 2) (omega arith) (omega arith))

  digits_step :
      (a b : ℕ)
      → z b ≡ f 0 (b % 2) + 2 * z (b / 2)
      → digits z f a a b ≡ f (a % 2) (b % 2) + 2 * digits z f (a / 2) (a / 2) (b / 2)
  digits_step zero b h = h
  digits_step (suc a) b h =
      omega (arith, fuel_irrelevant a (suc a / 2) (suc a / 2) (b / 2) (omega arith) (omega arith))

pub bit_and_step : (x y : ℕ) → bit_and x y ≡ min (x % 2) (y % 2) + 2 * bit_and (x / 2) (y / 2)
bit_and_step x y = simp bit_and-bitwise (digits_step min (λ _. 0) x y (omega arith))

pub bit_or_step : (x y : ℕ) → bit_or x y ≡ max (x % 2) (y % 2) + 2 * bit_or (x / 2) (y / 2)
bit_or_step x y = simp bit_or-bitwise (digits_step max (λ y. y) x y (omega arith))

pub bit_xor_step : (x y : ℕ) → bit_xor x y ≡ differ (x % 2) (y % 2) + 2 * bit_xor (x / 2) (y / 2)
bit_xor_step x y = simp bit_xor-bitwise (digits_step differ (λ y. y) x y (omega arith))
