-- ===== src/Bits/Fields.antt =====
-- Words made of fields: `lo | hi << k` is a sum, and a mask of low bits is a remainder.
use Prim.Native.Nat.{bit_or-bitwise}
use native.Mathlib.Nat.{
  two-pow-succ, one-le-pow, mod-lt, mod-eq_of_lt, mod-add-div', mul-add-mod_self_right,
  div-div-eq-div-mul,
}
use libext2fs.Prelude.{ℕ, zero, suc, ◌+◌, ◌-◌, ◌*◌, ◌/◌, ◌%◌, ◌^◌, ◌≤◌, ◌<◌, ◌<<<◌, bit_and, bit_or}
use libext2fs.Prelude.{◌≡◌, refl, ap, sym, ◌∙◌, arith}
use libext2fs.Bits.Digits.{bit_and_step, bit_or_step}

zero_of_le : (a : ℕ) → a ≤ 0 → a ≡ 0
zero_of_le a h = omega arith

pub bit_or-zero_left : (b : ℕ) → bit_or 0 b ≡ b
bit_or-zero_left b = bit_or-bitwise 0 b

pub bit_and-zero_right : (n a : ℕ) → a ≤ n → bit_and a 0 ≡ 0
bit_and-zero_right zero a h = rw (zero_of_le a h) refl
bit_and-zero_right (suc n) a h =
    omega (arith, bit_and_step a 0, bit_and-zero_right n (a / 2) (omega arith))

bit_or-zero_below : (n a : ℕ) → a ≤ n → bit_or a 0 ≡ a
bit_or-zero_below zero a h = rw (zero_of_le a h) (bit_or-zero_left 0)
bit_or-zero_below (suc n) a h =
    omega (arith, bit_or_step a 0, bit_or-zero_below n (a / 2) (omega arith))

pub bit_or-zero_right : (a : ℕ) → bit_or a 0 ≡ a
bit_or-zero_right a = bit_or-zero_below a a (omega arith)

pub shift_twice : (hi k : ℕ) → hi <<< suc k ≡ hi * 2 ^ k + hi * 2 ^ k
shift_twice hi k = omega (arith, ap {A = ℕ} (λ p. hi * p) (two-pow-succ k))

-- `lo | (hi << k)` is a sum where `lo` fits `k` bits.
pub bit_or_fields : (k lo hi : ℕ) → lo < 2 ^ k → bit_or lo (hi <<< k) ≡ lo + hi * 2 ^ k
bit_or_fields zero lo hi h = rw (zero_of_le lo (omega arith)) (bit_or-zero_left _ ∙ omega arith)
bit_or_fields (suc k) lo hi h = ground (
  arith,
  bit_or_step lo (hi * 2 ^ suc k),
  shift_twice hi k,
  two-pow-succ k,
  bit_or_fields k (lo / 2) hi (omega (arith, two-pow-succ k)),
)

-- A remainder is told by a quotient that fits.
pub mod_unique : (x m q r : ℕ) → x ≡ q * m + r → r < m → x % m ≡ r
mod_unique x m q r e h = rw e (mul-add-mod_self_right q m r ∙ mod-eq_of_lt h)

mod_halves : (x k : ℕ) → x % 2 ^ suc k ≡ x / 2 % 2 ^ k * 2 + x % 2
mod_halves x k =
    mod_unique x (2 ^ suc k) (x / 2 / 2 ^ k) _
      (omega (arith, shift_twice (x / 2 / 2 ^ k) k, mod-add-div' (x / 2) (2 ^ k)))
      (omega (arith, two-pow-succ k, mod-lt (x / 2) (one-le-pow k 2 (omega arith))))

-- `x & (2^k - 1)` keeps the `k` low bits.
pub bit_and_low : (k x : ℕ) → bit_and x (2 ^ k - 1) ≡ x % 2 ^ k
bit_and_low zero x = omega (arith, bit_and-zero_right x x (omega arith))
bit_and_low (suc k) x = ground (
  arith,
  bit_and_step x (2 ^ suc k - 1),
  two-pow-succ k,
  one-le-pow k 2 (omega arith),
  bit_and_low k (x / 2),
  mod_halves x k,
)

bit_and-double : (y m : ℕ) → bit_and y (m + m) ≡ 2 * bit_and (y / 2) m
bit_and-double y m =
    let half : (m + m) / 2 ≡ m = omega arith in
    let even : (m + m) % 2 ≡ 0 = omega arith in
    rw (half, even) at (bit_and_step y (m + m)) ∙ omega arith

-- A mask whose low bits are 0.
pub bit_and_shifted : (k y m : ℕ) → bit_and y (m <<< k) ≡ bit_and (y / 2 ^ k) m <<< k
bit_and_shifted zero y m =
    let whole : m * 1 ≡ m = omega arith in
    let same : y / 1 ≡ y = omega arith in rw (whole, same) (omega arith)
bit_and_shifted (suc k) y m =
    let halved : y / 2 ^ suc k ≡ y / 2 / 2 ^ k =
      ap {A = ℕ} (λ p. y / p) (two-pow-succ k ∙ omega arith)
      ∙ sym (div-div-eq-div-mul y 2 (2 ^ k)) in
    rw (shift_twice m k, halved)
      (omega (
        arith,
        bit_and-double y (m <<< k),
        bit_and_shifted k (y / 2) m,
        shift_twice (bit_and (y / 2 / 2 ^ k) m) k,
      ))
