-- ===== src/Bits/Xor.antt =====
-- Exclusive or is a commutative group operation on words, and words are told apart by their bits.
use Prim.Native.Nat.{differ}
use libext2fs.Prelude.{
  ℕ, zero, suc, ◌+◌, ◌*◌, ◌/◌, ◌%◌, ◌^◌, ◌≤◌, ◌<◌, bit_xor, ◌≡◌, refl, sym, ◌∙◌, ap, ap₂, arith,
}
use native.Mathlib.Nat.{two-pow-succ, pow-succ', div-div-eq-div-mul}
use libext2fs.Bits.{bit, bit-lt, bit_xor_step}

pub differ-lt : (x y : ℕ) → x < 2 → y < 2 → differ x y < 2
differ-lt zero y hx hy = hy
differ-lt (suc zero) zero hx hy = omega arith
differ-lt (suc zero) (suc y) hx hy = omega arith
differ-lt (suc (suc x)) y hx hy = absurd (omega arith)

pub bit-bit_xor : (a b i : ℕ) → bit (bit_xor a b) i ≡ differ (bit a i) (bit b i)
unfolding bit
bit-bit_xor a b zero =
    omega (arith, bit_xor_step a b, differ-lt (a % 2) (b % 2) (omega arith) (omega arith))
bit-bit_xor a b (suc i) =
    ap (λ (t : ℕ). bit t i) (half (bit_xor (a / 2) (b / 2)) (bit_xor_step a b))
    ∙ bit-bit_xor (a / 2) (b / 2) i
  where
    half : (q : ℕ) → bit_xor a b ≡ differ (a % 2) (b % 2) + 2 * q → bit_xor a b / 2 ≡ q
    half q e = omega (arith, e, differ-lt (a % 2) (b % 2) (omega arith) (omega arith))

-- Words with the same bits are the same.
pub word_ext : (n a b : ℕ) → a ≤ n → b ≤ n → ((i : ℕ) → bit a i ≡ bit b i) → a ≡ b
unfolding bit
word_ext zero a b p q h = omega arith
word_ext (suc n) a b p q h =
    omega (arith, h 0, word_ext n (a / 2) (b / 2) (omega arith) (omega arith) (λ i. h (suc i)))

differ_comm : (x y : ℕ) → x < 2 → y < 2 → differ x y ≡ differ y x
differ_comm zero zero hx hy = refl
differ_comm zero (suc zero) hx hy = refl
differ_comm (suc zero) zero hx hy = refl
differ_comm (suc zero) (suc zero) hx hy = refl
differ_comm zero (suc (suc y)) hx hy = absurd (omega arith)
differ_comm (suc zero) (suc (suc y)) hx hy = absurd (omega arith)
differ_comm (suc (suc x)) y hx hy = absurd (omega arith)

differ_assoc : (x y z : ℕ) → x < 2 → y < 2 → z < 2 → differ (differ x y) z ≡ differ x (differ y z)
differ_assoc zero y z hx hy hz = refl
differ_assoc (suc zero) zero z hx hy hz = refl
differ_assoc (suc zero) (suc zero) zero hx hy hz = refl
differ_assoc (suc zero) (suc zero) (suc zero) hx hy hz = refl
differ_assoc (suc zero) (suc zero) (suc (suc z)) hx hy hz = absurd (omega arith)
differ_assoc (suc zero) (suc (suc y)) z hx hy hz = absurd (omega arith)
differ_assoc (suc (suc x)) y z hx hy hz = absurd (omega arith)

differ_self : (x : ℕ) → differ x x ≡ 0
differ_self zero = refl
differ_self (suc x) = differ_self x

pub bit-zero : (i : ℕ) → bit 0 i ≡ 0
unfolding bit
bit-zero zero = refl
bit-zero (suc i) = bit-zero i

same_bits : (a b : ℕ) → ((i : ℕ) → bit a i ≡ bit b i) → a ≡ b
same_bits a b h = word_ext (a + b) a b (omega arith) (omega arith) h

pub bit_xor_comm : (a b : ℕ) → bit_xor a b ≡ bit_xor b a
bit_xor_comm a b = same_bits _ _ λ i.
    bit-bit_xor a b i
    ∙ differ_comm (bit a i) (bit b i) (bit-lt a i) (bit-lt b i)
    ∙ sym (bit-bit_xor b a i)

pub bit_xor_assoc : (a b c : ℕ) → bit_xor (bit_xor a b) c ≡ bit_xor a (bit_xor b c)
bit_xor_assoc a b c = same_bits _ _ λ i.
    bit-bit_xor (bit_xor a b) c i
    ∙ ap (λ (t : ℕ). differ t (bit c i)) (bit-bit_xor a b i)
    ∙ differ_assoc (bit a i) (bit b i) (bit c i) (bit-lt a i) (bit-lt b i) (bit-lt c i)
    ∙ ap (λ (t : ℕ). differ (bit a i) t) (sym (bit-bit_xor b c i))
    ∙ sym (bit-bit_xor a (bit_xor b c) i)

pub bit_xor_self : (a : ℕ) → bit_xor a a ≡ 0
bit_xor_self a = same_bits _ _ λ i. bit-bit_xor a a i ∙ differ_self (bit a i) ∙ sym (bit-zero i)

pub bit_xor-zero : (a : ℕ) → bit_xor 0 a ≡ a
bit_xor-zero a =
    same_bits _ _ λ i. bit-bit_xor 0 a i ∙ ap (λ (t : ℕ). differ t (bit a i)) (bit-zero i)

pub bit_xor_left_comm : (a b c : ℕ) → bit_xor a (bit_xor b c) ≡ bit_xor b (bit_xor a c)
bit_xor_left_comm a b c =
    sym (bit_xor_assoc a b c) ∙ ap (λ (t : ℕ). bit_xor t c) (bit_xor_comm a b) ∙ bit_xor_assoc b a c

-- Four words in two pairs, paired the other way.
pub bit_xor_swap :
    (a b c d : ℕ) → bit_xor (bit_xor a b) (bit_xor c d) ≡ bit_xor (bit_xor a c) (bit_xor b d)
bit_xor_swap a b c d =
    bit_xor_assoc a b (bit_xor c d)
    ∙ ap (λ (t : ℕ). bit_xor a t) (bit_xor_left_comm b c d)
    ∙ sym (bit_xor_assoc a c (bit_xor b d))

-- A word is the exclusive or of its fields.
pub bit_xor_fields : (k hi lo : ℕ) → lo < 2 ^ k → bit_xor (hi * 2 ^ k) lo ≡ hi * 2 ^ k + lo
bit_xor_fields zero hi lo h =
    ap (λ (t : ℕ). bit_xor (hi * 1) t) (let z : lo ≡ 0 = omega arith in z)
    ∙ bit_xor_comm (hi * 1) 0
    ∙ bit_xor-zero (hi * 1)
    ∙ omega arith
bit_xor_fields (suc k) hi lo h = ground (
  arith,
  bit_xor_step (hi * 2 ^ suc k) lo,
  two-pow-succ k,
  ap (λ (t : ℕ). hi * t) (two-pow-succ k),
  bit_xor_fields k hi (lo / 2),
)

pub bit_xor_half : (a b : ℕ) → bit_xor a b / 2 ≡ bit_xor (a / 2) (b / 2)
bit_xor_half a b =
    omega (arith, bit_xor_step a b, differ-lt (a % 2) (b % 2) (omega arith) (omega arith))

pub bit_xor_parity : (a b : ℕ) → bit_xor a b % 2 ≡ differ (a % 2) (b % 2)
bit_xor_parity a b =
    omega (arith, bit_xor_step a b, differ-lt (a % 2) (b % 2) (omega arith) (omega arith))

div_one : (a : ℕ) → a / 2 ^ 0 ≡ a
div_one a = omega arith

div_pow : (a k : ℕ) → a / 2 ^ suc k ≡ a / 2 / 2 ^ k
div_pow a k = ap (λ (t : ℕ). a / t) (pow-succ' 2 k) ∙ sym (div-div-eq-div-mul a 2 (2 ^ k))

-- A right shift goes through an exclusive or.
pub bit_xor_shift : (k a b : ℕ) → bit_xor a b / 2 ^ k ≡ bit_xor (a / 2 ^ k) (b / 2 ^ k)
bit_xor_shift zero a b = div_one (bit_xor a b) ∙ ap₂ bit_xor (sym (div_one a)) (sym (div_one b))
bit_xor_shift (suc k) a b =
    div_pow (bit_xor a b) k
    ∙ ap (λ (t : ℕ). t / 2 ^ k) (bit_xor_half a b)
    ∙ bit_xor_shift k (a / 2) (b / 2)
    ∙ ap₂ bit_xor (sym (div_pow a k)) (sym (div_pow b k))

pub bit_xor-lt : (k a b : ℕ) → a < 2 ^ k → b < 2 ^ k → bit_xor a b < 2 ^ k
bit_xor-lt zero a b ha hb = omega (
  arith,
  ap₂ bit_xor (let z : a ≡ 0 = omega arith in z) (let z : b ≡ 0 = omega arith in z),
  bit_xor-zero 0,
)
bit_xor-lt (suc k) a b ha hb = omega (
  arith,
  two-pow-succ k,
  bit_xor_step a b,
  differ-lt (a % 2) (b % 2) (omega arith) (omega arith),
  bit_xor-lt k (a / 2) (b / 2) (omega (arith, two-pow-succ k)) (omega (arith, two-pow-succ k)),
)
