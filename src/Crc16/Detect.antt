-- ===== src/Crc16/Detect.antt =====
-- What the checksum is for: a change of one byte shows.
use libext2fs.Prelude.{
  ℕ, zero, suc, ◌*◌, ◌/◌, ◌%◌, ◌^◌, ◌<◌, List, [], ◌∷◌, ◌++◌, bit_xor, ◌≡◌, ◌≢◌, sym, ◌∙◌, ap, ap₂,
  arith,
}
use libext2fs.Bits.Xor.{
  bit_xor_comm, bit_xor_assoc, bit_xor_self, bit_xor-zero, bit_xor_shift, bit_xor-lt,
}
use libext2fs.Crc16.{crc16}
use libext2fs.Crc16.Polynomial.{divide, divide_times, crc16_def, AreBytes, crc16-eq-def}

xor_cancel : (a b : ℕ) → bit_xor (bit_xor a b) b ≡ a
xor_cancel a b =
    bit_xor_assoc a b b ∙ ap (bit_xor a) (bit_xor_self b) ∙ bit_xor_comm a 0 ∙ bit_xor-zero a

-- The bit that was shifted out is the top bit of the result.
divide_top : (x : ℕ) → x < 2 ^ 16 → divide x / 2 ^ 15 ≡ x % 2
unfolding divide
divide_top x h =
    bit_xor_shift 15 (x / 2) (x % 2 * 0xA001)
    ∙ ap₂ bit_xor (let none_left : x / 2 / 2 ^ 15 ≡ 0 = omega arith in none_left)
        (let top : x % 2 * 0xA001 / 2 ^ 15 ≡ x % 2 = omega arith in top)
    ∙ bit_xor-zero (x % 2)

divide_undo : (x : ℕ) → bit_xor (divide x) (x % 2 * 0xA001) ≡ x / 2
unfolding divide
divide_undo x = xor_cancel (x / 2) (x % 2 * 0xA001)

divide-lt : (x : ℕ) → x < 2 ^ 16 → divide x < 2 ^ 16
unfolding divide
divide-lt x h = bit_xor-lt 16 (x / 2) (x % 2 * 0xA001) (omega arith) (omega arith)

divide_injective : (x y : ℕ) → x < 2 ^ 16 → y < 2 ^ 16 → divide x ≡ divide y → x ≡ y
divide_injective x y hx hy e = omega (arith, out, rest)
  where
    out : x % 2 ≡ y % 2
    out = sym (divide_top x hx) ∙ ap (λ (t : ℕ). t / 2 ^ 15) e ∙ divide_top y hy

    rest : x / 2 ≡ y / 2
    rest = sym (divide_undo x) ∙ ap₂ (λ (d o : ℕ). bit_xor d (o * 0xA001)) e out ∙ divide_undo y

divide_times-lt : (n x : ℕ) → x < 2 ^ 16 → divide_times n x < 2 ^ 16
unfolding divide_times
divide_times-lt zero x h = h
divide_times-lt (suc n) x h = divide_times-lt n (divide x) (divide-lt x h)

divide_times_injective :
    (n x y : ℕ) → x < 2 ^ 16 → y < 2 ^ 16 → divide_times n x ≡ divide_times n y → x ≡ y
unfolding divide_times
divide_times_injective zero x y hx hy e = e
divide_times_injective (suc n) x y hx hy e =
    divide_injective x y hx hy
      (divide_times_injective n (divide x) (divide y) (divide-lt x hx) (divide-lt y hy) e)

xor_injective_left : (a b c : ℕ) → bit_xor a c ≡ bit_xor b c → a ≡ b
xor_injective_left a b c e = sym (xor_cancel a c) ∙ ap (λ (t : ℕ). bit_xor t c) e ∙ xor_cancel b c

xor_injective_right : (a b c : ℕ) → bit_xor c a ≡ bit_xor c b → a ≡ b
xor_injective_right a b c e = xor_injective_left a b c (bit_xor_comm a c ∙ e ∙ bit_xor_comm c b)

-- Different states stay different through the same bytes.
crc16_def_injective :
    (x y : ℕ) (bytes : List ℕ)
    → x < 2 ^ 16
    → y < 2 ^ 16
    → AreBytes bytes
    → crc16_def x bytes ≡ crc16_def y bytes
    → x ≡ y
unfolding crc16_def
crc16_def_injective x y [] hx hy bs e = e
crc16_def_injective x y (b ∷ bytes) hx hy (hb, bs) e = xor_injective_left x y b (
    divide_times_injective 8 (bit_xor x b) (bit_xor y b) (mixed x hx) (mixed y hy) (
      crc16_def_injective (divide_times 8 (bit_xor x b)) (divide_times 8 (bit_xor y b)) bytes
        (divide_times-lt 8 (bit_xor x b) (mixed x hx))
        (divide_times-lt 8 (bit_xor y b) (mixed y hy)) bs e))
  where
    mixed : (z : ℕ) → z < 2 ^ 16 → bit_xor z b < 2 ^ 16
    mixed z hz = bit_xor-lt 16 z b hz (omega arith)

def_one_byte :
    (crc : ℕ) (xs : List ℕ) (a b : ℕ) (ys : List ℕ)
    → crc < 2 ^ 16
    → AreBytes (xs ++ a ∷ ys)
    → b < 256
    → crc16_def crc (xs ++ a ∷ ys) ≡ crc16_def crc (xs ++ b ∷ ys)
    → a ≡ b
unfolding crc16_def
def_one_byte crc [] a b ys h (ha, bs) hb e = xor_injective_right a b crc (
    divide_times_injective 8 (bit_xor crc a) (bit_xor crc b) (mixed a ha) (mixed b hb) (
      crc16_def_injective _ _ ys (divide_times-lt 8 (bit_xor crc a) (mixed a ha))
        (divide_times-lt 8 (bit_xor crc b) (mixed b hb)) bs e))
  where
    mixed : (z : ℕ) → z < 256 → bit_xor crc z < 2 ^ 16
    mixed z hz = bit_xor-lt 16 crc z h (omega arith)
def_one_byte crc (x ∷ xs) a b ys h (hx, bs) hb e =
    def_one_byte (divide_times 8 (bit_xor crc x)) xs a b ys
      (divide_times-lt 8 (bit_xor crc x) (bit_xor-lt 16 crc x h (omega arith))) bs hb e

AreBytes-replace :
    (xs : List ℕ) (a b : ℕ) (ys : List ℕ)
    → b < 256
    → AreBytes (xs ++ a ∷ ys)
    → AreBytes (xs ++ b ∷ ys)
AreBytes-replace [] a b ys hb (ha, bs) = (hb, bs)
AreBytes-replace (x ∷ xs) a b ys hb (hx, bs) = (hx, AreBytes-replace xs a b ys hb bs)

-- Two buffers of bytes that differ in exactly one byte, wherever it stands, have different
-- checksums, from the same start value of 16 bits.
pub crc16_detects :
    (crc : ℕ) (xs : List ℕ) (a b : ℕ) (ys : List ℕ)
    → crc < 2 ^ 16
    → AreBytes (xs ++ a ∷ ys)
    → b < 256
    → a ≢ b
    → crc16 crc (xs ++ a ∷ ys) ≢ crc16 crc (xs ++ b ∷ ys)
crc16_detects crc xs a b ys h bs hb ne e = ne (
    def_one_byte crc xs a b ys h bs hb (
      sym (crc16-eq-def crc (xs ++ a ∷ ys) h bs).0
      ∙ e
      ∙ (crc16-eq-def crc (xs ++ b ∷ ys) h (AreBytes-replace xs a b ys hb bs)).0))
