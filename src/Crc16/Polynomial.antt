-- ===== src/Crc16/Polynomial.antt =====
-- The table against the definition: division by the reflected polynomial 0x8005, bit by bit.
use libext2fs.Prelude.{
  ℕ, zero, suc, ◌+◌, ◌*◌, ◌/◌, ◌%◌, ◌^◌, ◌<◌, List, [], ◌∷◌, bit_and, bit_xor, ◌≡◌, refl, sym, ◌∙◌,
  ap, ap₂, arith, get_or, ◌==◌, passes, passes_sound, true, ltb, ◌&&◌, ◌>>>◌,
}
use Prim.Native.Nat.{differ}
use libext2fs.Bits.Fields.{bit_and_low, shift_twice}
use libext2fs.Bits.Xor.{
  bit_xor_comm, bit_xor_self, bit_xor-zero, bit_xor_swap, bit_xor_fields, bit_xor_half,
  bit_xor_parity, bit_xor_shift, bit_xor-lt,
}
use libext2fs.Crc16.{crc16_table, crc16}

-- One step of the division: the bit that is shifted out selects the polynomial 0xA001, which is
-- 0x8005 with its bits reversed.
unfoldable pub divide : ℕ → ℕ
divide x = bit_xor (x / 2) (x % 2 * 0xA001)

unfoldable pub divide_times : ℕ → ℕ → ℕ
divide_times zero x = x
divide_times (suc n) x = divide_times n (divide x)

-- The checksum by its definition: each byte goes into the low bits, and eight steps follow.
unfoldable pub crc16_def : ℕ → List ℕ → ℕ
crc16_def crc [] = crc
crc16_def crc (b ∷ bytes) = crc16_def (divide_times 8 (bit_xor crc b)) bytes

nothing : (poly : ℕ) → 0 * poly ≡ 0
nothing poly = omega arith

differ-mul : (p q poly : ℕ) → p < 2 → q < 2 → differ p q * poly ≡ bit_xor (p * poly) (q * poly)
differ-mul zero q poly hp hq =
    sym (ap (λ (t : ℕ). bit_xor t (q * poly)) (nothing poly) ∙ bit_xor-zero (q * poly))
differ-mul (suc zero) zero poly hp hq = sym (
    bit_xor_comm (1 * poly) (0 * poly)
    ∙ ap (λ (t : ℕ). bit_xor t (1 * poly)) (nothing poly)
    ∙ bit_xor-zero (1 * poly))
differ-mul (suc zero) (suc zero) poly hp hq = nothing poly ∙ sym (bit_xor_self (1 * poly))
differ-mul (suc zero) (suc (suc q)) poly hp hq = absurd (omega arith)
differ-mul (suc (suc p)) q poly hp hq = absurd (omega arith)

-- Division is linear over exclusive or.
divide-bit_xor : (x y : ℕ) → divide (bit_xor x y) ≡ bit_xor (divide x) (divide y)
unfolding divide
divide-bit_xor x y =
    ap₂ bit_xor (bit_xor_half x y) (
      ap (λ (t : ℕ). t * 0xA001) (bit_xor_parity x y)
      ∙ differ-mul (x % 2) (y % 2) 0xA001 (omega arith) (omega arith))
    ∙ bit_xor_swap (x / 2) (y / 2) (x % 2 * 0xA001) (y % 2 * 0xA001)

divide_times-bit_xor :
    (n x y : ℕ) → divide_times n (bit_xor x y) ≡ bit_xor (divide_times n x) (divide_times n y)
unfolding divide_times
divide_times-bit_xor zero x y = refl
divide_times-bit_xor (suc n) x y =
    ap (divide_times n) (divide-bit_xor x y) ∙ divide_times-bit_xor n (divide x) (divide y)

-- Bits that have not come down yet are only moved.
divide_double : (h : ℕ) → divide (2 * h) ≡ h
unfolding divide
divide_double h =
    ap₂ bit_xor (let half : 2 * h / 2 ≡ h = omega arith in half)
      (let none_out : 2 * h % 2 * 0xA001 ≡ 0 = omega arith in none_out)
    ∙ bit_xor_comm h 0
    ∙ bit_xor-zero h

divide_times-mul : (n h : ℕ) → divide_times n (h * 2 ^ n) ≡ h
unfolding divide_times
divide_times-mul zero h = omega arith
divide_times-mul (suc n) h =
    ap (λ t. divide_times n (divide t)) (shift_twice h n ∙ twice (h * 2 ^ n))
    ∙ ap (divide_times n) (divide_double (h * 2 ^ n))
    ∙ divide_times-mul n h
  where
    twice : (t : ℕ) → t + t ≡ 2 * t
    twice t = omega arith

-- Every entry of the table is eight steps from its index, and has 16 bits.
table_checks :
    passes
      (λ x. (get_or crc16_table x 0 == divide_times 8 x) && ltb (divide_times 8 x) (2 ^ 16))
      256
    ≡ true
unfolding passes crc16_table divide_times divide
table_checks = refl

crc16_table_lem :
    (x : ℕ) → x < 256 → (get_or crc16_table x 0 ≡ divide_times 8 x) × (divide_times 8 x < 2 ^ 16)
crc16_table_lem x h =
    checked (get_or crc16_table x 0) (divide_times 8 x) (passes_sound _ 256 x h table_checks)
  where
    checked : (a b : ℕ) → ((a == b) && ltb b (2 ^ 16)) ≡ true → (a ≡ b) × (b < 2 ^ 16)
    checked a b e = (ground arith, ground arith)

-- A look-up of the low byte and a shift make eight steps.
byte_lem :
    (x : ℕ) → x < 2 ^ 16 → bit_xor (x / 256) (get_or crc16_table (x % 256) 0) ≡ divide_times 8 x
byte_lem x h =
    ap₂ bit_xor (sym (divide_times-mul 8 (x / 256))) ((crc16_table_lem (x % 256) (omega arith)).0)
    ∙ sym (divide_times-bit_xor 8 (x / 256 * 256) (x % 256))
    ∙ ap (divide_times 8) (bit_xor_fields 8 (x / 256) (x % 256) (omega arith) ∙ omega arith)

-- All bytes.
abbrev pub AreBytes : List ℕ → Type 0
AreBytes [] = Unit {0}
AreBytes (b ∷ bytes) = (b < 256) × AreBytes bytes

-- The table-driven checksum is the one of the definition, for any start value of 16 bits and any
-- bytes, and has 16 bits itself.
pub crc16-eq-def :
    (crc : ℕ) (bytes : List ℕ)
    → crc < 2 ^ 16
    → AreBytes bytes
    → (crc16 crc bytes ≡ crc16_def crc bytes) × (crc16 crc bytes < 2 ^ 16)
unfolding crc16 crc16_def
crc16-eq-def crc [] h bs = (refl, h)
crc16-eq-def crc (b ∷ bytes) h (hb, bs) = rw step (crc16-eq-def next bytes fits bs)
  where
    next : ℕ
    next = divide_times 8 (bit_xor crc b)

    x : ℕ
    x = bit_xor crc b

    x_fits : x < 2 ^ 16
    x_fits = bit_xor-lt 16 crc b h (omega arith)

    high : crc / 256 ≡ x / 256
    high = sym (
        bit_xor_shift 8 crc b
        ∙ ap (λ (t : ℕ). bit_xor (crc / 256) t) (let z : b / 256 ≡ 0 = omega arith in z)
        ∙ bit_xor_comm (crc / 256) 0
        ∙ bit_xor-zero (crc / 256))

    fits : next < 2 ^ 16
    fits = rw (← byte_lem x x_fits) (
        bit_xor-lt 16 (x / 256) (get_or crc16_table (x % 256) 0) (omega (arith, x_fits))
          (omega (arith, crc16_table_lem (x % 256) (omega arith))))

    step :
        bit_and
          (bit_xor (bit_and (crc >>> 8) 0xff) (get_or crc16_table (bit_and (bit_xor crc b) 0xff) 0))
          0x0000ffff
        ≡ next
    step =
        bit_and_low 16 _
        ∙ ap (λ (t : ℕ). t % 2 ^ 16)
            (ap₂ (λ (hi lo : ℕ). bit_xor hi (get_or crc16_table lo 0))
                (bit_and_low 8 (crc / 256)
                  ∙ (let small : crc / 256 % 256 ≡ crc / 256 = omega arith in small)
                  ∙ high)
                (bit_and_low 8 x)
              ∙ byte_lem x x_fits)
        ∙ (let kept : next % 2 ^ 16 ≡ next = omega (arith, fits) in kept)
