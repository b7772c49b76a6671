-- ===== src/Bitops.antt =====
-- source/bitops.c, source/bitops_functions.c: single bits of a byte array. The 64-bit variants of the functions have the same
-- bodies; the type of the index is all that differs.
pub mod Laws
use libext2fs.Prelude.{ℕ, ◌-◌, ◌<<<◌, ◌>>>◌, List, get_or, set, bit_and, bit_or}

-- `1 << (nr & 0x07)`
abbrev pub mask_of : ℕ → ℕ
mask_of nr = 1 <<< bit_and nr 7

-- `ADDR[i]` of an array of bytes; the proofs show that the accesses are in range.
abbrev pub byte : List ℕ → ℕ → ℕ
byte addr i = get_or addr i 0

-- The result, which is not 0 where the bit was set, and the array afterwards.
unfoldable pub set_bit : ℕ → List ℕ → ℕ × List ℕ
set_bit nr addr = (
  bit_and (mask_of nr) (byte addr (nr >>> 3)),
  set addr (nr >>> 3) (bit_or (byte addr (nr >>> 3)) (mask_of nr)),
)

-- `~mask` is -1 - mask, of which the byte keeps the low 8 bits.
unfoldable pub clear_bit : ℕ → List ℕ → ℕ × List ℕ
clear_bit nr addr = (
  bit_and (mask_of nr) (byte addr (nr >>> 3)),
  set addr (nr >>> 3) (bit_and (byte addr (nr >>> 3)) (0xff - mask_of nr)),
)

unfoldable pub test_bit : ℕ → List ℕ → ℕ
test_bit nr addr = bit_and (mask_of nr) (byte addr (nr >>> 3))

-- The variants of source/bitops_functions.c return nothing.
pub fast_set_bit : ℕ → List ℕ → List ℕ
fast_set_bit nr addr = set addr (nr >>> 3) (bit_or (byte addr (nr >>> 3)) (mask_of nr))

pub fast_clear_bit : ℕ → List ℕ → List ℕ
fast_clear_bit nr addr = set addr (nr >>> 3) (bit_and (byte addr (nr >>> 3)) (0xff - mask_of nr))
