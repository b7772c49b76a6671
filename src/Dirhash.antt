-- ===== src/Dirhash.antt =====
-- source/dirhash.c: the hash of a file name in an indexed directory.
-- A name is the list of its bytes, and `len` its length. Words are 32-bit numbers.
pub mod Signs
pub mod Fuel
mod Tests
use libext2fs.Prelude.{
  ℕ, zero, suc, ◌+◌, ◌-◌, ◌*◌, ◌/◌, ◌%◌, ◌^◌, ◌<<<◌, ◌>>>◌, u32, sub32, bit_and, bit_or, bit_xor,
  List, [], ◌∷◌, length, take, drop, replicate, get_or, Bool, true, false, not, ltb, leb, ◌==◌,
  ◌&&◌, ◌||◌, if◌then◌else◌, truth, Option, none, some,
}

-- `buf`, four words.
pub record Quad : Type 0 where
  pub a : ℕ
  pub b : ℕ
  pub c : ℕ
  pub d : ℕ

-- `in[i]`; the proofs show that the arrays are long enough.
abbrev word : List ℕ → ℕ → ℕ
word input i = get_or input i 0

-- The loop of `TEA_transform` with the words of `in`; `n` rounds are left.
pub tea_rounds : ℕ → List ℕ → ℕ → ℕ → ℕ → ℕ × ℕ
tea_rounds zero input sum b0 b1 = (b0, b1)
tea_rounds (suc n) input sum b0 b1 =
    let sum' = u32 (sum + 0x9e3779b9) in
    let b0' = u32 (
      b0
      + bit_xor (bit_xor (u32 (b1 <<< 4 + word input 0)) (u32 (b1 + sum')))
          (u32 (b1 >>> 5 + word input 1))) in
    let b1' = u32 (
      b1
      + bit_xor (bit_xor (u32 (b0' <<< 4 + word input 2)) (u32 (b0' + sum')))
          (u32 (b0' >>> 5 + word input 3))) in
    tea_rounds n input sum' b0' b1'

pub tea_transform : Quad → List ℕ → Quad
tea_transform buf input =
    let (b0, b1) = tea_rounds 16 input 0 buf.a buf.b in
    record buf { a = u32 (buf.a + b0); b = u32 (buf.b + b1) }

-- The three functions of MD4: selection, majority, parity.
pub data Mix : Type 0 where
  select major parity : Mix

pub mixed : Mix → ℕ → ℕ → ℕ → ℕ
mixed select x y z = bit_xor z (bit_and x (bit_xor y z))
mixed major x y z = u32 (bit_and x y + bit_and (bit_xor x y) z)
mixed parity x y z = bit_xor (bit_xor x y) z

abbrev constant : Mix → ℕ
constant select = 0
constant major = 0x5a827999
constant parity = 0x6ed9eba1

-- ROUND: the first word takes the new value, and each call of the macro names the words one place
-- further, so that a rotation of the four stands for the order of its arguments.
pub md4_round : List ℕ → Quad → Mix × ℕ × ℕ → Quad
md4_round input q (mix, i, s) =
    let x = u32 (word input i + constant mix) in
    let sum = u32 (q.a + (mixed mix q.b q.c q.d + x)) in
    record { a = q.d; b = bit_or (u32 (sum <<< s)) (sum >>> (32 - s)); c = q.b; d = q.c }

pub md4_rounds : List ℕ → Quad → List (Mix × ℕ × ℕ) → Quad
md4_rounds input q [] = q
md4_rounds input q (r ∷ rs) = md4_rounds input (md4_round input q r) rs

-- The word and the shift of each of the 24 rounds.
abbrev md4_schedule : List (Mix × ℕ × ℕ)
md4_schedule =
    (select, 0, 3)
    ∷ (select, 1, 7)
    ∷ (select, 2, 11)
    ∷ (select, 3, 19)
    ∷ (select, 4, 3)
    ∷ (select, 5, 7)
    ∷ (select, 6, 11)
    ∷ (select, 7, 19)
    ∷ (major, 1, 3)
    ∷ (major, 3, 5)
    ∷ (major, 5, 9)
    ∷ (major, 7, 13)
    ∷ (major, 0, 3)
    ∷ (major, 2, 5)
    ∷ (major, 4, 9)
    ∷ (major, 6, 13)
    ∷ (parity, 3, 3)
    ∷ (parity, 7, 9)
    ∷ (parity, 2, 11)
    ∷ (parity, 6, 15)
    ∷ (parity, 1, 3)
    ∷ (parity, 5, 9)
    ∷ (parity, 0, 11)
    ∷ (parity, 4, 15)
    ∷ []

pub half_md4_transform : Quad → List ℕ → Quad
half_md4_transform buf input =
    let q = md4_rounds input buf md4_schedule in
    record {
      a = u32 (buf.a + q.a);
      b = u32 (buf.b + q.b);
      c = u32 (buf.c + q.c);
      d = u32 (buf.d + q.d);
    }

-- `(int) *ucp` or `(int) *scp`, as a 32-bit word.
pub char_word : Bool → ℕ → ℕ
char_word unsigned_flag byte = if unsigned_flag || ltb byte 128 then byte else 2 ^ 32 + byte - 256

pub hack_loop : Bool → List ℕ → ℕ → ℕ → ℕ
hack_loop unsigned_flag [] hash0 hash1 = hash0
hack_loop unsigned_flag (byte ∷ bytes) hash0 hash1 =
    let hash = u32 (hash1 + bit_xor hash0 (u32 (char_word unsigned_flag byte * 7152373))) in
    let hash' = if truth (bit_and hash 0x80000000) then sub32 hash 0x7fffffff else hash in
    hack_loop unsigned_flag bytes hash' hash0

pub dx_hack_hash : Bool → List ℕ → ℕ
dx_hack_hash unsigned_flag name = u32 (hack_loop unsigned_flag name 0x12a3fe2d 0x37abe8f9 <<< 1)

-- The loop of `str2hashbuf` over the bytes from index `i`, and the words that it stores; `num` words
-- are left.
pub fill : Bool → ℕ → List ℕ → ℕ → ℕ → ℕ → List ℕ
fill unsigned_flag pad [] i val num = if num == 0 then [] else val ∷ replicate (num - 1) pad
fill unsigned_flag pad (byte ∷ bytes) i val num =
    let start = if i % 4 == 0 then pad else val in
    let val' = u32 (char_word unsigned_flag byte + u32 (start <<< 8)) in
    let full = i % 4 == 3 in
    let rest =
      fill unsigned_flag pad bytes (i + 1) (if full then pad else val')
        (if full then num - 1 else num) in
    if full then val' ∷ rest else rest

pub str2hashbuf : Bool → List ℕ → ℕ → List ℕ
str2hashbuf unsigned_flag msg num =
    let low = bit_or (u32 (length msg)) (u32 (u32 (length msg) <<< 8)) in
    let pad = bit_or low (u32 (low <<< 16)) in fill unsigned_flag pad (take (num * 4) msg) 0 pad num

-- `while (len > 0)`, with a transform of the next bytes; every round takes 32 or 16 bytes, so that
-- the length of the name is enough fuel.
pub chunks : Bool → ℕ → (Quad → List ℕ → Quad) → ℕ → List ℕ → Quad → Quad
chunks unsigned_flag num transform zero name buf = buf
chunks unsigned_flag num transform (suc fuel) name buf =
    let next = transform buf (str2hashbuf unsigned_flag name num) in
    let rest = chunks unsigned_flag num transform fuel (drop (num * 4) name) next in
    if length name == 0 then buf else rest

pub data Hash : Type 0 where
  hashed : ℕ → ℕ → Hash
  unsupported : Hash

abbrev default_seed : Quad
default_seed = record { a = 0x67452301; b = 0xefcdab89; c = 0x98badcfe; d = 0x10325476 }

-- `seed` is `none` for a null pointer.
abbrev start_of : Option Quad → Quad
start_of none = default_seed
start_of (some s) = if truth s.a || (truth s.b || (truth s.c || truth s.d)) then s else default_seed

abbrev legacy : Bool → List ℕ → Hash
legacy unsigned_flag name = hashed (bit_and (dx_hack_hash unsigned_flag name) 0xfffffffe) 0

abbrev half_md4 : Bool → List ℕ → Quad → Hash
half_md4 unsigned_flag name buf =
    let q = chunks unsigned_flag 8 half_md4_transform (length name) name buf in
    hashed (bit_and q.b 0xfffffffe) q.c

abbrev tea : Bool → List ℕ → Quad → Hash
tea unsigned_flag name buf =
    let q = chunks unsigned_flag 4 tea_transform (length name) name buf in
    hashed (bit_and q.a 0xfffffffe) q.b

-- `unsupported` is EXT2_ET_DIRHASH_UNSUPP.
pub dirhash : ℕ → List ℕ → Option Quad → Hash
dirhash version name seed =
    if version == 3
    then legacy true name
    else (if version == 0
        then legacy false name
        else (if version == 4
            then half_md4 true name (start_of seed)
            else (if version == 1
                then half_md4 false name (start_of seed)
                else (if version == 5
                    then tea true name (start_of seed)
                    else if version == 2
                    then tea false name (start_of seed)
                    else unsupported))))
