-- ===== src/Bitmap/Ranges.antt =====
-- source/gen_bitmap.c: the operations on ranges of numbers.
pub mod Bytes
pub mod Clear
pub mod Marks
pub mod Copy
use libext2fs.Prelude.{
  ℕ, zero, suc, ◌+◌, ◌-◌, ◌*◌, ◌/◌, ◌%◌, ◌^◌, ◌<<<◌, ◌>>>◌, u32, sub32, List, ◌++◌, take, drop,
  length, Bool, true, false, ◌&&◌, ◌||◌, not, ltb, leb, ◌==◌, if◌then◌else◌, truth, bit_and, bit_or,
  Option, none, some,
}
use libext2fs.Bitops.{byte, fast_set_bit, fast_clear_bit}
use libext2fs.Bitmap.{Bitmap}
use libext2fs.Errors.{magic_block_bitmap, magic_inode_bitmap, invalid_argument}

-- `!memcmp(mem + at, zero_buf, n)`
pub zero_run : List ℕ → ℕ → ℕ → Bool
zero_run mem at zero = true
zero_run mem at (suc n) = (byte mem (at + n) == 0) && zero_run mem at n

-- `ext2fs_mem_is_zero(mem + at, len)`; every round takes 256 bytes, and the fuel is never used up
-- where it is at least `len`.
pub zero_chunks : ℕ → List ℕ → ℕ → ℕ → Bool
zero_chunks zero mem at len = true
zero_chunks (suc fuel) mem at len =
    let rest = zero_chunks fuel mem (at + 256) (len - 256) in
    if leb 256 len
    then (if not (zero_run mem at 256) then false else rest)
    else (if truth len then zero_run mem at len else true)

pub mem_is_zero : List ℕ → ℕ → ℕ → Bool
mem_is_zero mem at len = zero_chunks len mem at len

-- `for (i = left; i > 0; i--, mark_bit--) first_bit |= 1 << mark_bit`
pub ones_down : ℕ → ℕ → ℕ → ℕ
ones_down zero mark_bit bits = bits
ones_down (suc left) mark_bit bits = ones_down left (mark_bit - 1) (bit_or bits (1 <<< mark_bit))

-- The end of `ext2fs_test_clear_generic_bitmap_range`, from the first whole byte.
pub whole_bytes_clear : List ℕ → ℕ → ℕ → ℕ → Bool
whole_bytes_clear bytes start_byte len_byte len_bit =
    if truth len_bit
    then (if truth
          (bit_and (ones_down len_bit (len_bit - 1) 0) (byte bytes (start_byte + len_byte)))
        then false
        else (if len_byte == 0 then true else mem_is_zero bytes start_byte len_byte))
    else mem_is_zero bytes start_byte len_byte

-- Sums and differences of `unsigned int` wrap.
pub test_clear_generic_bitmap_range : Bitmap → ℕ → ℕ → Bool
test_clear_generic_bitmap_range bm start len =
    let start' = sub32 start bm.start in
    let start_byte = start' >>> 3 in
    let start_bit = start' % 8 in
    let mark_count = if ltb len (8 - start_bit) then len else 8 - start_bit in
    let mark_bit = if ltb len (8 - start_bit) then sub32 (u32 (len + start_bit)) 1 else 7 in
    let first_bit = ones_down mark_count mark_bit 0 in
    if not (start_bit == 0)
    then (if truth (bit_and first_bit (byte bm.bitmap start_byte))
        then false
        else (if leb len (8 - start_bit)
            then true
            else whole_bytes_clear bm.bitmap (start_byte + 1) ((len - mark_count) >>> 3)
                ((len - mark_count) % 8)))
    else whole_bytes_clear bm.bitmap start_byte (len >>> 3) (len % 8)

abbrev of_bool : Bool → ℕ
of_bool b = if b then 1 else 0

-- `block+num-1 > bitmap->real_end` in 32 bits.
pub last_of : ℕ → ℕ → ℕ
last_of block num = sub32 (u32 (block + num)) 1

pub test_block_bitmap_range : Bitmap → ℕ → ℕ → ℕ
test_block_bitmap_range bm block num =
    if not (bm.magic == magic_block_bitmap)
    then magic_block_bitmap
    else (if ltb block bm.start || ltb bm.real_end (last_of block num)
        then 0
        else of_bool (test_clear_generic_bitmap_range bm block num))

pub test_inode_bitmap_range : Bitmap → ℕ → ℕ → ℕ
test_inode_bitmap_range bm inode num =
    if not (bm.magic == magic_inode_bitmap)
    then magic_inode_bitmap
    else (if ltb inode bm.start || ltb bm.real_end (last_of inode num)
        then 0
        else of_bool (test_clear_generic_bitmap_range bm inode num))

-- `for (i = 0; i < num; i++) ext2fs_fast_set_bit(block + i - start, …)`, from `at` on.
pub set_run : ℕ → ℕ → List ℕ → List ℕ
set_run zero at bytes = bytes
set_run (suc left) at bytes = set_run left (at + 1) (fast_set_bit at bytes)

pub clear_run : ℕ → ℕ → List ℕ → List ℕ
clear_run zero at bytes = bytes
clear_run (suc left) at bytes = clear_run left (at + 1) (fast_clear_bit at bytes)

pub mark_block_bitmap_range : Bitmap → ℕ → ℕ → Bitmap
mark_block_bitmap_range bm block num =
    if ltb block bm.start || ltb bm.end (last_of block num)
    then bm
    else record bm { bitmap = set_run num (block - bm.start) bm.bitmap }

pub unmark_block_bitmap_range : Bitmap → ℕ → ℕ → Bitmap
unmark_block_bitmap_range bm block num =
    if ltb block bm.start || ltb bm.end (last_of block num)
    then bm
    else record bm { bitmap = clear_run num (block - bm.start) bm.bitmap }

-- The bytes that are copied out; the index does not subtract the start of the bitmap.
pub get_generic_bitmap_range : Bitmap → ℕ → ℕ → ℕ → ℕ × Option (List ℕ)
get_generic_bitmap_range bm magic start num =
    if not (bm.magic == magic)
    then (magic, none)
    else (if ltb start bm.start || ltb bm.real_end (last_of start num)
        then (invalid_argument, none)
        else (0, some (take (u32 (num + 7) >>> 3) (drop (start >>> 3) bm.bitmap))))

-- `bytes` is what `in` points at.
pub set_generic_bitmap_range : Bitmap → ℕ → ℕ → ℕ → List ℕ → ℕ × Bitmap
set_generic_bitmap_range bm magic start num bytes =
    let n = u32 (num + 7) >>> 3 in
    if not (bm.magic == magic)
    then (magic, bm)
    else (if ltb start bm.start || ltb bm.real_end (last_of start num)
        then (invalid_argument, bm)
        else (
          0,
          record bm {
            bitmap =
                take (start >>> 3) bm.bitmap
                ++ (take n bytes ++ drop ((start >>> 3) + n) bm.bitmap);
          },
        ))
