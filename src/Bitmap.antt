-- ===== src/Bitmap.antt =====
-- source/gen_bitmap.c: sets of block or inode numbers from `start` to `end`, in an array of bytes
-- that has room for numbers up to `real_end`.
-- A bitmap is given by its structure. The first lines of several functions send the structures of
-- gen_bitmap64.c, which are of another type, to that file; here they are not bitmaps.
-- Left out are the description, which is only printed, and the error codes of warnings.
pub mod Ranges
pub mod Valid
pub mod Single
pub mod Make
pub mod Room
pub mod Resize
pub mod Padding
mod Tests
pub mod Compare
use libext2fs.Prelude.{
  ℕ, zero, suc, ◌+◌, ◌-◌, ◌*◌, ◌/◌, ◌%◌, ◌<<<◌, ◌>>>◌, u32, sub32, List, [], ◌++◌, length, take,
  drop, replicate, Bool, true, false, ◌&&◌, ◌||◌, not, ltb, leb, ◌==◌, if◌then◌else◌, truth,
  bit_and, bit_or, Option, none, some,
}
use libext2fs.Bitops.{byte, set_bit, clear_bit, test_bit, fast_set_bit, fast_clear_bit}
use libext2fs.Errors.{
  magic_block_bitmap, magic_inode_bitmap, magic_generic_bitmap, no_memory, invalid_argument,
}

-- `struct ext2fs_struct_generic_bitmap`
pub record Bitmap : Type 0 where
  pub magic : ℕ
  pub start : ℕ
  pub end : ℕ
  pub real_end : ℕ
  pub bitmap : List ℕ

-- EXT2FS_IS_32_BITMAP
abbrev pub is_32_bitmap : Bitmap → Bool
is_32_bitmap bm =
    (bm.magic == magic_generic_bitmap)
    || ((bm.magic == magic_block_bitmap) || (bm.magic == magic_inode_bitmap))

abbrev pub outside : Bitmap → ℕ → Bool
outside bm bitno = ltb bitno bm.start || ltb bm.end bitno

unfoldable pub test_generic_bitmap : Bitmap → ℕ → ℕ
test_generic_bitmap bm bitno =
    if not (is_32_bitmap bm)
    then 0
    else (if outside bm bitno then 0 else test_bit (bitno - bm.start) bm.bitmap)

unfoldable pub mark_generic_bitmap : Bitmap → ℕ → ℕ × Bitmap
mark_generic_bitmap bm bitno =
    let (was, bits) = set_bit (bitno - bm.start) bm.bitmap in
    if not (is_32_bitmap bm)
    then (0, bm)
    else (if outside bm bitno then (0, bm) else (was, record bm { bitmap = bits }))

unfoldable pub unmark_generic_bitmap : Bitmap → ℕ → ℕ × Bitmap
unmark_generic_bitmap bm bitno =
    let (was, bits) = clear_bit (bitno - bm.start) bm.bitmap in
    if not (is_32_bitmap bm)
    then (0, bm)
    else (if outside bm bitno then (0, bm) else (was, record bm { bitmap = bits }))

-- A status with the bitmap that was made.
pub data Made : Type 0 where
  made : Bitmap → Made
  failed : ℕ → Made

-- `mem` and `array` say whether the two allocations succeed (there is no description).
-- The size is rounded as the code does; `& ~3` takes the remainder by 4 away.
pub make_generic_bitmap : Bool → Bool → ℕ → ℕ → ℕ → ℕ → Option (List ℕ) → Made
make_generic_bitmap mem array magic start end real_end init_map =
    let size = sub32 real_end start / 8 + 1 in
    let size' = size + 7 - (size + 7) % 4 in
    if not mem
    then failed no_memory
    else (if not array
        then failed no_memory
        else made (record {
          magic = magic;
          start = start;
          end = end;
          real_end = real_end;
          bitmap = elim init_map [ none ↦ replicate size' 0 | some bytes ↦ take size' bytes ];
        }))

pub copy_generic_bitmap : Bool → Bool → Bitmap → Made
copy_generic_bitmap mem array src =
    make_generic_bitmap mem array src.magic src.start src.end src.real_end (some src.bitmap)

-- `memset(bitmap, 0, n)` on the front of the array.
abbrev pub zeroed : ℕ → List ℕ → List ℕ
zeroed n bytes = replicate n 0 ++ drop n bytes

pub clear_generic_bitmap : Bitmap → Bitmap
clear_generic_bitmap bm =
    if not (is_32_bitmap bm)
    then bm
    else record bm { bitmap = zeroed (sub32 bm.real_end bm.start / 8 + 1) bm.bitmap }

-- The result, the bitmap and the old end.
pub fudge_generic_bitmap_end : Bitmap → ℕ → ℕ → ℕ → ℕ × Bitmap × Option ℕ
fudge_generic_bitmap_end bm magic neq end =
    if not (bm.magic == magic)
    then (magic, bm, none)
    else (if ltb bm.real_end end
        then (neq, bm, none)
        else (0, record bm { end = end }, some bm.end))

-- `for (; bitno > bmap->end; bitno--) ext2fs_clear_bit(…)`, with `left` rounds to go.
pub clear_down : ℕ → ℕ → ℕ → List ℕ → List ℕ
clear_down zero bitno start bytes = bytes
clear_down (suc left) bitno start bytes =
    clear_down left (bitno - 1) start (clear_bit (sub32 bitno start) bytes).1

-- `if (new_size > size) memset(bitmap + size, 0, new_size - size)`
pub wipe : ℕ → ℕ → List ℕ → List ℕ
wipe size new_size bytes =
    if ltb size new_size then take size bytes ++ replicate (new_size - size) 0 else bytes

-- `grown` is what a reallocation to a larger size adds to the array, or `none` if it fails.
pub resize_generic_bitmap : Option (List ℕ) → ℕ → ℕ → ℕ → Bitmap → ℕ × Bitmap
resize_generic_bitmap grown magic new_end new_real_end bm =
    let bitno = if ltb new_end bm.real_end then new_end else bm.real_end in
    let cleared =
      if ltb bm.end new_end
      then record bm { bitmap = clear_down (bitno - bm.end) bitno bm.start bm.bitmap }
      else bm in
    let size = sub32 bm.real_end bm.start / 8 + 1 in
    let new_size = sub32 new_real_end bm.start / 8 + 1 in
    if not (bm.magic == magic)
    then (magic, bm)
    else (if new_real_end == bm.real_end
        then (0, record cleared { end = new_end })
        else (if size == new_size
            then (0, record cleared { end = new_end; real_end = new_real_end })
            else elim grown [
              | none ↦ (no_memory, cleared)
              | some fresh ↦ (
                0,
                record cleared {
                  end = new_end;
                  real_end = new_real_end;
                  bitmap = wipe size new_size (take new_size (cleared.bitmap ++ fresh));
                },
              )
            ]))

-- `memcmp(b1, b2, n) == 0`
pub same_bytes : List ℕ → List ℕ → ℕ → Bool
same_bytes b1 b2 zero = true
same_bytes b1 b2 (suc n) = (byte b1 n == byte b2 n) && same_bytes b1 b2 n

-- The loop of `ext2fs_compare_generic_bitmap` over the last numbers, `left` of them; `true` is a
-- difference. It ends where `end` is below 2^32 - 1, after which `i` cannot come.
pub differs : Bitmap → Bitmap → ℕ → ℕ → Bool
differs bm1 bm2 zero i = false
differs bm1 bm2 (suc left) i =
    not (test_generic_bitmap bm1 i == test_generic_bitmap bm2 i) || differs bm1 bm2 left (i + 1)

pub compare_generic_bitmap : ℕ → ℕ → Bitmap → Bitmap → ℕ
compare_generic_bitmap magic neq bm1 bm2 =
    let width = sub32 bm1.end bm1.start in
    if not (bm1.magic == magic)
    then magic
    else (if not (bm2.magic == magic)
        then magic
        else (if not (bm1.start == bm2.start)
              || (not (bm1.end == bm2.end) || not (same_bytes bm1.bitmap bm2.bitmap (width / 8)))
            then neq
            else if differs bm1 bm2 (width % 8 + 1) (sub32 bm1.end (width % 8))
            then neq
            else 0))

-- The loop of `ext2fs_set_generic_bitmap_padding`, with `left` rounds to go.
pub set_up : ℕ → ℕ → List ℕ → List ℕ
set_up zero j bytes = bytes
set_up (suc left) j bytes = set_up left (j + 1) (set_bit j bytes).1

-- Where `end` is the last 32-bit number, `i` wraps to 0 and the loop has no round.
pub set_generic_bitmap_padding : Bitmap → Bitmap
set_generic_bitmap_padding bm = record bm {
  bitmap = set_up (bm.real_end - bm.end) (sub32 (bm.end + 1) bm.start) bm.bitmap;
}
