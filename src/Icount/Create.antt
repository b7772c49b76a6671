-- ===== src/Icount/Create.antt =====
-- source/icount.c: making an icount, with the bitmaps of source/bitmaps.c.
use libext2fs.Prelude.{
  ℕ, ◌+◌, ◌*◌, ◌/◌, u32, List, [], map, Bool, false, not, ltb, ◌==◌, if◌then◌else◌, Option, none,
  some,
}
use libext2fs.Errors.{magic_icount, magic_inode_bitmap, no_memory}
use libext2fs.Fs.{Filsys}
use libext2fs.Dblist.{get_num_dirs}
use libext2fs.Bitmap.{Bitmap, make_generic_bitmap}
use libext2fs.Bitmap
use libext2fs.Icount.{IcountEl, Icount}

-- A status with the icount that was made.
pub data Made : Type 0 where
  made : Icount → Made
  failed : ℕ → Made

-- The outcomes of the allocations: of a structure and of the array or arrays that it points to.
pub record Memory : Type 0 where
  pub icount_ok : Bool
  pub single_ok : Bool
  pub single_array_ok : Bool
  pub multiple_ok : Bool
  pub multiple_array_ok : Bool
  pub list_ok : Bool

-- `ext2fs_allocate_inode_bitmap` for a file system without EXT2_FLAG_64BITS.
unfoldable pub allocate_inode_bitmap : Bool → Bool → Filsys → Bitmap.Made
allocate_inode_bitmap mem array fs =
    make_generic_bitmap mem array magic_inode_bitmap 1 fs.super.s_inodes_count
      (u32 (fs.super.s_inodes_per_group * fs.group_desc_count)) none

-- `increment` is the flag EXT2_ICOUNT_OPT_INCREMENT.
unfoldable pub alloc_icount : Memory → Filsys → Bool → Made
alloc_icount memory fs increment =
    let with_maps : Bitmap → Option Bitmap → Made = λ single multiple. made (record {
      magic = magic_icount;
      single = single;
      multiple = multiple;
      size = 0;
      num_inodes = fs.super.s_inodes_count;
      cursor = 0;
      list = [];
      last_lookup = none;
    }) in
    if not memory.icount_ok
    then failed no_memory
    else elim (allocate_inode_bitmap memory.single_ok memory.single_array_ok fs) [
      | Bitmap.failed e ↦ failed e
      | Bitmap.made single ↦
          if not increment
          then with_maps single none
          else elim (allocate_inode_bitmap memory.multiple_ok memory.multiple_array_ok fs) [
            | Bitmap.failed e ↦ failed e
            | Bitmap.made multiple ↦ with_maps single (some multiple)
          ]
    ]

-- The size that a new list is given.
unfoldable pub list_size : Filsys → ℕ → Option Icount → ℕ
list_size fs size hint =
    let size' : ℕ = elim hint [ none ↦ size | some h ↦ if ltb size h.size then h.size else size ] in
    if not (size' == 0) then size' else u32 (get_num_dirs fs + fs.super.s_inodes_count / 50)

abbrev pub uncounted : IcountEl → IcountEl
uncounted e = record { ino = e.ino; count = 0 }

-- The entries that a hint gives, with no count.
abbrev pub hinted : Option Icount → List IcountEl
hinted none = []
hinted (some h) = map uncounted h.list

unfoldable pub create_icount2 : Memory → Filsys → Bool → ℕ → Option Icount → Made
create_icount2 memory fs increment size hint =
    if elim hint [ none ↦ false | some h ↦ not (h.magic == magic_icount) ]
    then failed magic_icount
    else elim (alloc_icount memory fs increment) [
      | failed e ↦ failed e
      | made ic ↦
          if not memory.list_ok
          then failed no_memory
          else made (record ic { size = list_size fs size hint; list = hinted hint })
    ]
