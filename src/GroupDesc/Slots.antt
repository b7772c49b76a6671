-- ===== src/GroupDesc/Slots.antt =====
-- The numbers of a group descriptor, with what their accessors read and store: each number lies in
-- the lower half of the descriptor, or in both halves.
use libext2fs.Prelude.{ℕ, ◌+◌, ◌*◌, ◌≤◌, ◌<◌, ◌^◌, ◌%◌, ◌<<<◌, ◌>>>◌, u16, u32, bit_or, length}
use libext2fs.Prelude.{if◌then◌else◌, ◌≡◌, ◌≢◌, refl, arith, Bool, true, false, ◌==◌, ◌∙◌, ◌/◌}
use native.Mathlib.Nat.{mod-lt, one-le-pow}
use libext2fs.Bits.Fields.{bit_or_fields, bit_or-zero_right}
use libext2fs.Fs.{Filsys, Cell, has_incompat, incompat_64bit}
use libext2fs.GroupDesc.Table.{poke, cell_at-poke, length-poke, poke_same}
use libext2fs.GroupDesc.{group_desc, upper_half, lower, upper, store_lower, store_upper}
use libext2fs.GroupDesc.{block_bitmap_loc, block_bitmap_loc_set}
use libext2fs.GroupDesc.{inode_bitmap_loc, inode_bitmap_loc_set}
use libext2fs.GroupDesc.{inode_table_loc, inode_table_loc_set}
use libext2fs.GroupDesc.{bg_free_blocks_count, bg_free_blocks_count_set}
use libext2fs.GroupDesc.{bg_free_inodes_count, bg_free_inodes_count_set}
use libext2fs.GroupDesc.{bg_used_dirs_count, bg_used_dirs_count_set}
use libext2fs.GroupDesc.{bg_itable_unused, bg_itable_unused_set}
use libext2fs.GroupDesc.{bg_checksum, bg_checksum_set}

-- The numbers that a descriptor holds.
pub data Slot : Type 0 where
  block_bitmap inode_bitmap inode_table : Slot
  free_blocks free_inodes used_dirs itable_unused checksum : Slot

-- The getter and the setter of each.
abbrev pub get : Slot → Filsys → ℕ → ℕ
get block_bitmap = block_bitmap_loc
get inode_bitmap = inode_bitmap_loc
get inode_table = inode_table_loc
get free_blocks = bg_free_blocks_count
get free_inodes = bg_free_inodes_count
get used_dirs = bg_used_dirs_count
get itable_unused = bg_itable_unused
get checksum = bg_checksum

abbrev pub put : Slot → Filsys → ℕ → ℕ → Filsys
put block_bitmap = block_bitmap_loc_set
put inode_bitmap = inode_bitmap_loc_set
put inode_table = inode_table_loc_set
put free_blocks = bg_free_blocks_count_set
put free_inodes = bg_free_inodes_count_set
put used_dirs = bg_used_dirs_count_set
put itable_unused = bg_itable_unused_set
put checksum = bg_checksum_set

-- What a slot can hold, by the width of its halves.
abbrev pub kept : Slot → Bool → ℕ → ℕ
kept block_bitmap wide n = if wide then n % 2 ^ 64 else u32 n
kept inode_bitmap wide n = if wide then n % 2 ^ 64 else u32 n
kept inode_table wide n = if wide then n % 2 ^ 64 else u32 n
kept free_blocks wide n = if wide then n % 2 ^ 32 else u16 n
kept free_inodes wide n = if wide then n % 2 ^ 32 else u16 n
kept used_dirs wide n = if wide then n % 2 ^ 32 else u16 n
kept itable_unused wide n = if wide then n % 2 ^ 32 else u16 n
kept checksum wide n = n

-- With the 64BIT feature descriptors are 64 bytes long, and the group lies in the table.
pub record IsInTable (fs : Filsys) (group : ℕ) : Type 0 where
  pub wide : has_incompat fs.super incompat_64bit ≡ true → 64 ≤ fs.super.s_desc_size
  pub inside : group_desc fs group < length fs.group_desc
  pub upper_inside : 64 ≤ fs.super.s_desc_size → upper_half fs group < length fs.group_desc

-- A number of `2 * w` bits is its two halves.
pub join :
    (w n : ℕ)
    → bit_or (n % 2 ^ w) (((n / 2 ^ w) % 2 ^ w) <<< w) ≡ n % 2 ^ w + (n / 2 ^ w) % 2 ^ w * 2 ^ w
join w n =
    bit_or_fields w (n % 2 ^ w) ((n / 2 ^ w) % 2 ^ w) (mod-lt n (one-le-pow w 2 (omega arith)))

-- A pair of stores, and where it shows: in the two halves of its own group's descriptor.
abbrev pub stored : (Cell → Cell) → (Cell → Cell) → Filsys → ℕ → Filsys
stored l u fs group = store_upper u (store_lower l fs group) group

module _ (l u : Cell → Cell) (fs : Filsys) (group other : ℕ) (h : IsInTable fs other) where
  pub lower-stored :
      lower (stored l u fs group) other
      ≡ (if group == other then l (lower fs other) else lower fs other)
  lower-stored = ground (
    arith,
    h.wide,
    h.inside,
    cell_at-poke fs.group_desc (group_desc fs group) (group_desc fs other) l,
    length-poke fs.group_desc (group_desc fs group) l,
    cell_at-poke (poke fs.group_desc (group_desc fs group) l) (upper_half fs group)
        (group_desc fs other) u,
  )

  pub upper-stored :
      has_incompat fs.super incompat_64bit ≡ true
      → upper (stored l u fs group) other
        ≡ (if group == other then u (upper fs other) else upper fs other)
  upper-stored is_64bit = ground (
    arith,
    h.wide is_64bit,
    h.upper_inside (h.wide is_64bit),
    cell_at-poke fs.group_desc (group_desc fs group) (upper_half fs other) l,
    length-poke fs.group_desc (group_desc fs group) l,
    cell_at-poke (poke fs.group_desc (group_desc fs group) l) (upper_half fs group)
        (upper_half fs other) u,
  )

pub super-stored :
    (l u : Cell → Cell) (fs : Filsys) (group : ℕ) → (stored l u fs group).super ≡ fs.super
super-stored l u fs group = ground arith

-- A getter reads the two halves, and a setter is a pair of stores.
module _ (wide : Bool) (lo up : Cell) where
  abbrev pub view : Slot → ℕ
  view block_bitmap = bit_or lo.bg_block_bitmap (if wide then up.bg_block_bitmap <<< 32 else 0)
  view inode_bitmap = bit_or lo.bg_inode_bitmap (if wide then up.bg_inode_bitmap <<< 32 else 0)
  view inode_table = bit_or lo.bg_inode_table (if wide then up.bg_inode_table <<< 32 else 0)
  view free_blocks =
      bit_or lo.bg_free_blocks_count (if wide then up.bg_free_blocks_count <<< 16 else 0)
  view free_inodes =
      bit_or lo.bg_free_inodes_count (if wide then up.bg_free_inodes_count <<< 16 else 0)
  view used_dirs = bit_or lo.bg_used_dirs_count (if wide then up.bg_used_dirs_count <<< 16 else 0)
  view itable_unused = bit_or lo.bg_itable_unused (if wide then up.bg_flags <<< 16 else 0)
  view checksum = lo.bg_checksum

abbrev pub into_lower : Slot → ℕ → Cell → Cell
into_lower block_bitmap n c = record c { bg_block_bitmap = u32 n }
into_lower inode_bitmap n c = record c { bg_inode_bitmap = u32 n }
into_lower inode_table n c = record c { bg_inode_table = u32 n }
into_lower free_blocks n c = record c { bg_free_blocks_count = u16 n }
into_lower free_inodes n c = record c { bg_free_inodes_count = u16 n }
into_lower used_dirs n c = record c { bg_used_dirs_count = u16 n }
into_lower itable_unused n c = record c { bg_itable_unused = u16 n }
into_lower checksum n c = record c { bg_checksum = n }

abbrev pub into_upper : Slot → ℕ → Cell → Cell
into_upper block_bitmap n c = record c { bg_block_bitmap = u32 (n >>> 32) }
into_upper inode_bitmap n c = record c { bg_inode_bitmap = u32 (n >>> 32) }
into_upper inode_table n c = record c { bg_inode_table = u32 (n >>> 32) }
into_upper free_blocks n c = record c { bg_free_blocks_count = u16 (n >>> 16) }
into_upper free_inodes n c = record c { bg_free_inodes_count = u16 (n >>> 16) }
into_upper used_dirs n c = record c { bg_used_dirs_count = u16 (n >>> 16) }
into_upper itable_unused n c = record c { bg_flags = u16 (n >>> 16) }
into_upper checksum n c = c

pub get-eq-view :
    (k : Slot) (fs : Filsys) (group : ℕ)
    → get k fs group
      ≡ view (has_incompat fs.super incompat_64bit) (lower fs group) (upper fs group) k
unfolding block_bitmap_loc inode_bitmap_loc inode_table_loc bg_free_blocks_count
    bg_free_inodes_count bg_used_dirs_count bg_itable_unused bg_checksum
get-eq-view block_bitmap fs group = refl
get-eq-view inode_bitmap fs group = refl
get-eq-view inode_table fs group = refl
get-eq-view free_blocks fs group = refl
get-eq-view free_inodes fs group = refl
get-eq-view used_dirs fs group = refl
get-eq-view itable_unused fs group = refl
get-eq-view checksum fs group = refl

pub put-eq-stored :
    (k : Slot) (fs : Filsys) (group n : ℕ)
    → put k fs group n ≡ stored (into_lower k n) (into_upper k n) fs group
unfolding block_bitmap_loc_set inode_bitmap_loc_set inode_table_loc_set bg_free_blocks_count_set
    bg_free_inodes_count_set bg_used_dirs_count_set bg_itable_unused_set bg_checksum_set
put-eq-stored block_bitmap fs group n = refl
put-eq-stored inode_bitmap fs group n = refl
put-eq-stored inode_table fs group n = refl
put-eq-stored free_blocks fs group n = refl
put-eq-stored free_inodes fs group n = refl
put-eq-stored used_dirs fs group n = refl
put-eq-stored itable_unused fs group n = refl
put-eq-stored checksum fs group n = ground (
  arith,
  poke_same (poke fs.group_desc (group_desc fs group) (into_lower checksum n))
      (upper_half fs group),
)

pub view_self :
    (k : Slot) (wide : Bool) (n : ℕ) (lo up : Cell)
    → view wide (into_lower k n lo) (into_upper k n up) k ≡ kept k wide n
view_self block_bitmap true n lo up = join 32 n ∙ omega arith
view_self block_bitmap false n lo up = bit_or-zero_right (u32 n)
view_self inode_bitmap true n lo up = join 32 n ∙ omega arith
view_self inode_bitmap false n lo up = bit_or-zero_right (u32 n)
view_self inode_table true n lo up = join 32 n ∙ omega arith
view_self inode_table false n lo up = bit_or-zero_right (u32 n)
view_self free_blocks true n lo up = join 16 n ∙ omega arith
view_self free_blocks false n lo up = bit_or-zero_right (u16 n)
view_self free_inodes true n lo up = join 16 n ∙ omega arith
view_self free_inodes false n lo up = bit_or-zero_right (u16 n)
view_self used_dirs true n lo up = join 16 n ∙ omega arith
view_self used_dirs false n lo up = bit_or-zero_right (u16 n)
view_self itable_unused true n lo up = join 16 n ∙ omega arith
view_self itable_unused false n lo up = bit_or-zero_right (u16 n)
view_self checksum wide n lo up = refl

pub view_other :
    (k j : Slot) (wide : Bool) (n : ℕ) (lo up : Cell)
    → k ≢ j
    → view wide (into_lower j n lo) (into_upper j n up) k ≡ view wide lo up k
view_other block_bitmap j wide n lo up h = ground arith
view_other inode_bitmap j wide n lo up h = ground arith
view_other inode_table j wide n lo up h = ground arith
view_other free_blocks j wide n lo up h = ground arith
view_other free_inodes j wide n lo up h = ground arith
view_other used_dirs j wide n lo up h = ground arith
view_other itable_unused j wide n lo up h = ground arith
view_other checksum j wide n lo up h = ground arith

-- Without the 64BIT feature a getter reads the lower half alone.
pub view-congr :
    (k : Slot) (wide : Bool) (lo lo' up up' : Cell)
    → lo ≡ lo'
    → (wide ≡ true → up ≡ up')
    → view wide lo up k ≡ view wide lo' up' k
view-congr block_bitmap true lo lo' up up' p q = cc (q refl)
view-congr block_bitmap false lo lo' up up' p q = cc
view-congr inode_bitmap true lo lo' up up' p q = cc (q refl)
view-congr inode_bitmap false lo lo' up up' p q = cc
view-congr inode_table true lo lo' up up' p q = cc (q refl)
view-congr inode_table false lo lo' up up' p q = cc
view-congr free_blocks true lo lo' up up' p q = cc (q refl)
view-congr free_blocks false lo lo' up up' p q = cc
view-congr free_inodes true lo lo' up up' p q = cc (q refl)
view-congr free_inodes false lo lo' up up' p q = cc
view-congr used_dirs true lo lo' up up' p q = cc (q refl)
view-congr used_dirs false lo lo' up up' p q = cc
view-congr itable_unused true lo lo' up up' p q = cc (q refl)
view-congr itable_unused false lo lo' up up' p q = cc
view-congr checksum wide lo lo' up up' p q = cc
