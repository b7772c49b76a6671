-- ===== src/Lib.antt =====
-- Verification of libext2fs, the library that reads and writes ext2, ext3 and ext4 file systems.
--
-- Parts, and the files that model them (paths in the repository, functions without `ext2fs_`):
--   Fs            source/ext2_fs.h, source/ext2fs.h: the superblock, a 32-byte cell of the group
--                 descriptor table and the open file system, with the fields that the code below uses
--   BlockCount    source/blknum.c: block counts kept as two words; blocks and groups
--   GroupDesc     source/blknum.c: accessors of the group descriptors, over the memory of the table
--   InodeBlocks   source/i_block.c, source/blknum.c: an inode's block count and its attribute block
--   Badblocks     source/badblocks.c: the ascending list of bad blocks
--   Crc16         source/crc16.c: the table-driven checksum of group descriptors
--   Bitops        source/bitops.c, source/bitops_functions.c: one bit of an array
--   Bitmap        source/gen_bitmap.c: sets of blocks or inodes between two limits; Bitmap/Ranges has
--                 the operations on ranges
--   Icount        source/icount.c: the number of links of each inode, in two bitmaps and a list
--   Swap          source/swapfs.c, source/bitops_functions.c: numbers and group descriptors in the
--                 other byte order
--   Csum          source/csum.c: the checksum of a group descriptor
--   Alloc         source/alloc.c: the search for free blocks, runs of blocks and inodes
--   Dblist        source/dblist.c: the list of the blocks of all directories
--   Backups       source/closefs.c, source/sparse.c: groups with a copy of the superblock, and the
--                 blocks that the superblock and descriptors of a group take
--   Dirent        source/dir_iterate.c: the length of a directory entry
--   Link          source/link.c, source/unlink.c, source/dir_iterate.c: an entry of a directory block is
--                 put in or taken out, and deleted entries are checked
--   Dirhash       source/dirhash.c: the hash of a file name
--   Bits          laws of the native bit operations that the proofs above need
--   Prelude       shared names: tests, C arrays as lists, casts and shifts
-- How they meet: BlockCount and GroupDesc read and write the structures of Fs; Bitmap stores its
-- numbers by Bitops; Icount keeps two Bitmaps and sizes its list by the
-- directories that Dblist counts in GroupDesc; Csum puts the checksum of Crc16, over the bytes that
-- Swap gives, into GroupDesc's `bg_checksum`; Backups takes the first block of a group from
-- BlockCount; Alloc searches a Bitmap, and takes the metadata of a group from Backups and GroupDesc
-- and its checksum from Csum; Link reads and writes the lengths of Dirent; InodeBlocks
-- scales its counts by the sizes in Fs.
--
-- Conventions. A C integer of w bits is a number below 2 ^ w; every cast and every sum that can wrap
-- has its `% 2 ^ w` written out, and a difference adds the modulus first. Signed `int` counters are
-- numbers, as signed overflow is undefined. A function that changes a structure through a pointer
-- returns the new structure; `errcode_t` results are numbers, 0 for success. The outcome of each
-- allocation is an argument. A loop is a recursion on the rounds that are left. These loops have fuel:
-- the binary searches of Badblocks and Icount as much as there are entries, the chunks of zero bytes in
-- Bitmap/Ranges and the parts of a name in Dirhash as many as there are bytes, and the divisions of
-- `test_root` in Backups as much as the number; the check of deleted entries in Link has as much as
-- there are bytes. The searches of Alloc have a round for each block or
-- inode, except that for a run of blocks, whose fuel is an argument as the loop need not end. The
-- theorems show that this is enough.
--
-- Not modelled: device access (source/gekko_io.c, source/io_manager.c and the like), printing, the
-- vendored source/tdb.c (and the counts of Icount that it keeps), and the parts of the library that
-- the manifest lists as open.
pub mod Prelude
pub mod Bits
pub mod Bitops
pub mod Bitmap
pub mod Dirent
pub mod Icount
pub mod Swap
pub mod Link
pub mod Dblist
pub mod Alloc
pub mod Csum
pub mod Dirhash
pub mod Backups
pub mod Fs
pub mod BlockCount
pub mod GroupDesc
pub mod Errors
pub mod Badblocks
pub mod Crc16
pub mod InodeBlocks
