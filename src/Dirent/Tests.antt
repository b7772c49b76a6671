-- ===== src/Dirent/Tests.antt =====
-- Tests and witnesses for Dirent.
use libext2fs.Prelude.{◌≡◌, ◌==◌, arith, refl, if◌then◌else◌}
use libext2fs.Fs.{Filsys}
use libext2fs.Fs.Samples.{small}
use libext2fs.Dirent.{DirEntry, get_rec_len, set_rec_len}
use libext2fs.Dirent.RecLen.{get-set_rec_len}

abbrev entry : DirEntry
entry = record { inode = 12; rec_len = 16; name_len = 5 }

abbrev wide_blocks : Filsys
wide_blocks = record small { blocksize = 262144 }

get-set_rec_len_example :
    ((set_rec_len wide_blocks 200004 entry).0 ≡ 0)
    × (get_rec_len wide_blocks (set_rec_len wide_blocks 200004 entry).1
        ≡ (if ◌==◌ 200004 262140 then wide_blocks.blocksize else 200004))
get-set_rec_len_example =
    get-set_rec_len wide_blocks 200004 entry (omega arith) (omega arith) refl (omega arith)
