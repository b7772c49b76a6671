-- ===== src/Link/Tests.antt =====
-- Tests and witnesses for Link.
use libext2fs.Prelude.{
  ℕ, inl, inr, ◌+◌, ◌<◌, ◌≡◌, ◌≢◌, ◌⊎◌, arith, refl, List, [], ◌∷◌, ◌++◌, take, true, false, ◌↔◌,
  Bool-cases, none, some, ◌==◌, if◌then◌else◌,
}
use libext2fs.Fs.Samples.{small}
use libext2fs.Dirent.{get_rec_len, set_rec_len}
use libext2fs.Link.{
  absorbs, place_entry, fill_entry, Slot, Block, LinkStruct, dir_rec_len, link_proc,
}
use libext2fs.Link.Runs.{Named, named, IsLaidOut, ended, unused, used}
use libext2fs.Link.Insert.{link_proc_lem}
use libext2fs.Link.Unlink.{UnlinkStruct, strncmp_equal, wanted, taken_out, unlink_proc}
use libext2fs.Link.Validate.{validate_entry, validate_entry_iff}
use libext2fs.Link.Remove.{behind, over, byte, string, unlink_proc_lem}

abbrev dot : Slot
dot = record { head = record { inode = 2; rec_len = 12; name_len = 1 }; name = 46 ∷ [] }

abbrev gap : Slot
gap = record { head = record { inode = 0; rec_len = 1012; name_len = 0 }; name = [] }

abbrev dir : Block
dir o = if o == 0 then dot else gap

abbrev request : LinkStruct
request = record { name = 102 ∷ 105 ∷ []; namelen = 2; inode = 14; flags = 1; done = 0; err = 0 }

dot_run : IsLaidOut dir 12 0 (named dot ∷ [])
dot_run =
    used 0 dot [] refl
      (record { long_enough = omega arith; aligned = refl; holds_name = omega arith }) (omega arith)
      (ended 12 refl)

gap_run : IsLaidOut dir 1024 12 []
gap_run =
    unused 12 gap [] refl
      (record { long_enough = omega arith; aligned = refl; holds_name = omega arith }) refl
      (ended 1024 refl)

-- The new entry takes the place of the unused one.
link_file :
    let (ret, ls', b') = link_proc small request dir 12 in
    ret ≡ 3 × ls'.done ≡ 1 × (b' 12).name ≡ 102 ∷ 105 ∷ []
unfolding link_proc absorbs place_entry fill_entry get_rec_len set_rec_len
link_file = (refl, refl, refl)

link_proc_lem_example :
    let (ret, ls', b') = link_proc small request dir 12 in
    ret < 2
      × ls' ≡ record request { err = 0 }
      × IsLaidOut b' small.blocksize 0 ((named dot ∷ []) ++ [])
      × ((b' 12).head.inode ≢ 0 ⊎ (b' 12).head.rec_len < dir_rec_len request.namelen)
    ⊎ ret ≡ 3
      × ls' ≡ record request { err = 0; done = request.done + 1 }
      × IsLaidOut b' small.blocksize 0
          ((named dot ∷ []) ++ (request.inode, take request.namelen request.name) ∷ [])
link_proc_lem_example =
    link_proc_lem small request dir 12 (named dot ∷ []) [] (omega arith) (omega arith) (omega arith)
      (omega arith) dot_run gap_run

abbrev file : Slot
file = record {
  head = record { inode = 14; rec_len = 1012; name_len = 258 };
  name = 102 ∷ 105 ∷ [];
}

abbrev full_dir : Block
full_dir o = if o == 0 then dot else file

abbrev removal : UnlinkStruct
removal = record { name = some (102 ∷ 105 ∷ []); namelen = 2; inode = 0; prev = some 0; done = 0 }

-- The entry before the one that is removed has its length too.
unlink_file :
    let (ret, ls', b') = unlink_proc removal full_dir 12 in
    ret ≡ 3 × ls'.done ≡ 1 × (b' 0).head.rec_len ≡ 1024
unfolding unlink_proc wanted taken_out strncmp_equal
unlink_file = (refl, refl, refl)

unlink_proc_lem_example :
    let (ret, ls', b') = unlink_proc removal full_dir 12 in
    ret ≡ 0
      × wanted removal (full_dir 12) ≡ false
      × ls' ≡ record removal { prev = some 12 }
      × b' ≡ full_dir
    ⊎ ret ≡ 3
      × ls' ≡ record removal { prev = some 12; done = removal.done + 1 }
      × (full_dir 12).head.inode ≢ 0
      × (removal.inode ≡ 0 ⊎ removal.inode ≡ (full_dir 12).head.inode)
      × (removal.name ≡ none ⊎ removal.name ≡ some (named (full_dir 12)).1)
      × ((l' : List Named) × (named file ∷ []) ≡ named (full_dir 12) ∷ l'
          × IsLaidOut b' 1024 0 ((named dot ∷ []) ++ l'))
unlink_proc_lem_example =
    unlink_proc_lem removal full_dir 1024 12 (named dot ∷ []) (named file ∷ []) (omega arith)
      (omega arith)
      (string (102 ∷ 105 ∷ []) (byte 102 (105 ∷ []) (omega arith) (byte 105 [] (omega arith) over)))
      (behind 0 12 [] (named dot ∷ []) (ended 0 refl)
        (used 0 dot [] refl
          (record { long_enough = omega arith; aligned = refl; holds_name = omega arith })
          (omega arith) (ended 12 refl))
        (omega arith) refl)
      (used 12 file [] refl
        (record { long_enough = omega arith; aligned = refl; holds_name = omega arith })
        (omega arith) (ended 1024 refl))

short_entries : (k : ℕ) → (dir k).head.rec_len < 65536
short_entries k = elim (Bool-cases (k == 0)) [
  | inl first ↦ rw first (omega arith)
  | inr other ↦ rw other (omega arith)
]

validate_entry_iff_example :
    (validate_entry small dir 0 12 ≡ true) ↔ ((l : List Named) × IsLaidOut dir 12 0 l)
validate_entry_iff_example =
    validate_entry_iff small dir 0 12 (omega arith) (omega arith) short_entries
