-- ===== src/Link/Validate.antt =====
-- source/dir_iterate.c: `ext2fs_validate_entry`, which tells whether deleted entries lie one behind the
-- other up to the next entry in use. The loop has fuel: each round goes on by at least 8 bytes.
use libext2fs.Prelude.{
  ℕ, zero, suc, ◌+◌, ◌-◌, ◌%◌, ◌≤◌, ◌<◌, ◌≡◌, inl, inr, List, [], Bool, true, false, not, ltb, leb,
  ◌==◌, ◌&&◌, ◌||◌, if◌then◌else◌, bit_and, u32, sub32, arith, Bool-cases, refl, ◌↔◌, ltb→lt,
  lt→ltb, ◌∷◌, ◌∙◌,
}
use libext2fs.Fs.{Filsys}
use libext2fs.Dirent.{DirEntry, get_rec_len}
use libext2fs.Link.{Slot, Block}
use libext2fs.Link.Runs.{IsSound, Named, named, IsLaidOut, ended, unused, used, run_le}
use libext2fs.Link.Proc.{low_byte, get_lem}

-- DIRENT_MIN_LENGTH
abbrev dirent_min_length : ℕ
dirent_min_length = 12

-- What the loop refuses in an entry.
unfoldable pub refused : DirEntry → ℕ → Bool
refused dirent rec_len =
    ltb rec_len 8 || (not (rec_len % 4 == 0) || ltb rec_len (bit_and dirent.name_len 0xFF + 8))

unfoldable pub validate_loop : ℕ → Filsys → Block → ℕ → ℕ → Bool
validate_loop zero fs buf offset final_offset = offset == final_offset
validate_loop (suc fuel) fs buf offset final_offset =
    let dirent = (buf offset).head in
    let rec_len = get_rec_len fs dirent in
    let rest = validate_loop fuel fs buf (u32 (offset + rec_len)) final_offset in
    if ltb offset final_offset && leb offset (sub32 fs.blocksize dirent_min_length)
    then (if refused dirent rec_len then false else rest)
    else offset == final_offset

unfoldable pub validate_entry : Filsys → Block → ℕ → ℕ → Bool
validate_entry fs buf offset final_offset =
    validate_loop (final_offset - offset) fs buf offset final_offset

refused_iff : (d : DirEntry) → (refused d d.rec_len ≡ false) ↔ IsSound d
unfolding refused
refused_iff d = (
  λ e. record {
    long_enough = ground (arith, e);
    aligned = ground (arith, e);
    holds_name = ground (arith, e, low_byte d.name_len);
  },
  λ v. ground (arith, v.long_enough, v.aligned, v.holds_name, low_byte d.name_len),
)

module _ (fs : Filsys) (b : Block) (z : ℕ) (small : fs.blocksize < 65536)
    (inside : z + 11 ≤ fs.blocksize) where
  round :
      (fuel o : ℕ)
      → o < z
      → (b o).head.rec_len < 65536
      → validate_loop (suc fuel) fs b o z ≡ (
          if refused (b o).head (b o).head.rec_len
          then false
          else validate_loop fuel fs b (o + (b o).head.rec_len) z)
  unfolding validate_loop
  round fuel o h fits = rw (get_lem fs small (b o).head, lt→ltb o z h, near, whole) refl
    where
      near : leb o (sub32 fs.blocksize dirent_min_length) ≡ true
      near = ground arith

      whole : u32 (o + (b o).head.rec_len) ≡ o + (b o).head.rec_len
      whole = omega arith

  round_sound :
      (fuel o : ℕ)
      → o < z
      → IsSound (b o).head
      → o + (b o).head.rec_len ≤ z
      → validate_loop (suc fuel) fs b o z ≡ validate_loop fuel fs b (o + (b o).head.rec_len) z
  round_sound fuel o h v end = rw (round fuel o h (omega arith), (refused_iff (b o).head).1 v) refl

  -- The run from an entry on, if there is one behind it.
  put_first :
      (o : ℕ)
      → IsSound (b o).head
      → (l : List Named) × IsLaidOut b z (o + (b o).head.rec_len) l
      → (l : List Named) × IsLaidOut b z o l
  put_first o v (l, r) = elim (Bool-cases ((b o).head.inode == 0)) [
    | inl free ↦ (l, unused o (b o) l refl v (ground (arith, free)) r)
    | inr real ↦ (named (b o) ∷ l, used o (b o) l refl v (ground (arith, real)) r)
  ]

  loop_run :
      (fuel o : ℕ)
      → ((k : ℕ) → (b k).head.rec_len < 65536)
      → validate_loop fuel fs b o z ≡ true
      → (l : List Named) × IsLaidOut b z o l
  unfolding validate_loop
  loop_run zero o fits e = ([], ended o (ground (arith, e)))
  loop_run (suc fuel) o fits e = elim (Bool-cases (ltb o z)) [
    | inl on ↦
        let step = rw (round fuel o (ltb→lt o z on) (fits o)) at e in
        elim (Bool-cases (refused (b o).head (b o).head.rec_len)) [
          | inl bad ↦ absurd (ground (arith, bad, step))
          | inr good ↦
              put_first o ((refused_iff (b o).head).0 good)
                (loop_run fuel (o + (b o).head.rec_len) fits (rw good at step))
        ]
    | inr off ↦ ([], ended o (ground (arith, e, off)))
  ]

  on_run :
      (fuel o : ℕ) (s : Slot)
      → b o ≡ s
      → IsSound s.head
      → o + s.head.rec_len ≤ z
      → validate_loop fuel fs b (o + s.head.rec_len) z ≡ true
      → validate_loop (suc fuel) fs b o z ≡ true
  on_run fuel o s e v end rest =
      round_sound fuel o (omega (arith, v.long_enough)) (rw e v) (rw e end) ∙ rw e rest

  run_loop :
      (fuel o : ℕ) (l : List Named)
      → z - o ≤ fuel
      → IsLaidOut b z o l
      → validate_loop fuel fs b o z ≡ true
  unfolding validate_loop
  run_loop zero o l h r = ground (arith, run_le b z o l r)
  run_loop (suc fuel) _ _ h (ended o e) = ground (arith, e)
  run_loop (suc fuel) _ _ h (unused o s l e v f r) =
      on_run fuel o s e v (run_le b z (o + s.head.rec_len) l r)
        (run_loop fuel (o + s.head.rec_len) l (omega (arith, v.long_enough)) r)
  run_loop (suc fuel) _ _ h (used o s l e v f r) =
      on_run fuel o s e v (run_le b z (o + s.head.rec_len) l r)
        (run_loop fuel (o + s.head.rec_len) l (omega (arith, v.long_enough)) r)

-- In a block of less than 65536 bytes, of entries whose length is a 16-bit number, and up to an offset
-- that is at least 11 bytes before the end of the block, `ext2fs_validate_entry` returns 1 exactly where
-- entries of at least 8 bytes, a multiple of 4, that hold their names lie one behind the other from the
-- first offset to the last.
pub validate_entry_iff :
    (fs : Filsys) (b : Block) (offset final_offset : ℕ)
    → fs.blocksize < 65536
    → final_offset + 11 ≤ fs.blocksize
    → ((k : ℕ) → (b k).head.rec_len < 65536)
    → (validate_entry fs b offset final_offset ≡ true)
      ↔ ((l : List Named) × IsLaidOut b final_offset offset l)
unfolding validate_entry
validate_entry_iff fs b o z small inside fits = (
  loop_run fs b z small inside (z - o) o fits,
  λ (l, r). run_loop fs b z small inside (z - o) o l (omega arith) r,
)
