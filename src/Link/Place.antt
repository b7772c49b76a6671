-- ===== src/Link/Place.antt =====
-- source/link.c: what a call of `link_proc` leaves in a block.
use libext2fs.Prelude.{
  ℕ, zero, suc, ◌+◌, ◌-◌, ◌%◌, ◌<<<◌, ◌≤◌, ◌<◌, ◌≡◌, ◌≢◌, ◌⊎◌, inl, inr, refl, List, [], ◌∷◌, take,
  true, false, ltb, ◌==◌, if◌then◌else◌, bit_and, bit_or, arith, ap, ◌∙◌, Bool-cases,
}
use libext2fs.Bits.Fields.{bit_or_fields}
use libext2fs.Fs.{Filsys, has_incompat, filetype}
use libext2fs.Link.{
  Slot, Block, put, put_head, dir_rec_len, changed, LinkStruct, split_entry, fill_entry,
  place_entry,
}
use libext2fs.Link.Runs.{IsSound, Named, named, IsLaidOut}
use libext2fs.Link.Proc.{
  low_byte, set_lem, put_same, put_other, resized, fill_first, lead, split_run,
}

-- What a call leaves, from the offset `s` on: the names as before, or those with the new one.
abbrev pub Placed :
    Filsys → LinkStruct → ℕ → ℕ → List Named → List Named → ℕ → LinkStruct → Block → Type 0
Placed fs ls o s l l' ret ls' b' =
    ret < 2
      × ls' ≡ ls
      × IsLaidOut b' fs.blocksize s l
      × ((b' o).head.inode ≢ 0 ⊎ (b' o).head.rec_len < dir_rec_len ls.namelen)
    ⊎ ret ≡ 3 × ls' ≡ record ls { done = ls.done + 1 } × IsLaidOut b' fs.blocksize s l'

module _ (fs : Filsys) (small : fs.blocksize < 65536) (ls : LinkStruct) (b : Block) (o : ℕ) where
  abbrev size : ℕ
  size = (b o).head.rec_len

  abbrev min : ℕ
  min = dir_rec_len ((b o).head.name_len % 256)

  abbrev cut : Block
  cut = put_head b o (record (b o).head { rec_len = min })

  split_entry_lem :
      (ret : ℕ)
      → o + size ≤ fs.blocksize
      → size % 4 ≡ 0
      → min + dir_rec_len ls.namelen ≤ size
      → split_entry fs ls b o size ret ≡ (
        changed,
        ls,
        put cut (o + min) (record {
          head = record { inode = 0; rec_len = size - min; name_len = 0 };
          name = (cut (o + min)).name;
        }),
      )
  unfolding split_entry
  split_entry_lem ret h al fits =
      rw
        (
          low_byte (b o).head.name_len,
          room,
          set_lem fs small min (b o).head (omega arith) (omega arith),
          set_lem fs small (size - min) (record (cut (o + min)).head { inode = 0; name_len = 0 })
              (omega arith) (omega (arith, al)),
        )
        refl
    where
      room : ltb size (min + dir_rec_len ls.namelen) ≡ false
      room = ground arith

  abbrev written : ℕ
  written =
      if has_incompat fs.super filetype
      then bit_or ls.namelen (bit_and ls.flags 0x7 <<< 8)
      else ls.namelen

  abbrev filled : Slot
  filled = record {
    head = record (b o).head { inode = ls.inode; name_len = written };
    name = take ls.namelen ls.name;
  }

  written_low : ls.namelen < 256 → written % 256 ≡ ls.namelen
  written_low h = elim (Bool-cases (has_incompat fs.super filetype)) [
    | inl e ↦ rw (e, bit_or_fields 8 ls.namelen (bit_and ls.flags 0x7) h) (omega (arith, h))
    | inr e ↦ rw e (omega (arith, h))
  ]

  take_twice : (n : ℕ) (xs : List ℕ) → take n (take n xs) ≡ take n xs
  take_twice zero xs = refl
  take_twice (suc n) [] = refl
  take_twice (suc n) (x ∷ xs) = ap (λ (ys : List ℕ). x ∷ ys) (take_twice n xs)

  filled_name : ls.namelen < 256 → named filled ≡ (ls.inode, take ls.namelen ls.name)
  filled_name h =
      rw (written_low h) (ap (λ (xs : List ℕ). (ls.inode, xs)) (take_twice ls.namelen ls.name))

  fill_entry_lem :
      (ret : ℕ)
      → dir_rec_len ls.namelen ≤ size
      → fill_entry fs ls b o size ret ≡ (3, record ls { done = ls.done + 1 }, put b o filled)
  unfolding fill_entry
  fill_entry_lem ret fits = rw room refl
    where
      room : ltb size (dir_rec_len ls.namelen) ≡ false
      room = ground arith

  split_full :
      (ret : ℕ)
      → ltb size (min + dir_rec_len ls.namelen) ≡ true
      → split_entry fs ls b o size ret ≡ (ret, ls, b)
  unfolding split_entry
  split_full ret full = rw (low_byte (b o).head.name_len, full) refl

  fill_full :
      (ret : ℕ)
      → ltb size (dir_rec_len ls.namelen) ≡ true
      → fill_entry fs ls b o size ret ≡ (ret, ls, b)
  unfolding fill_entry
  fill_full ret full = rw full refl

module _ (fs : Filsys) (small : fs.blocksize < 65536) (ls : LinkStruct) (b : Block) (o : ℕ)
    (l : List Named) (h : o < fs.blocksize) (r : IsLaidOut b fs.blocksize o l) (ret : ℕ)
    (ret_ok : ret < 2) where
  abbrev pub names : List Named
  names = (ls.inode, take ls.namelen ls.name) ∷ l

  abbrev pub Outcome : ℕ × LinkStruct × Block → Type 0
  Outcome (ret', ls', b') = Placed fs ls o o l names ret' ls' b' × ((k : ℕ) → k < o → b' k ≡ b k)

  split_entry-Outcome :
      (b o).head.inode ≢ 0 → Outcome (split_entry fs ls b o (b o).head.rec_len ret)
  split_entry-Outcome in_use =
      elim (Bool-cases (ltb (b o).head.rec_len (min fs small ls b o + dir_rec_len ls.namelen))) [
        | inl full ↦
            rw (split_full fs small ls b o ret full)
              (inl (ret_ok, refl, r, inl in_use), λ k _. refl)
        | inr room ↦ rw (split_entry_lem fs small ls b o ret fits aligned (ground (arith, room))) (
          inl (
            omega arith,
            refl,
            split_run b fs.blocksize o l h r (min fs small ls b o) _ (omega arith) (omega arith)
                (omega arith) (ground (arith, room)),
            inl (still (min fs small ls b o) _ (omega arith)),
          ),
          before (min fs small ls b o) _,
        )
      ]
    where
      len : ℕ
      len = (b o).head.rec_len

      fits : o + len ≤ fs.blocksize
      fits = (lead b fs.blocksize o l h r).inside

      aligned : len % 4 ≡ 0
      aligned = (lead b fs.blocksize o l h r).entry.aligned

      still : (m : ℕ) (s : Slot) → 0 < m → (put (cut fs small ls b o) (o + m) s o).head.inode ≢ 0
      still m s pos =
          rw
            (
              put_other (cut fs small ls b o) (o + m) o s (λ e. absurd (omega (arith, e))),
              put_same b o (resized (b o) (min fs small ls b o)),
            )
            in_use

      before : (m : ℕ) (s : Slot) (k : ℕ) → k < o → put (cut fs small ls b o) (o + m) s k ≡ b k
      before m s k lt =
          put_other (cut fs small ls b o) (o + m) k s (λ e. absurd (omega (arith, e)))
          ∙ put_other b o k _ (λ e. absurd (omega (arith, e)))

  fill_entry-Outcome :
      ls.namelen < 256
      → ls.inode ≢ 0
      → (b o).head.inode ≡ 0
      → Outcome (fill_entry fs ls b o (b o).head.rec_len ret)
  fill_entry-Outcome short real free =
      elim (Bool-cases (ltb (b o).head.rec_len (dir_rec_len ls.namelen))) [
        | inl full ↦
            rw (fill_full fs small ls b o ret full)
              (inl (ret_ok, refl, r, inr (ground (arith, full))), λ k _. refl)
        | inr room ↦ rw (fill_entry_lem fs small ls b o ret (ground (arith, room))) (
          inr (refl, refl, run (ground (arith, room))),
          λ k lt. put_other b o k _ (λ e. absurd (omega (arith, e))),
        )
      ]
    where
      v : IsSound (b o).head
      v = (lead b fs.blocksize o l h r).entry

      run :
          dir_rec_len ls.namelen ≤ (b o).head.rec_len
          → IsLaidOut (put b o (filled fs small ls b o)) fs.blocksize o names
      run fits = rw (filled_name fs small ls b o short) at (
          fill_first b (put b o (filled fs small ls b o)) fs.blocksize o (filled fs small ls b o) l
            h free (put_same b o (filled fs small ls b o))
            (record {
              long_enough = v.long_enough;
              aligned = v.aligned;
              holds_name = rw (written_low fs small ls b o short) (omega arith);
            })
            real refl (λ k lt. put_other b o k _ (λ e. absurd (omega (arith, e)))) r)

  pub place_entry-Outcome :
      ls.namelen < 256 → ls.inode ≢ 0 → Outcome (place_entry fs ls b o (b o).head.rec_len ret)
  unfolding place_entry
  place_entry-Outcome short real = elim (Bool-cases ((b o).head.inode == 0)) [
    | inl free ↦ rw free (fill_entry-Outcome short real (ground (arith, free)))
    | inr other ↦ rw other (split_entry-Outcome (ground (arith, other)))
  ]
