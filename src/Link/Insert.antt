-- ===== src/Link/Insert.antt =====
-- source/link.c: a call of `link_proc` on one entry of a block.
use libext2fs.Prelude.{
  ℕ, ◌+◌, ◌≤◌, ◌<◌, ◌≡◌, ◌≢◌, ◌⊎◌, inl, inr, List, ◌∷◌, ◌++◌, take, true, arith, ◌∙◌, Bool-cases,
}
use libext2fs.Fs.{Filsys}
use libext2fs.Link.{Block, put_head, dir_rec_len, LinkStruct, absorbs, place_entry, link_proc}
use libext2fs.Link.Runs.{Named, IsLaidOut, same_run, join_runs}
use libext2fs.Link.Proc.{get_lem, set_lem, put_same, put_other, lead, next_lead, absorbed_run}
use libext2fs.Link.Place.{Placed, place_entry-Outcome}

module _ (fs : Filsys) (small : fs.blocksize < 65536) (ls : LinkStruct) (b : Block) (o : ℕ)
    (l : List Named) (h : o < fs.blocksize) (r : IsLaidOut b fs.blocksize o l)
    (short : ls.namelen < 256) (real : ls.inode ≢ 0) where
  abbrev ready : LinkStruct
  ready = record ls { err = 0 }

  abbrev Left : ℕ × LinkStruct × Block → Type 0
  Left (ret, ls', b') =
      Placed fs ready o o l ((ls.inode, take ls.namelen ls.name) ∷ l) ret ls' b'
      × ((k : ℕ) → k < o → b' k ≡ b k)

  abbrev len : ℕ
  len = (b o).head.rec_len

  abbrev grown : ℕ
  grown = len + (b (o + len)).head.rec_len

  abbrev absorbed : Block
  absorbed = put_head b o (record (b o).head { rec_len = grown })

  absorbed-Left :
      o + len < fs.blocksize
      → (b (o + len)).head.inode ≡ 0
      → Left (place_entry fs ready absorbed o grown 1)
  absorbed-Left h' free =
      let (placed, before) =
        rw
          (put_same b o
            (record { head = record (b o).head { rec_len = grown }; name = (b o).name }))
          at
          (place_entry-Outcome fs small ready absorbed o l h
            (absorbed_run b fs.blocksize o l h r h' free) 1 (omega arith) short real) in
      (placed, λ k lt. before k lt ∙ put_other b o k _ (λ e. absurd (omega (arith, e))))

  absorbs_when :
      absorbs fs b o len ≡ true
      → o + len + 8 < fs.blocksize
        × (b (o + len)).head.inode ≡ 0
        × o + len + (b (o + len)).head.rec_len ≤ fs.blocksize
  unfolding absorbs
  absorbs_when e = (ground (arith, e), ground (arith, e), ground (arith, e))

  link_proc-Left : Left (link_proc fs ls b o)
  unfolding link_proc
  link_proc-Left = elim (Bool-cases (absorbs fs b o len)) [
    | inl on ↦
        let (near, free, fits) = absorbs_when on in
        rw
          (
            get_lem fs small (b o).head,
            on,
            set_lem fs small grown (b o).head (omega arith) (
                omega (
                  arith,
                  (lead b fs.blocksize o l h r).entry.aligned,
                  (next_lead b fs.blocksize o l h r (omega arith)).entry.aligned,
                )),
          )
          (absorbed-Left (omega arith) free)
    | inr off ↦
        rw (get_lem fs small (b o).head, off)
          (place_entry-Outcome fs small ready b o l h r 0 (omega arith) short real)
  ]

-- A call of `link_proc` on an entry of a block of entries one behind the other, for a name of at most
-- 255 bytes, an inode other than 0 and a block of less than 65536 bytes, leaves a block of such
-- entries. If the call returns `DIRENT_ABORT | DIRENT_CHANGED`, it has counted one link and the names
-- in the block are those before with the new one at the place of the entry. Otherwise the result is 0
-- or `DIRENT_CHANGED`, the names are all as before, and the entry is in use or too short for the name.
-- In both cases there is no error.
pub link_proc_lem :
    (fs : Filsys) (ls : LinkStruct) (b : Block) (o : ℕ) (l1 l2 : List Named)
    → fs.blocksize < 65536
    → ls.namelen < 256
    → ls.inode ≢ 0
    → o < fs.blocksize
    → IsLaidOut b o 0 l1
    → IsLaidOut b fs.blocksize o l2
    → let (ret, ls', b') = link_proc fs ls b o in
      ret < 2
        × ls' ≡ record ls { err = 0 }
        × IsLaidOut b' fs.blocksize 0 (l1 ++ l2)
        × ((b' o).head.inode ≢ 0 ⊎ (b' o).head.rec_len < dir_rec_len ls.namelen)
      ⊎ ret ≡ 3
        × ls' ≡ record ls { err = 0; done = ls.done + 1 }
        × IsLaidOut b' fs.blocksize 0 (l1 ++ (ls.inode, take ls.namelen ls.name) ∷ l2)
link_proc_lem fs ls b o l1 l2 small short real h r1 r2 =
    let (ret, ls', b') = link_proc fs ls b o in
    let (placed, before) = link_proc-Left fs small ls b o l2 h r2 short real in
    let whole = λ (l : List Named) (r : IsLaidOut b' fs.blocksize o l).
      join_runs b' o fs.blocksize 0 l1 l (same_run b b' o 0 l1 (λ k _ lt. before k lt) r1) r in
    elim placed [
      | inl (low, same, r, why) ↦ inl (low, same, whole l2 r, why)
      | inr (three, more, r) ↦ inr (three, more, whole ((ls.inode, take ls.namelen ls.name) ∷ l2) r)
    ]
