-- ===== src/Link/Proc.antt =====
-- source/link.c: `link_proc` keeps the entries of a block one behind the other.
use libext2fs.Prelude.{
  ℕ, ◌+◌, ◌-◌, ◌%◌, ◌^◌, ◌≤◌, ◌<◌, ◌≡◌, ◌≢◌, refl, u16, List, ◌∷◌, false, truth, ltb, ◌||◌, bit_and,
  arith, ap, ◌∙◌, ==_iff, ne→==, lt→ltb,
}
use libext2fs.Bits.Fields.{bit_and_low}
use libext2fs.Fs.{Filsys}
use libext2fs.Dirent.{DirEntry, get_rec_len, set_rec_len}
use libext2fs.Link.{Slot, Block, put, put_head}
use libext2fs.Link.Runs.{
  IsSound, Named, named, IsLaidOut, ended, unused, used, same_run, IsFront, lead_of, behind_unused,
  rest_of,
}

pub low_byte : (n : ℕ) → bit_and n 0xFF ≡ n % 256
low_byte n = bit_and_low 8 n

module _ (fs : Filsys) (small : fs.blocksize < 65536) where
  pub get_lem : (d : DirEntry) → get_rec_len fs d ≡ d.rec_len
  unfolding get_rec_len
  get_lem d = ground arith

  pub set_lem :
      (len : ℕ) (d : DirEntry)
      → len ≤ fs.blocksize
      → len % 4 ≡ 0
      → set_rec_len fs len d ≡ (0, record d { rec_len = len })
  unfolding set_rec_len
  set_lem len d h al = rw (low_two, guard, lt→ltb len 65536 (omega arith), whole) refl
    where
      low_two : bit_and len 3 ≡ len % 4
      low_two = bit_and_low 2 len

      guard : (ltb fs.blocksize len || (ltb (2 ^ 18) fs.blocksize || truth (len % 4))) ≡ false
      guard = ground (arith, al)

      whole : u16 len ≡ len
      whole = omega arith

-- A slot with another length.
abbrev pub resized : Slot → ℕ → Slot
resized s len = record { head = record s.head { rec_len = len }; name = s.name }

pub put_same : (b : Block) (at : ℕ) (s : Slot) → put b at s at ≡ s
put_same b at s = rw ((==_iff at at).1 refl) refl

pub put_other : (b : Block) (at o : ℕ) (s : Slot) → o ≢ at → put b at s o ≡ b o
put_other b at o s h = rw (ne→== o at h) refl

-- A run whose first entry gets another length, if what comes behind it is a run again.
resize_first :
    (b b' : Block) (z o len : ℕ) (l : List Named)
    → o < z
    → b' o ≡ resized (b o) len
    → IsSound (record (b o).head { rec_len = len })
    → ((l' : List Named) → IsLaidOut b z (o + (b o).head.rec_len) l' → IsLaidOut b' z (o + len) l')
    → IsLaidOut b z o l
    → IsLaidOut b' z o l
resize_first b b' z _ len _ h at v tail (ended o e) = absurd (omega (arith, e))
resize_first b b' z _ len _ h at v tail (unused o s l e w f r) =
    unused o (resized s len) l (at ∙ ap (λ (t : Slot). resized t len) e) (rw e at v) f
      (tail l (rw e r))
resize_first b b' z _ len _ h at v tail (used o s l e w f r) =
    used o (resized s len) l (at ∙ ap (λ (t : Slot). resized t len) e) (rw e at v) f
      (tail l (rw e r))

-- A run whose first entry, not in use, is filled.
pub fill_first :
    (b b' : Block) (z o : ℕ) (s' : Slot) (l : List Named)
    → o < z
    → (b o).head.inode ≡ 0
    → b' o ≡ s'
    → IsSound s'.head
    → s'.head.inode ≢ 0
    → s'.head.rec_len ≡ (b o).head.rec_len
    → ((k : ℕ) → o < k → b' k ≡ b k)
    → IsLaidOut b z o l
    → IsLaidOut b' z o (named s' ∷ l)
fill_first b b' z o s' l h free at v in_use same others r = used o s' l at v in_use (
    same_run b b' z (o + s'.head.rec_len) l (λ k lo hi. others k (omega (arith, v.long_enough)))
      (rw same (behind_unused b z o l h free r)))

module _ (b : Block) (z o : ℕ) (l : List Named) (h : o < z) (r : IsLaidOut b z o l) where
  abbrev len : ℕ
  len = (b o).head.rec_len

  abbrev next : DirEntry
  next = (b (o + len)).head

  pub lead : IsFront b z o
  lead = lead_of b z o l h r

  pub next_lead : o + len < z → IsFront b z (o + len)
  next_lead h' = let (l', r') = rest_of b z o l h r in lead_of b z (o + len) l' h' r'

  -- The first entry absorbs the one behind it, which is not in use.
  pub absorbed_run :
      o + len < z
      → next.inode ≡ 0
      → IsLaidOut (put_head b o (record (b o).head { rec_len = len + next.rec_len })) z o l
  absorbed_run h' free =
      resize_first b _ z o (len + next.rec_len) l h (put_same b o _)
        (record {
          long_enough = omega (arith, lead.entry.long_enough);
          aligned = omega (arith, lead.entry.aligned, (next_lead h').entry.aligned);
          holds_name = omega (arith, lead.entry.holds_name);
        })
        (λ l' r'.
          same_run b _ z (o + (len + next.rec_len)) l'
            (λ k lo hi. put_other b o k _ (λ e. absurd (omega (arith, lead.entry.long_enough, e))))
            (shifted l' (behind_unused b z (o + len) l' h' free r')))
        r
    where
      shifted :
          (l' : List Named)
          → IsLaidOut b z (o + len + next.rec_len) l'
          → IsLaidOut b z (o + (len + next.rec_len)) l'
      shifted l' r' =
          let e : o + (len + next.rec_len) ≡ o + len + next.rec_len = omega arith in rw e r'

  -- The first entry is cut to a length that leaves room for another, which is not in use.
  pub split_run :
      (min : ℕ) (nm : List ℕ)
      → 8 ≤ min
      → min % 4 ≡ 0
      → (b o).head.name_len % 256 + 8 ≤ min
      → min + 8 ≤ len
      → IsLaidOut
          (put
            (put_head b o (record (b o).head { rec_len = min }))
            (o + min)
            (record { head = record { inode = 0; rec_len = len - min; name_len = 0 }; name = nm }))
          z
          o
          l
  split_run min nm long al holds fits =
      resize_first b b' z o min l h
        (put_other cut (o + min) o tail (λ e. absurd (omega (arith, e)))
          ∙ put_same b o (resized (b o) min))
        (record { long_enough = long; aligned = al; holds_name = holds })
        (λ l' r'.
          unused (o + min) tail l' (put_same cut (o + min) tail)
            (record {
              long_enough = omega arith;
              aligned = omega (arith, lead.entry.aligned);
              holds_name = omega arith;
            })
            refl
            (same_run b b' z (o + min + (len - min)) l'
              (λ k lo hi.
                put_other cut (o + min) k tail (λ e. absurd (omega (arith, e)))
                ∙ put_other b o k (resized (b o) min) (λ e. absurd (omega (arith, e))))
              (shifted l' r')))
        r
    where
      tail : Slot
      tail = record { head = record { inode = 0; rec_len = len - min; name_len = 0 }; name = nm }

      cut : Block
      cut = put_head b o (record (b o).head { rec_len = min })

      b' : Block
      b' = put cut (o + min) tail

      shifted :
          (l' : List Named) → IsLaidOut b z (o + len) l' → IsLaidOut b z (o + min + (len - min)) l'
      shifted l' r' = let e : o + min + (len - min) ≡ o + len = omega arith in rw e r'
