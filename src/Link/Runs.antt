-- ===== src/Link/Runs.antt =====
-- source/link.c: the entries of a directory block, one behind the other, and the names in them.
use libext2fs.Prelude.{ℕ, ◌+◌, ◌%◌, ◌≤◌, ◌<◌, ◌≡◌, ◌≢◌, List, [], ◌∷◌, ◌++◌, take, arith, ◌∙◌}
use libext2fs.Dirent.{DirEntry}
use libext2fs.Link.{Slot, Block}

-- What `ext2fs_process_dir_block` asks of an entry, except that it ends in the block.
pub record IsSound (d : DirEntry) : Type 0 where
  pub long_enough : 8 ≤ d.rec_len
  pub aligned : d.rec_len % 4 ≡ 0
  pub holds_name : d.name_len % 256 + 8 ≤ d.rec_len

-- An inode with the name that it has in the directory.
abbrev pub Named : Type 0
Named = ℕ × List ℕ

abbrev pub named : Slot → Named
named s = (s.head.inode, take (s.head.name_len % 256) s.name)

-- From an offset up to `z` the entries lie one behind the other; those in use have the listed names.
pub data IsLaidOut (b : Block) (z : ℕ) : ℕ → List Named → Type 0 where
  ended : (o : ℕ) → o ≡ z → IsLaidOut b z o []
  unused :
      (o : ℕ) (s : Slot) (l : List Named)
      → b o ≡ s
      → IsSound s.head
      → s.head.inode ≡ 0
      → IsLaidOut b z (o + s.head.rec_len) l
      → IsLaidOut b z o l
  used :
      (o : ℕ) (s : Slot) (l : List Named)
      → b o ≡ s
      → IsSound s.head
      → s.head.inode ≢ 0
      → IsLaidOut b z (o + s.head.rec_len) l
      → IsLaidOut b z o (named s ∷ l)

pub run_le : (b : Block) (z o : ℕ) (l : List Named) → IsLaidOut b z o l → o ≤ z
run_le b z _ _ (ended o e) = omega (arith, e)
run_le b z _ _ (unused o s l e v f r) = omega (arith, run_le b z (o + s.head.rec_len) l r)
run_le b z _ _ (used o s l e v f r) = omega (arith, run_le b z (o + s.head.rec_len) l r)

-- A run in memory that agrees with that of another.
pub same_run :
    (b b' : Block) (z o : ℕ) (l : List Named)
    → ((k : ℕ) → o ≤ k → k < z → b' k ≡ b k)
    → IsLaidOut b z o l
    → IsLaidOut b' z o l
same_run b b' z _ _ h (ended o e) = ended o e
same_run b b' z _ _ h (unused o s l e v f r) =
    unused o s l (h o (omega arith) (in_run s l v r) ∙ e) v f
      (same_run b b' z (o + s.head.rec_len) l (λ k lo hi. h k (omega arith) hi) r)
  where
    in_run :
        (s : Slot) (l : List Named) → IsSound s.head → IsLaidOut b z (o + s.head.rec_len) l → o < z
    in_run s l v r = omega (arith, v.long_enough, run_le b z (o + s.head.rec_len) l r)
same_run b b' z _ _ h (used o s l e v f r) =
    used o s l (h o (omega arith) (in_run s l v r) ∙ e) v f
      (same_run b b' z (o + s.head.rec_len) l (λ k lo hi. h k (omega arith) hi) r)
  where
    in_run :
        (s : Slot) (l : List Named) → IsSound s.head → IsLaidOut b z (o + s.head.rec_len) l → o < z
    in_run s l v r = omega (arith, v.long_enough, run_le b z (o + s.head.rec_len) l r)

-- Two runs, one behind the other.
pub join_runs :
    (b : Block) (m z o : ℕ) (l l' : List Named)
    → IsLaidOut b m o l
    → IsLaidOut b z m l'
    → IsLaidOut b z o (l ++ l')
join_runs b m z _ _ l' (ended o e) r' = rw e r'
join_runs b m z _ _ l' (unused o s l e v f r) r' =
    unused o s (l ++ l') e v f (join_runs b m z (o + s.head.rec_len) l l' r r')
join_runs b m z _ _ l' (used o s l e v f r) r' =
    used o s (l ++ l') e v f (join_runs b m z (o + s.head.rec_len) l l' r r')

-- The entry at the start of a run.
pub record IsFront (b : Block) (z o : ℕ) : Type 0 where
  pub entry : IsSound (b o).head
  pub inside : o + (b o).head.rec_len ≤ z

pub lead_of : (b : Block) (z o : ℕ) (l : List Named) → o < z → IsLaidOut b z o l → IsFront b z o
lead_of b z _ _ h (ended o e) = absurd (omega (arith, e))
lead_of b z _ _ h (unused o s l e v f r) = record {
  entry = rw e v;
  inside = rw e (run_le b z (o + s.head.rec_len) l r);
}
lead_of b z _ _ h (used o s l e v f r) = record {
  entry = rw e v;
  inside = rw e (run_le b z (o + s.head.rec_len) l r);
}

-- The run behind an entry that is not in use.
pub behind_unused :
    (b : Block) (z o : ℕ) (l : List Named)
    → o < z
    → (b o).head.inode ≡ 0
    → IsLaidOut b z o l
    → IsLaidOut b z (o + (b o).head.rec_len) l
behind_unused b z _ _ h free (ended o e) = absurd (omega (arith, e))
behind_unused b z _ _ h free (unused o s l e v f r) = rw e r
behind_unused b z _ _ h free (used o s l e v f r) = absurd (f (rw e at free))

-- What is behind the first entry of a run.
pub rest_of :
    (b : Block) (z o : ℕ) (l : List Named)
    → o < z
    → IsLaidOut b z o l
    → (l' : List Named) × IsLaidOut b z (o + (b o).head.rec_len) l'
rest_of b z _ _ h (ended o e) = absurd (omega (arith, e))
rest_of b z _ _ h (unused o s l e v f r) = (l, rw e r)
rest_of b z _ _ h (used o s l e v f r) = (l, rw e r)
