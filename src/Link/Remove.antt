-- ===== src/Link/Remove.antt =====
-- source/unlink.c: `unlink_proc` takes one name out of a block.
use libext2fs.Prelude.{
  ℕ, ◌+◌, ◌%◌, ◌<◌, ◌≡◌, ◌≢◌, ◌⊎◌, inl, inr, refl, List, [], ◌∷◌, ◌++◌, Bool, true, false, not,
  ◌==◌, ◌&&◌, if◌then◌else◌, length, take, Option, none, some, bit_and, u16, arith, sym, ap, ◌∙◌,
  Bool-cases, ne→==,
}
use mathlib.Core.List.{append_assoc}
use libext2fs.Link.{Slot, Block, put_head}
use libext2fs.Link.Runs.{
  IsSound, Named, named, IsLaidOut, ended, unused, used, run_le, same_run, join_runs, lead_of,
}
use libext2fs.Link.Proc.{low_byte, put_same, put_other, resized}
use libext2fs.Link.Unlink.{UnlinkStruct, strncmp_equal, wanted, taken_out, unlink_proc}

-- The entries of a block before an offset, when the one just before it is the previous one.
pub data IsReached (b : Block) : Option ℕ → ℕ → List Named → Type 0 where
  at_start : (prev : Option ℕ) → IsReached b prev 0 []
  behind :
      (p o : ℕ) (l0 l1 : List Named)
      → IsLaidOut b p 0 l0
      → IsLaidOut b o p l1
      → p < o
      → p + (b p).head.rec_len ≡ o
      → IsReached b (some p) o (l0 ++ l1)

-- The name of the first entry of a run, if that is in use.
first_name :
    (b : Block) (z o : ℕ) (l : List Named)
    → o < z
    → (b o).head.inode ≢ 0
    → IsLaidOut b z o l
    → (l' : List Named) × l ≡ named (b o) ∷ l' × IsLaidOut b z (o + (b o).head.rec_len) l'
first_name b z _ _ h real (ended o e) = absurd (omega (arith, e))
first_name b z _ _ h real (unused o s l e v f r) = absurd (real (rw e f))
first_name b z _ _ h real (used o s l e v f r) = (l, rw e refl, rw e r)

empty_run : (b : Block) (z o : ℕ) (l : List Named) → o ≡ z → IsLaidOut b z o l → l ≡ []
empty_run b z _ _ h (ended o e) = refl
empty_run b z _ _ h (unused o s l e v f r) =
    absurd (omega (arith, v.long_enough, run_le b z (o + s.head.rec_len) l r))
empty_run b z _ _ h (used o s l e v f r) =
    absurd (omega (arith, v.long_enough, run_le b z (o + s.head.rec_len) l r))

-- The only entry of a run gets a length, and the run ends in another that starts behind that.
swallow :
    (b b' : Block) (z o p len : ℕ) (l l' : List Named)
    → p < o
    → p + (b p).head.rec_len ≡ o
    → b' p ≡ resized (b p) len
    → IsSound (record (b p).head { rec_len = len })
    → IsLaidOut b' z (p + len) l'
    → IsLaidOut b o p l
    → IsLaidOut b' z p (l ++ l')
swallow b b' z o _ len _ l' lt next at v tail (ended p e) = absurd (omega (arith, e))
swallow b b' z o _ len _ l' lt next at v tail (unused p s l e w f r) =
    unused p (resized s len) (l ++ l') (at ∙ ap (λ (t : Slot). resized t len) e) (rw e at v) f
      (rw (empty_run b o (p + s.head.rec_len) l (rw e at next) r) tail)
swallow b b' z o _ len _ l' lt next at v tail (used p s l e w f r) =
    used p (resized s len) (l ++ l') (at ∙ ap (λ (t : Slot). resized t len) e) (rw e at v) f
      (rw (empty_run b o (p + s.head.rec_len) l (rw e at next) r) tail)

taken_behind :
    (b : Block) (p o : ℕ)
    → o ≢ 0
    → (b p).head.rec_len + (b o).head.rec_len < 65536
    → taken_out (some p) b o
      ≡ put_head b p (record (b p).head { rec_len = (b p).head.rec_len + (b o).head.rec_len })
unfolding taken_out
taken_behind b p o real fits = rw (ne→== o 0 real, whole) refl
  where
    whole : u16 ((b p).head.rec_len + (b o).head.rec_len) ≡ (b p).head.rec_len + (b o).head.rec_len
    whole = omega arith

taken_out_lem :
    (b : Block) (prev : Option ℕ) (z o : ℕ) (l l2 : List Named)
    → z < 65536
    → o < z
    → IsReached b prev o l
    → IsLaidOut b z o l2
    → (b o).head.inode ≢ 0
    → (l' : List Named) × l2 ≡ named (b o) ∷ l' × IsLaidOut (taken_out prev b o) z 0 (l ++ l')
unfolding taken_out
taken_out_lem b _ z _ _ l2 small h (at_start prev) r real =
    let (l', e, r') = first_name b z 0 l2 h real r in
    let first = lead_of b z 0 l2 h r in
    (
      l',
      e,
      unused 0 (record { head = record (b 0).head { inode = 0 }; name = (b 0).name }) l'
          (put_same b 0 _)
          (record {
            long_enough = first.entry.long_enough;
            aligned = first.entry.aligned;
            holds_name = first.entry.holds_name;
          })
          refl
          (same_run b _ z (0 + (b 0).head.rec_len) l'
            (λ k lo hi. put_other b 0 k _ (λ e. absurd (omega (arith, first.entry.long_enough, e))))
            r'),
    )
taken_out_lem b _ z _ _ l2 small h (behind p o l0 l1 r0 r1 lt next) r real =
    let (l', e, r') = first_name b z o l2 h real r in
    let first = lead_of b z o l2 h r in
    let before = lead_of b o p l1 lt r1 in
    let size = (b p).head.rec_len + (b o).head.rec_len in
    let b' = put_head b p (record (b p).head { rec_len = size }) in
    let others : (k : ℕ) → k ≢ p → b' k ≡ b k = λ k ne. put_other b p k _ ne in
    let start : p + size ≡ o + (b o).head.rec_len = omega (arith, next) in
    let tail : IsLaidOut b' z (p + size) l' =
      same_run b b' z (p + size) l'
        (λ k lo hi. others k (λ e'. absurd (omega (arith, before.entry.long_enough, e'))))
        (rw start r') in
    let new : IsSound (record (b p).head { rec_len = size }) = record {
      long_enough = omega (arith, before.entry.long_enough);
      aligned = omega (arith, before.entry.aligned, first.entry.aligned);
      holds_name = omega (arith, before.entry.holds_name);
    } in
    let joined : IsLaidOut b' z 0 (l0 ++ (l1 ++ l')) =
      join_runs b' p z 0 l0 (l1 ++ l')
        (same_run b b' p 0 l0 (λ k lo hi. others k (λ e'. absurd (omega (arith, e')))) r0)
        (swallow b b' z o p size l1 l' lt next (put_same b p _) new tail r1) in
    (
      l',
      e,
      rw
          (
            ← taken_behind b p o (omega arith) (omega (arith, first.inside, next)),
            ← append_assoc l0 l1 l',
          )
          at joined,
    )

-- The bytes of a string of C, none of which is 0.
pub data IsString : List ℕ → Type 0 where
  over : IsString []
  byte : (x : ℕ) (xs : List ℕ) → x ≢ 0 → IsString xs → IsString (x ∷ xs)

-- The name that is looked for, if there is one, with its length.
pub data IsSought : Option (List ℕ) → ℕ → Type 0 where
  any : (n : ℕ) → IsSought none n
  string : (name : List ℕ) → IsString name → IsSought (some name) (length name)

strncmp_take :
    (xs ys : List ℕ)
    → IsString xs
    → strncmp_equal xs ys (length xs) ≡ true
    → take (length xs) ys ≡ xs
unfolding strncmp_equal
strncmp_take [] ys _ e = refl
strncmp_take (x ∷ xs) [] (byte x' xs' ne s) e = absurd (ne (ground (arith, e)))
strncmp_take (x ∷ xs) (y ∷ ys) (byte x' xs' ne s) e =
    let same : x ≡ y = ground (arith, e) in
    let rest : strncmp_equal xs ys (length xs) ≡ true = ground (arith, e, ne) in
    rw same (ap (λ (zs : List ℕ). y ∷ zs) (strncmp_take xs ys s rest))

name_found :
    (name : Option (List ℕ)) (n : ℕ) (ls : UnlinkStruct) (s : Slot)
    → IsSought name n
    → ls.name ≡ name
    → ls.namelen ≡ n
    → wanted ls s ≡ true
    → name ≡ none ⊎ name ≡ some (named s).1
unfolding wanted
name_found _ _ ls s (any n) e e' w = inl refl
name_found _ _ ls s (string name str) e e' w =
    inr (ap (λ (xs : List ℕ). some xs) (sym (rw (← len) at (strncmp_take name s.name str cmp))))
  where
    both : (p q : Bool) → (p && q) ≡ true → p ≡ true
    both true q h = refl
    both false q h = h

    both_right : (p q : Bool) → (p && q) ≡ true → q ≡ true
    both_right true q h = h
    both_right false q h = absurd (ground (arith, h))

    split :
        ((bit_and s.head.name_len 0xFF == ls.namelen)
          && strncmp_equal name s.name (bit_and s.head.name_len 0xFF))
        ≡ true
    split =
        both
          ((bit_and s.head.name_len 0xFF == ls.namelen)
            && strncmp_equal name s.name (bit_and s.head.name_len 0xFF))
          (if not (ls.inode == 0) then s.head.inode == ls.inode else not (s.head.inode == 0))
          (rw e at w)

    len : s.head.name_len % 256 ≡ length name
    len = ground (arith, split, e', low_byte s.head.name_len)

    cmp : strncmp_equal name s.name (length name) ≡ true
    cmp =
        rw (low_byte s.head.name_len, len) at
          (both_right (bit_and s.head.name_len 0xFF == ls.namelen)
            (strncmp_equal name s.name (bit_and s.head.name_len 0xFF)) split)

inode_found :
    (ls : UnlinkStruct) (s : Slot)
    → wanted ls s ≡ true
    → s.head.inode ≢ 0 × (ls.inode ≡ 0 ⊎ ls.inode ≡ s.head.inode)
unfolding wanted
inode_found ls s w = elim (Bool-cases (ls.inode == 0)) [
  | inl zero ↦ (ground (arith, w, zero), inl (ground (arith, zero)))
  | inr other ↦ (ground (arith, w, other), inr (ground (arith, w, other)))
]

-- A call of `unlink_proc` on an entry of a block of entries one behind the other, with the entry just
-- before it as the previous one, for a name without a byte 0, or none, and a block of less than 65536
-- bytes: if it returns 0, the tests fail for the entry, the block is unchanged, and the entry is the
-- previous one. Otherwise it returns `DIRENT_ABORT | DIRENT_CHANGED` and has counted one entry, which
-- is in use and has the name and the inode that are looked for; the entries of the block are one
-- behind the other, and the names in it are those before without that of the entry.
pub unlink_proc_lem :
    (ls : UnlinkStruct) (b : Block) (z o : ℕ) (l1 l2 : List Named)
    → z < 65536
    → o < z
    → IsSought ls.name ls.namelen
    → IsReached b ls.prev o l1
    → IsLaidOut b z o l2
    → let (ret, ls', b') = unlink_proc ls b o in
      ret ≡ 0 × wanted ls (b o) ≡ false × ls' ≡ record ls { prev = some o } × b' ≡ b
      ⊎ ret ≡ 3
        × ls' ≡ record ls { prev = some o; done = ls.done + 1 }
        × (b o).head.inode ≢ 0
        × (ls.inode ≡ 0 ⊎ ls.inode ≡ (b o).head.inode)
        × (ls.name ≡ none ⊎ ls.name ≡ some (named (b o)).1)
        × ((l' : List Named) × l2 ≡ named (b o) ∷ l' × IsLaidOut b' z 0 (l1 ++ l'))
unfolding unlink_proc
unlink_proc_lem ls b z o l1 l2 small h str before r = elim (Bool-cases (wanted ls (b o))) [
  | inl hit ↦
      let (real, same) = inode_found ls (b o) hit in
      rw hit (
        inr (
          refl,
          refl,
          real,
          same,
          name_found ls.name ls.namelen ls (b o) str refl refl hit,
          taken_out_lem b ls.prev z o l1 l2 small h before r real,
        ))
  | inr miss ↦ rw miss (inl (refl, refl, refl, refl))
]
