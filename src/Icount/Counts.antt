-- ===== src/Icount/Counts.antt =====
-- source/icount.c: `set_inode_count` and `get_inode_count`, and what the operations promise: a map
-- from inodes to numbers of links.
use libext2fs.Prelude.{
  ℕ, ◌+◌, ◌-◌, ◌≡◌, ◌⊎◌, inl, inr, refl, u32, List, length-set, Option, none, some, true, false,
  ltb, ◌==◌, ◌||◌, if◌then◌else◌, arith, ap, sym, ◌∙◌,
}
use libext2fs.Errors.{no_memory, invalid_argument, enoent}
use libext2fs.Icount.{
  IcountEl, Icount, icount_16_xlate, ino_at, count_at, get_icount_el, set_inode_count,
  get_inode_count,
}
use libext2fs.Icount.Entries.{
  lookup, recount, lookup-recount, lookup_at, lookup_absent, ino_at-recount, IsAscending,
}
use libext2fs.Icount.Invariant.{IsListed, IsListing, IsSame, IsValid}
use libext2fs.Icount.Element.{IsAnswer, IsElement, get_icount_el-IsElement}
use libext2fs.Icount.Marks.{links}

-- A request to an icount, with the arguments of the call.
pub data Request : Type 0 where
  fetch increment decrement : ℕ → Request
  store : ℕ → ℕ → Request

-- The status of a call, the count that it gives, and the counts after it.
pub record Answer : Type 0 where
  pub status : ℕ
  pub value : Option ℕ
  pub counts : ℕ → ℕ

-- A map with one count changed.
abbrev pub updated : (ℕ → ℕ) → ℕ → ℕ → ℕ → ℕ
updated counts ino c n = if ino == n then c else counts n

recount-IsAscending :
    (list : List IcountEl) (i c : ℕ) → IsAscending list → IsAscending (recount list i c)
recount-IsAscending list i c asc a b ab hb = omega (
  arith,
  ino_at-recount list i c a,
  ino_at-recount list i c b,
  asc a b ab (omega (arith, length-set list i (record { ino = ino_at list i; count = c }))),
)

-- What `set_inode_count` does to the list.
abbrev pub IsStored : Option ℕ → Icount → ℕ → ℕ → ℕ × Icount → Type 0
IsStored room ic ino c r =
    ((r.0 ≡ 0) × IsListing (updated (lookup ic.list) ino c) ic r.1)
    ⊎ ((r.0 ≡ no_memory) × (room ≡ none) × (lookup ic.list ino ≡ 0) × IsSame ic r.1)

pub set_inode_count-IsStored :
    (room : Option ℕ) (ic : Icount) (ino c : ℕ)
    → IsListed ic.list ic.last_lookup
    → IsStored room ic ino c (set_inode_count room ic ino c)
unfolding set_inode_count
set_inode_count-IsStored room ic ino c l =
    at_entry (get_icount_el true room ic ino).1 (get_icount_el-IsElement true room ic ino l).answer
  where
    ic' : Icount
    ic' = (get_icount_el true room ic ino).0

    same : IsSame ic ic'
    same = (get_icount_el-IsElement true room ic ino l).same

    at_entry :
        (el : Option ℕ)
        → IsAnswer true room ino ic'.list el
        → IsStored room ic ino c (elim el [
          | none ↦ (no_memory, ic')
          | some i ↦ (0, record ic' { list = recount ic'.list i c })
        ])
    at_entry none (not_in, no_room) =
        inr
          (refl, no_room refl, sym (same.counts_same ino) ∙ lookup_absent ic'.list ino not_in, same)
    at_entry (some i) (hi, e) = inl (
      refl,
      record {
        magic_same = same.magic_same;
        single_same = same.single_same;
        multiple_same = same.multiple_same;
        num_same = same.num_same;
        counts_same = λ n.
            ground
              (arith, lookup-recount ic'.list i c n same.listed.ascending hi, same.counts_same n);
        listed = record {
          ascending = recount-IsAscending ic'.list i c same.listed.ascending;
          last_ok = λ k le. omega (
            arith,
            same.listed.last_ok k le,
            length-set ic'.list i (record { ino = ino_at ic'.list i; count = c }),
          );
        };
      },
    )

abbrev pub IsGot : Icount → ℕ → ℕ × ℕ × Icount → Type 0
IsGot ic ino r = (r.1 ≡ lookup ic.list ino) × IsSame ic r.2

-- `get_inode_count` gives the count of the list, and 0 where it has no entry.
pub get_inode_count-IsGot :
    (ic : Icount) (ino : ℕ)
    → IsListed ic.list ic.last_lookup
    → IsGot ic ino (get_inode_count ic ino)
unfolding get_inode_count
get_inode_count-IsGot ic ino l = at_entry (get_icount_el false none ic ino).1 found.answer
  where
    ic' : Icount
    ic' = (get_icount_el false none ic ino).0

    found : IsElement false none ic ino (get_icount_el false none ic ino)
    found = get_icount_el-IsElement false none ic ino l

    at_entry :
        (el : Option ℕ)
        → IsAnswer false none ino ic'.list el
        → IsGot ic ino
            (elim el [ none ↦ (enoent, 0, ic') | some i ↦ (0, count_at ic'.list i, ic') ])
    at_entry none (not_in, _) =
        (sym (lookup_absent ic'.list ino not_in) ∙ found.same.counts_same ino, found.same)
    at_entry (some i) (hi, e) = (
      sym (lookup_at ic'.list i found.same.listed.ascending hi)
          ∙ ap (λ (n : ℕ). lookup ic'.list n) e
          ∙ found.same.counts_same ino,
      found.same,
    )

-- What a request does to a map of counts.
abbrev pub answered : (ℕ → ℕ) → Request → Answer
answered counts (fetch i) = record {
  status = 0;
  value = some (icount_16_xlate (counts i));
  counts = counts;
}
answered counts (increment i) = record {
  status = 0;
  value = some (icount_16_xlate (u32 (counts i + 1)));
  counts = updated counts i (u32 (counts i + 1));
}
answered counts (decrement i) =
    if counts i == 0
    then record { status = invalid_argument; value = none; counts = counts }
    else record {
      status = 0;
      value = some (icount_16_xlate (counts i - 1));
      counts = updated counts i (counts i - 1);
    }
answered counts (store i c) = record { status = 0; value = none; counts = updated counts i c }

abbrev pub inode_of : Request → ℕ
inode_of (fetch i) = i
inode_of (increment i) = i
inode_of (decrement i) = i
inode_of (store i c) = i

-- The same for a file system of so many inodes.
abbrev pub specified : ℕ → (ℕ → ℕ) → Request → Answer
specified num counts r =
    if (inode_of r == 0) || ltb num (inode_of r)
    then record { status = invalid_argument; value = none; counts = counts }
    else answered counts r

-- The outcome of a call: a valid icount that stands for the counts of the answer.
pub record IsAnswered (ic : Icount) (a : Answer) (r : ℕ × Option ℕ × Icount) : Type 0 where
  pub status_ok : r.0 ≡ a.status
  pub value_ok : r.1 ≡ a.value
  pub valid : IsValid r.2
  pub num_same : r.2.num_inodes ≡ ic.num_inodes
  pub counts_ok : (n : ℕ) → links r.2 n ≡ a.counts n

-- A call that found no memory changes no count.
abbrev pub out_of_memory : Icount → Answer
out_of_memory ic = record { status = no_memory; value = none; counts = links ic }

-- Either the answer is the given one, or there was no memory.
abbrev pub IsOutcome : Option ℕ → Icount → Answer → ℕ × Option ℕ × Icount → Type 0
IsOutcome room ic a r = IsAnswered ic a r ⊎ ((room ≡ none) × IsAnswered ic (out_of_memory ic) r)
