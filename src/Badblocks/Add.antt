-- ===== src/Badblocks/Add.antt =====
-- `ext2fs_u32_list_add` inserts into the ascending list, and grows it where it is full.
use native.Mathlib.Decide.{dec_lt, ℕ_discrete}
use libext2fs.Prelude.{
  ℕ, ◌+◌, ◌-◌, ◌≤◌, ◌<◌, List, ◌++◌, ◌≡◌, ◌⊎◌, ◌↔◌, inl, inr, arith, refl, ap, sym, ◌∙◌, length,
  set, length-set, length-append, get_or-append_left, Option, some, lt→ltb, le→ltb, ==_iff, ne→==,
}
use libext2fs.Badblocks.{U32List, at, Slot, present, before, shift_up, place, u32_list_add}
use libext2fs.Badblocks.Order.{IsValid, Holds, le_last}
use libext2fs.Badblocks.Insert.{
  IsPlace, scan-IsPlace, length-shift_up, shift_up-zero, inserted, inserted-IsAscending,
  inserted-Holds,
}

-- Room for one more entry.
abbrev pub HasRoom : U32List → Type 0
HasRoom bb = bb.num < bb.size

-- A valid list after an insertion: still valid, and holding one block more.
pub record IsAdded (bb : U32List) (blk : ℕ) (bb' : U32List) : Type 0 where
  pub valid : IsValid bb'
  pub holds_iff : (x : ℕ) → Holds bb' x ↔ (Holds bb x ⊎ (x ≡ blk))

insert-IsAdded :
    (bb : U32List) (blk j : ℕ)
    → IsValid bb
    → HasRoom bb
    → j ≤ bb.num
    → ((i : ℕ) → i < j → at bb.list i < blk)
    → ((i : ℕ) → j ≤ i → i < bb.num → blk < at bb.list i)
    → IsAdded bb blk (record bb { list = inserted bb.list bb.num j blk; num = bb.num + 1 })
insert-IsAdded bb blk j v room hj below above = record {
  valid = record {
    magic_ok = v.magic_ok;
    fits = omega arith;
    sized =
        length-set (shift_up bb.list (bb.num - j) bb.num) j blk
        ∙ length-shift_up bb.list (bb.num - j) bb.num
        ∙ v.sized;
    ascending = inserted-IsAscending bb.list bb.num j blk inside hj v.ascending below above;
  };
  holds_iff = inserted-Holds bb.list bb.num j blk inside hj;
}
  where
    inside : bb.num < length bb.list
    inside = omega (arith, v.sized)

append-IsAdded :
    (bb : U32List) (blk : ℕ)
    → IsValid bb
    → HasRoom bb
    → ((i : ℕ) → i < bb.num → at bb.list i < blk)
    → IsAdded bb blk (record bb { list = set bb.list bb.num blk; num = bb.num + 1 })
append-IsAdded bb blk v room below =
    rw same_list at
      (insert-IsAdded bb blk bb.num v room (omega arith) below (λ i lo hi. absurd (omega arith)))
  where
    same_list : inserted bb.list bb.num bb.num blk ≡ set bb.list bb.num blk
    same_list =
        ap (λ (l : List ℕ). set l bb.num blk)
          (ap (λ (d : ℕ). shift_up bb.list d bb.num)
              (let z : bb.num - bb.num ≡ 0 = omega arith in z)
            ∙ shift_up-zero bb.list bb.num)

keep-IsAdded : (bb : U32List) (blk : ℕ) → IsValid bb → Holds bb blk → IsAdded bb blk bb
keep-IsAdded bb blk v (i, hi, hit) = record {
  valid = v;
  holds_iff = λ x. (λ h. inl h, λ h. elim h [ inl held ↦ held | inr e ↦ (i, hi, hit ∙ sym e) ]);
}

scanned-IsAdded :
    (bb : U32List) (blk : ℕ) (s : Slot)
    → IsValid bb
    → HasRoom bb
    → IsPlace bb.list bb.num blk s
    → IsAdded bb blk (elim s [
      | present ↦ bb
      | before j ↦ record bb {
        list = set (shift_up bb.list (bb.num - j) bb.num) j blk;
        num = bb.num + 1;
      }
    ])
scanned-IsAdded bb blk present v room held = keep-IsAdded bb blk v held
scanned-IsAdded bb blk (before j) v room (hj, below, above) =
    insert-IsAdded bb blk j v room hj below above

place-IsAdded : (bb : U32List) (blk : ℕ) → IsValid bb → HasRoom bb → IsAdded bb blk (place bb blk)
unfolding place
place-IsAdded bb blk v room = elim (ℕ_discrete bb.num 0) [
  | yes empty ↦
      rw ((==_iff bb.num 0).1 empty) (append-IsAdded bb blk v room (λ i hi. absurd (omega arith)))
  | no some_entries ↦ rw (ne→== bb.num 0 some_entries) (elim (ℕ_discrete last blk) [
    | yes hit ↦ rw ((==_iff last blk).1 hit) (keep-IsAdded bb blk v (bb.num - 1, omega arith, hit))
    | no ne ↦ rw (ne→== last blk ne) (elim (dec_lt last blk) [
      | yes lt ↦ rw (lt→ltb last blk lt) (
          append-IsAdded bb blk v room
            λ i hi. omega (arith, le_last bb.list bb.num i v.ascending hi))
      | no ge ↦ rw (le→ltb last blk (omega arith)) (
          scanned-IsAdded bb blk _ v room (
            scan-IsPlace bb.list bb.num blk v.ascending bb.num 0 (omega arith)
              (λ k hk. absurd (omega arith))))
    ])
  ])
]
  where
    last : ℕ
    last = at bb.list (bb.num - 1)

-- The list after the reallocation.
abbrev grow : U32List → List ℕ → U32List
grow bb fresh = record bb { size = bb.size + 100; list = bb.list ++ fresh }

at-grow :
    (bb : U32List) (fresh : List ℕ) (i : ℕ)
    → IsValid bb
    → i < bb.num
    → at (bb.list ++ fresh) i ≡ at bb.list i
at-grow bb fresh i v hi = get_or-append_left bb.list fresh i 0 (omega (arith, v.fits, v.sized))

grow-IsValid :
    (bb : U32List) (fresh : List ℕ) → IsValid bb → length fresh ≡ 100 → IsValid (grow bb fresh)
grow-IsValid bb fresh v n = record {
  magic_ok = v.magic_ok;
  fits = omega (arith, v.fits);
  sized = omega (arith, length-append bb.list fresh, v.sized);
  ascending = λ i j ij hj.
      omega
        (arith, v.ascending i j ij hj, at-grow bb fresh i v (omega arith), at-grow bb fresh j v hj);
}

-- Adding a block to a valid list succeeds if the list has room or the reallocation gives 100 more
-- words; the list stays valid, and holds exactly the block beside what it held.
pub add-IsAdded :
    (grown : Option (List ℕ)) (bb : U32List) (blk : ℕ)
    → IsValid bb
    → HasRoom bb ⊎ ((fresh : List ℕ) × (grown ≡ some fresh) × (length fresh ≡ 100))
    → ((u32_list_add grown bb blk).0 ≡ 0) × IsAdded bb blk (u32_list_add grown bb blk).1
add-IsAdded grown bb blk v room = elim (dec_lt bb.num bb.size) [
  | yes h ↦ rw (enough h) (refl, place-IsAdded bb blk v h)
  | no full ↦ elim room [
    | inl h ↦ absurd (omega arith)
    | inr (fresh, e, n) ↦
        rw (e, more full fresh)
          (
            refl,
            widened fresh n
                (place-IsAdded (grow bb fresh) blk (grow-IsValid bb fresh v n) (omega arith)),
          )
  ]
]
  where
    enough : HasRoom bb → u32_list_add grown bb blk ≡ (0, place bb blk)
    enough h = unfold u32_list_add in ground (arith, v.magic_ok)

    more :
        ¬ HasRoom bb
        → (fresh : List ℕ) → u32_list_add (some fresh) bb blk ≡ (0, place (grow bb fresh) blk)
    more full fresh = unfold u32_list_add in ground (arith, v.magic_ok)

    widened :
        (fresh : List ℕ)
        → length fresh ≡ 100
        → IsAdded (grow bb fresh) blk (place (grow bb fresh) blk)
        → IsAdded bb blk (place (grow bb fresh) blk)
    widened fresh n added = record {
      valid = added.valid;
      holds_iff = λ x. (
        λ h. elim ((added.holds_iff x).0 h) [
          | inl (i, hi, e) ↦ inl (i, hi, sym (at-grow bb fresh i v hi) ∙ e)
          | inr e ↦ inr e
        ],
        λ h.
            (added.holds_iff x).1 (elim h [
              | inl (i, hi, e) ↦ inl (i, hi, at-grow bb fresh i v hi ∙ e)
              | inr e ↦ inr e
            ]),
      );
    }
