-- ===== src/Icount/Element.antt =====
-- source/icount.c: `get_icount_el` and `insert_icount_el`.
use native.Mathlib.Decide.{ℕ_discrete, dec_lt}
use libext2fs.Prelude.{
  ℕ, ◌+◌, ◌-◌, ◌≤◌, ◌<◌, ◌≡◌, ◌≢◌, refl, List, length, Option, none, some, Bool, true, false, ltb,
  leb, ◌==◌, ◌&&◌, ◌||◌, if◌then◌else◌, arith, Bool-cases, Option-cases, inl, inr, ==_iff, ne→==,
  le→ltb, ap,
}
use libext2fs.Icount.{
  IcountEl, Icount, ino_at, grown_size, place_el, insert_icount_el, is_last_lookup, sought, look_up,
  get_icount_el, Ending, hit, gap, unfinished,
}
use libext2fs.Icount.Entries.{
  IsAbsent, inserted, length-inserted, ino_at-inserted, lookup-inserted, inserted-IsAscending,
}
use libext2fs.Icount.Seek.{IsAbove, IsBelow, IsResult, seek_loop-IsResult}
use libext2fs.Icount.Invariant.{IsListed, IsSame, refl-IsSame, touched-IsSame, trans-IsSame}

-- What a call that looks for an inode may answer: its entry, or none, which a call that creates
-- entries only gives if there is no memory.
abbrev pub IsAnswer : Bool → Option ℕ → ℕ → List IcountEl → Option ℕ → Type 0
IsAnswer create room ino list none = IsAbsent list ino × (create ≡ true → room ≡ none)
IsAnswer create room ino list (some i) = (i < length list) × (ino_at list i ≡ ino)

pub record IsElement (create : Bool) (room : Option ℕ) (ic : Icount) (ino : ℕ)
    (r : Icount × Option ℕ) : Type 0 where
  pub same : IsSame ic r.0
  pub answer : IsAnswer create room ino r.0.list r.1

nowhere :
    (list : List IcountEl) (ino pos : ℕ)
    → IsAbove list ino pos
    → IsBelow list ino pos
    → IsAbsent list ino
nowhere list ino pos above below i hi e = elim (dec_lt i pos) [
  | yes lt ↦ omega (arith, above i lt)
  | no ge ↦ omega (arith, below i (omega arith) hi)
]

not_last :
    (ic : Icount) (ino : ℕ)
    → IsListed ic.list ic.last_lookup
    → IsAbsent ic.list ino
    → is_last_lookup ic ino ≡ false
not_last ic ino l not_in = elim (Option-cases ic.last_lookup) [
  | inl e ↦ rw e refl
  | inr (i, e) ↦ rw e (ne→== (ino_at ic.list i) ino (not_in i (l.last_ok i e)))
]

some_injective : (i j : ℕ) → some i ≡ some j → i ≡ j
some_injective i j e = ap (λ o. elim o [ none ↦ 0 | some k ↦ k ]) e

module _ (create : Bool) (room : Option ℕ) (ino pos : ℕ) where
  placed-IsElement :
      (ic : Icount)
      → IsListed ic.list ic.last_lookup
      → pos ≤ length ic.list
      → IsAbove ic.list ino pos
      → IsBelow ic.list ino pos
      → IsElement create room ic ino (place_el ic ino pos)
  unfolding place_el
  placed-IsElement ic l h above below = rw (le→ltb (length ic.list) pos h) (record {
    same = record {
      magic_same = refl;
      single_same = refl;
      multiple_same = refl;
      num_same = refl;
      counts_same = λ n. lookup-inserted ic.list pos ino n (nowhere ic.list ino pos above below);
      listed = record {
        ascending = inserted-IsAscending ic.list pos ino h l.ascending above below;
        last_ok = λ i e. omega (arith, some_injective pos i e, longer);
      };
    };
    answer = (omega (arith, longer), ground (arith, ino_at-inserted ic.list pos pos new h));
  })
    where
      new : IcountEl
      new = record { ino = ino; count = 0 }

      longer : length (inserted ic.list pos new) ≡ length ic.list + 1
      longer = length-inserted ic.list pos new h

module _ (create : Bool) (room : Option ℕ) (ino pos : ℕ) where
  insert_icount_el-IsElement :
      (ic : Icount)
      → IsListed ic.list ic.last_lookup
      → pos ≤ length ic.list
      → IsAbove ic.list ino pos
      → IsBelow ic.list ino pos
      → IsElement create room ic ino (insert_icount_el room ic ino pos)
  unfolding insert_icount_el
  insert_icount_el-IsElement ic l h above below =
      rw (not_last ic ino l not_in) (elim (Bool-cases (leb ic.size (length ic.list))) [
        | inl full ↦ rw full (by_room room)
        | inr free ↦ rw free (placed-IsElement create room ino pos ic l h above below)
      ])
    where
      not_in : IsAbsent ic.list ino
      not_in = nowhere ic.list ino pos above below

      grown : ℕ → Icount
      grown n = record ic { size = grown_size ic n }

      from_grown :
          (r : Option ℕ) (n : ℕ)
          → IsElement create r (grown n) ino (place_el (grown n) ino pos)
          → IsElement create r ic ino (place_el (grown n) ino pos)
      from_grown r n p = record {
        same = trans-IsSame ic (grown n) _ (touched-IsSame ic (grown_size ic n) ic.cursor l) p.same;
        answer = p.answer;
      }

      by_room :
          (r : Option ℕ)
          → IsElement create r ic ino (elim r [
            | none ↦ (ic, none)
            | some estimate ↦ place_el (record ic { size = grown_size ic estimate }) ino pos
          ])
      by_room none = record { same = refl-IsSame ic l; answer = (not_in, λ c. refl) }
      by_room (some n) =
          from_grown (some n) n (placed-IsElement create (some n) ino pos (grown n) l h above below)

module _ (create : Bool) (room : Option ℕ) (ic : Icount) (ino : ℕ) where
  sought-IsElement :
      (e : Ending)
      → IsListed ic.list ic.last_lookup
      → IsResult ic.list ino e
      → IsElement create room ic ino (sought create room ic ino e)
  unfolding sought
  sought-IsElement (hit i) l (hi, at_i) = record {
    same = touched-IsSame ic ic.size (i + 1) l;
    answer = (hi, at_i);
  }
  sought-IsElement (gap pos) l (h, above, below) = elim (Bool-cases create) [
    | inl e ↦ rw e (insert_icount_el-IsElement true room ino pos ic l h above below)
    | inr e ↦ rw e (record {
      same = refl-IsSame ic l;
      answer = (nowhere ic.list ino pos above below, λ c. absurd (ground (arith, c)));
    })
  ]
  sought-IsElement unfinished l impossible = elim impossible [ ]

module _ (create : Bool) (room : Option ℕ) (ic : Icount) (ino : ℕ) where
  look_up-IsElement :
      IsListed ic.list ic.last_lookup
      → length ic.list ≢ 0
      → IsElement create room ic ino (look_up create room ic ino)
  unfolding look_up
  look_up-IsElement l some_entries = elim (ℕ_discrete ino (ino_at ic.list cursor)) [
    | yes e ↦ rw ((==_iff ino (ino_at ic.list cursor)).1 e) (record {
      same = touched-IsSame ic ic.size (cursor + 1) l;
      answer = (ground arith, omega arith);
    })
    | no ne ↦ rw (ne→== ino (ino_at ic.list cursor) ne) (
        from_rewound (
          sought-IsElement create room rewound ino _ l (
            seek_loop-IsResult ic.list ino l.ascending (length ic.list + 1) 0 (length ic.list)
              (omega arith) (omega arith) (omega arith) (λ i hi. absurd (omega arith))
              (λ i lo hi. absurd (omega arith)))))
  ]
    where
      cursor : ℕ
      cursor = if leb (length ic.list) ic.cursor then 0 else ic.cursor

      rewound : Icount
      rewound = record ic { cursor = cursor }

      from_rewound :
          {r : Icount × Option ℕ}
          → IsElement create room rewound ino r
          → IsElement create room ic ino r
      from_rewound {r = r} p = record {
        same = trans-IsSame ic rewound r.0 (touched-IsSame ic ic.size cursor l) p.same;
        answer = p.answer;
      }

  pub get_icount_el-IsElement :
      IsListed ic.list ic.last_lookup
      → IsElement create room ic ino (get_icount_el create room ic ino)
  unfolding get_icount_el
  get_icount_el-IsElement l =
      elim (Bool-cases
        (create && ((length ic.list == 0) || ltb (ino_at ic.list (length ic.list - 1)) ino))) [
          | inl e ↦ rw e (
              insert_icount_el-IsElement create room ino (length ic.list) ic l (omega arith)
                (below_end e) (λ i lo hi. absurd (omega arith)))
          | inr e ↦ rw e (elim (ℕ_discrete (length ic.list) 0) [
            | yes z ↦ rw ((==_iff (length ic.list) 0).1 z) (record {
              same = refl-IsSame ic l;
              answer = (λ i hi. absurd (omega arith), λ c. absurd (ground (arith, c, e, z)));
            })
            | no nz ↦ rw (ne→== (length ic.list) 0 nz) (look_up-IsElement l nz)
          ])
        ]
    where
      below_end :
          (create && ((length ic.list == 0) || ltb (ino_at ic.list (length ic.list - 1)) ino))
            ≡ true
          → IsAbove ic.list ino (length ic.list)
      below_end e i hi = elim (ℕ_discrete i (length ic.list - 1)) [
        | yes last ↦ ground (arith, e, ap (λ (k : ℕ). ino_at ic.list k) last)
        | no ne ↦ ground (arith, e, l.ascending i (length ic.list - 1) (omega arith) (omega arith))
      ]
