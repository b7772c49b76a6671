-- ===== src/Icount/Room.antt =====
-- source/icount.c: the list never has more entries than its array has room for.
use libext2fs.Prelude.{
  ℕ, ◌+◌, ◌-◌, ◌^◌, ◌≤◌, ◌<◌, ◌≡◌, refl, u32, length, length-set, Option, none, some, Bool, true,
  false, ltb, leb, ◌==◌, ◌||◌, ◌&&◌, if◌then◌else◌, arith, Bool-cases, Option-cases, inl, inr,
}
use libext2fs.Errors.{no_memory, enoent}
use libext2fs.Icount.{
  Icount, ino_at, count_at, grown_size, place_el, insert_icount_el, is_last_lookup, Ending, hit,
  gap, unfinished, sought, look_up, get_icount_el, set_inode_count, get_inode_count,
}
use libext2fs.Icount.Entries.{length-inserted, recount}
use libext2fs.Icount.Operations.{
  has_multiple, unmark_single, icount_fetch, icount_increment, increment_listed, increment_single,
  icount_decrement, decrement_listed, forget, icount_store, store_listed, icount_validate,
}
use libext2fs.Icount.Invariant.{IsValid}
use libext2fs.Icount.Counts.{Request, fetch, increment, decrement, store}
use libext2fs.Icount.Refine.{call, call-IsOutcome}
use libext2fs.Icount.Bounds.{icount_validate_iff}

-- There is room for the entries.
abbrev pub Fits : Icount → Type 0
Fits ic = length ic.list ≤ ic.size

place_el-Fits :
    (ic : Icount) (ino pos : ℕ) → length ic.list < ic.size → Fits (place_el ic ino pos).0
unfolding place_el
place_el-Fits ic ino pos h = elim (Bool-cases (ltb (length ic.list) pos)) [
  | inl e ↦ rw e (omega arith)
  | inr e ↦ rw e (
      omega
        (arith, length-inserted ic.list pos (record { ino = ino; count = 0 }) (ground (arith, e))))
]

grown_size_lem :
    (ic : Icount) (estimate : ℕ) → ic.size + 100 < 2 ^ 32 → ic.size + 100 ≤ grown_size ic estimate
unfolding grown_size
grown_size_lem ic estimate h = ground arith

module _ (create : Bool) (room : Option ℕ) where
  insert_icount_el-Fits :
      (ic : Icount) (ino pos : ℕ)
      → Fits ic
      → ic.size + 100 < 2 ^ 32
      → Fits (insert_icount_el room ic ino pos).0
  unfolding insert_icount_el
  insert_icount_el-Fits ic ino pos f small = elim (Bool-cases (is_last_lookup ic ino)) [
    | inl e ↦ rw e f
    | inr e ↦ rw e (elim (Bool-cases (leb ic.size (length ic.list))) [
      | inl full ↦ rw full (elim (Option-cases room) [
        | inl r ↦ rw r f
        | inr (n, r) ↦ rw r (
            place_el-Fits (record ic { size = grown_size ic n }) ino pos
              (omega (arith, grown_size_lem ic n small)))
      ])
      | inr free ↦ rw free (place_el-Fits ic ino pos (ground (arith, free)))
    ])
  ]

  sought-Fits :
      (ic : Icount) (ino : ℕ) (e : Ending)
      → Fits ic
      → ic.size + 100 < 2 ^ 32
      → Fits (sought create room ic ino e).0
  unfolding sought
  sought-Fits ic ino (hit i) f small = f
  sought-Fits ic ino (gap i) f small = elim (Bool-cases create) [
    | inl e ↦ rw e (insert_icount_el-Fits ic ino i f small)
    | inr e ↦ rw e f
  ]
  sought-Fits ic ino unfinished f small = f

  look_up-Fits :
      (ic : Icount) (ino : ℕ)
      → Fits ic
      → ic.size + 100 < 2 ^ 32
      → Fits (look_up create room ic ino).0
  unfolding look_up
  look_up-Fits ic ino f small = elim (Bool-cases (ino == ino_at ic.list cursor)) [
    | inl e ↦ rw e f
    | inr e ↦ rw e (sought-Fits (record ic { cursor = cursor }) ino _ f small)
  ]
    where
      cursor : ℕ
      cursor = if leb (length ic.list) ic.cursor then 0 else ic.cursor

  get_icount_el-Fits :
      (ic : Icount) (ino : ℕ)
      → Fits ic
      → ic.size + 100 < 2 ^ 32
      → Fits (get_icount_el create room ic ino).0
  unfolding get_icount_el
  get_icount_el-Fits ic ino f small =
      elim (Bool-cases
        (create && ((length ic.list == 0) || ltb (ino_at ic.list (length ic.list - 1)) ino))) [
          | inl e ↦ rw e (insert_icount_el-Fits ic ino (length ic.list) f small)
          | inr e ↦ rw e (elim (Bool-cases (length ic.list == 0)) [
            | inl z ↦ rw z f
            | inr z ↦ rw z (look_up-Fits ic ino f small)
          ])
        ]

-- A search leaves the size alone.
size-sought : (ic : Icount) (ino : ℕ) (e : Ending) → (sought false none ic ino e).0.size ≡ ic.size
unfolding sought
size-sought ic ino (hit i) = refl
size-sought ic ino (gap i) = refl
size-sought ic ino unfinished = refl

size-get_icount_el : (ic : Icount) (ino : ℕ) → (get_icount_el false none ic ino).0.size ≡ ic.size
unfolding get_icount_el look_up
size-get_icount_el ic ino = elim (Bool-cases (length ic.list == 0)) [
  | inl z ↦ rw z refl
  | inr z ↦ rw z (elim (Bool-cases (ino == ino_at ic.list cursor)) [
    | inl e ↦ rw e refl
    | inr e ↦ rw e (size-sought (record ic { cursor = cursor }) ino _)
  ])
]
  where
    cursor : ℕ
    cursor = if leb (length ic.list) ic.cursor then 0 else ic.cursor

-- The same of a result of `set_inode_count`.
abbrev IsFitting : ℕ × Icount → Type 0
IsFitting r = Fits r.1

module _ (ic : Icount) (f : Fits ic) (small : ic.size + 100 < 2 ^ 32) (ino : ℕ) where
  pub set_inode_count-Fits : (room : Option ℕ) (c : ℕ) → IsFitting (set_inode_count room ic ino c)
  unfolding set_inode_count
  set_inode_count-Fits room c =
      at_entry (get_icount_el true room ic ino).1 (get_icount_el-Fits true room ic ino f small)
    where
      ic' : Icount
      ic' = (get_icount_el true room ic ino).0

      at_entry :
          (el : Option ℕ)
          → Fits ic'
          → IsFitting (elim el [
            | none ↦ (no_memory, ic')
            | some i ↦ (0, record ic' { list = recount ic'.list i c })
          ])
      at_entry none h = h
      at_entry (some i) h =
          omega (arith, length-set ic'.list i (record { ino = ino_at ic'.list i; count = c }))

  -- The same of a result of `get_inode_count`.
  abbrev IsGotFitting : ℕ × ℕ × Icount → Type 0
  IsGotFitting r = Fits r.2 × (r.2.size ≡ ic.size)

  get_inode_count-Fits : IsGotFitting (get_inode_count ic ino)
  unfolding get_inode_count
  get_inode_count-Fits = at_entry (get_icount_el false none ic ino).1
    where
      ic' : Icount
      ic' = (get_icount_el false none ic ino).0

      fits' : Fits ic' × (ic'.size ≡ ic.size)
      fits' = (get_icount_el-Fits false none ic ino f small, size-get_icount_el ic ino)

      at_entry :
          (el : Option ℕ)
          → IsGotFitting
              (elim el [ none ↦ (enoent, 0, ic') | some i ↦ (0, count_at ic'.list i, ic') ])
      at_entry none = fits'
      at_entry (some i) = fits'

module _ (room : Option ℕ) (ic : Icount) (f : Fits ic) (small : ic.size + 100 < 2 ^ 32)
    (ino : ℕ) where
  got_and_set-Fits : (c : ℕ) → Fits (set_inode_count room (get_inode_count ic ino).2 ino c).1
  got_and_set-Fits c =
      set_inode_count-Fits (get_inode_count ic ino).2 (get_inode_count-Fits ic f small ino).0
        (omega (arith, small, (get_inode_count-Fits ic f small ino).1)) ino room c

  fetch-Fits : Fits (icount_fetch ic ino).2
  unfolding icount_fetch
  fetch-Fits = ground (arith, get_inode_count-Fits ic f small ino, f)

  increment-Fits : Fits (icount_increment room ic ino).2
  unfolding icount_increment increment_single increment_listed
  increment-Fits = ground (
    arith,
    f,
    set_inode_count-Fits ic f small ino room 2,
    got_and_set-Fits (u32 ((get_inode_count ic ino).1 + 1)),
  )

  forget-Fits : Fits (forget room (unmark_single ic ino) ino)
  unfolding forget
  forget-Fits = elim (Bool-cases (has_multiple ic)) [
    | inl e ↦ rw e f
    | inr e ↦ rw e (set_inode_count-Fits (unmark_single ic ino) f small ino room 0)
  ]

  decrement-Fits : Fits (icount_decrement room ic ino).2
  unfolding icount_decrement decrement_listed
  decrement-Fits = ground (
    arith,
    f,
    forget-Fits,
    (get_inode_count-Fits ic f small ino).0,
    got_and_set-Fits ((get_inode_count ic ino).1 - 1),
  )

  store-Fits : (c : ℕ) → Fits (icount_store room ic ino c).1
  unfolding icount_store store_listed
  store-Fits c = ground (arith, f, forget-Fits, set_inode_count-Fits ic f small ino room c)

call-Fits :
    (room : Option ℕ) (ic : Icount) (r : Request)
    → Fits ic
    → ic.size + 100 < 2 ^ 32
    → Fits (call room ic r).2
call-Fits room ic (fetch i) f small = fetch-Fits room ic f small i
call-Fits room ic (increment i) f small = increment-Fits room ic f small i
call-Fits room ic (decrement i) f small = decrement-Fits room ic f small i
call-Fits room ic (store i c) f small = store-Fits room ic f small i c

call-IsValid :
    (room : Option ℕ) (ic : Icount) (r : Request) → IsValid ic → IsValid (call room ic r).2
call-IsValid room ic r v = elim (call-IsOutcome room ic r v) [
  | inl a ↦ a.valid
  | inr (_, a) ↦ a.valid
]

-- After any call on a valid icount that `ext2fs_icount_validate` accepts and whose list has less than
-- 2^32 - 100 places, with or without memory, the icount is accepted again: the list ascends and has no
-- more entries than places.
pub icount_validate-call :
    (room : Option ℕ) (ic : Icount) (r : Request)
    → IsValid ic
    → icount_validate ic ≡ 0
    → ic.size + 100 < 2 ^ 32
    → icount_validate (call room ic r).2 ≡ 0
icount_validate-call room ic r v ok small =
    (icount_validate_iff (call room ic r).2 after.magic_ok).1 (
      call-Fits room ic r ((icount_validate_iff ic v.magic_ok).0 ok).0 small,
      after.listed.ascending,
    )
  where
    after : IsValid (call room ic r).2
    after = call-IsValid room ic r v
