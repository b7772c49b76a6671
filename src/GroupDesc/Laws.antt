-- ===== src/GroupDesc/Laws.antt =====
-- Laws of the accessors: a descriptor is a record of independent numbers and flags, and the descriptors
-- of different groups are independent, if the table has room for the upper halves that are used.
use libext2fs.Prelude.{
  ℕ, ◌-◌, ◌^◌, bit_and, bit_or, if◌then◌else◌, ◌≡◌, ◌≢◌, refl, arith, Bool, true, false, ◌==◌, ◌∙◌,
  sym, ap, ◌⊎◌, inl, inr,
}
use libext2fs.Fs.{Super, Filsys, Cell, has_incompat, incompat_64bit}
use libext2fs.GroupDesc.{
  group_desc, upper_half, lower, upper, bg_flags, bg_flags_set, bg_flags_clear, bg_flags_zap,
}
use libext2fs.GroupDesc.Table.{poke, poke_same}
use libext2fs.GroupDesc.Slots.{
  Slot, block_bitmap, inode_bitmap, inode_table, free_blocks, free_inodes, used_dirs, itable_unused,
  checksum, get, put, kept, IsInTable, stored, lower-stored, upper-stored, super-stored, view,
  into_lower, into_upper, get-eq-view, put-eq-stored, view_self, view_other, view-congr,
}

-- What a descriptor holds: its numbers, and its flags.
pub data Field : Type 0 where
  number : Slot → Field
  flags : Field

abbrev pub read : Field → Filsys → ℕ → ℕ
read (number k) = get k
read flags = bg_flags

-- The functions that store into a descriptor, and the field that each stores into.
pub data Setter : Type 0 where
  store : Slot → Setter
  flags_set flags_clear flags_zap : Setter

abbrev pub write : Setter → Filsys → ℕ → ℕ → Filsys
write (store j) fs group n = put j fs group n
write flags_set fs group n = bg_flags_set fs group n
write flags_clear fs group n = bg_flags_clear fs group n
write flags_zap fs group n = bg_flags_zap fs group

abbrev pub target : Setter → Field
target (store j) = number j
target flags_set = flags
target flags_clear = flags
target flags_zap = flags

-- What a getter reads of the halves, and what a setter stores there.
abbrev seen : Bool → Cell → Cell → Field → ℕ
seen wide lo up (number k) = view wide lo up k
seen wide lo up flags = lo.bg_flags

abbrev onto_lower : Setter → ℕ → Cell → Cell
onto_lower (store j) n c = into_lower j n c
onto_lower flags_set n c = record c { bg_flags = bit_or c.bg_flags n }
onto_lower flags_clear n c = record c { bg_flags = bit_and c.bg_flags (2 ^ 16 - 1 - n) }
onto_lower flags_zap n c = record c { bg_flags = 0 }

abbrev onto_upper : Setter → ℕ → Cell → Cell
onto_upper (store j) n c = into_upper j n c
onto_upper flags_set n c = c
onto_upper flags_clear n c = c
onto_upper flags_zap n c = c

read-eq-seen :
    (k : Field) (fs : Filsys) (group : ℕ)
    → read k fs group
      ≡ seen (has_incompat fs.super incompat_64bit) (lower fs group) (upper fs group) k
unfolding bg_flags
read-eq-seen (number k) fs group = get-eq-view k fs group
read-eq-seen flags fs group = refl

seen-congr :
    (k : Field) (wide : Bool) (lo lo' up up' : Cell)
    → lo ≡ lo'
    → (wide ≡ true → up ≡ up')
    → seen wide lo up k ≡ seen wide lo' up' k
seen-congr (number k) wide lo lo' up up' p q = view-congr k wide lo lo' up up' p q
seen-congr flags wide lo lo' up up' p q = ap (λ (c : Cell). c.bg_flags) p

-- A setter that stores into the lower half alone.
lower_only :
    (f : Cell → Cell) (fs : Filsys) (group : ℕ)
    → record fs { group_desc = poke fs.group_desc (group_desc fs group) f }
      ≡ stored f (λ c. c) fs group
lower_only f fs group =
    ground (arith, poke_same (poke fs.group_desc (group_desc fs group) f) (upper_half fs group))

write-eq-stored :
    (j : Setter) (fs : Filsys) (group n : ℕ)
    → write j fs group n ≡ stored (onto_lower j n) (onto_upper j n) fs group
unfolding bg_flags_set bg_flags_clear bg_flags_zap
write-eq-stored (store j) fs group n = put-eq-stored j fs group n
write-eq-stored flags_set fs group n = lower_only (onto_lower flags_set n) fs group
write-eq-stored flags_clear fs group n = lower_only (onto_lower flags_clear n) fs group
write-eq-stored flags_zap fs group n = lower_only (onto_lower flags_zap n) fs group

-- The flags of the lower half do not show in a number.
view_flags :
    (k : Slot) (wide : Bool) (v : ℕ) (lo up : Cell)
    → view wide (record lo { bg_flags = v }) up k ≡ view wide lo up k
view_flags block_bitmap wide v lo up = refl
view_flags inode_bitmap wide v lo up = refl
view_flags inode_table wide v lo up = refl
view_flags free_blocks wide v lo up = refl
view_flags free_inodes wide v lo up = refl
view_flags used_dirs wide v lo up = refl
view_flags itable_unused wide v lo up = refl
view_flags checksum wide v lo up = refl

into_lower_flags : (j : Slot) (n : ℕ) (c : Cell) → (into_lower j n c).bg_flags ≡ c.bg_flags
into_lower_flags block_bitmap n c = refl
into_lower_flags inode_bitmap n c = refl
into_lower_flags inode_table n c = refl
into_lower_flags free_blocks n c = refl
into_lower_flags free_inodes n c = refl
into_lower_flags used_dirs n c = refl
into_lower_flags itable_unused n c = refl
into_lower_flags checksum n c = refl

seen_other :
    (k : Field) (j : Setter) (wide : Bool) (n : ℕ) (lo up : Cell)
    → k ≢ target j
    → seen wide (onto_lower j n lo) (onto_upper j n up) k ≡ seen wide lo up k
seen_other (number k) (store j) wide n lo up ne =
    view_other k j wide n lo up (λ e. ne (ap (λ (t : Slot). number t) e))
seen_other (number k) flags_set wide n lo up ne = view_flags k wide (bit_or lo.bg_flags n) lo up
seen_other (number k) flags_clear wide n lo up ne =
    view_flags k wide (bit_and lo.bg_flags (2 ^ 16 - 1 - n)) lo up
seen_other (number k) flags_zap wide n lo up ne = view_flags k wide 0 lo up
seen_other flags (store j) wide n lo up ne = into_lower_flags j n lo
seen_other flags flags_set wide n lo up ne = absurd (ne refl)
seen_other flags flags_clear wide n lo up ne = absurd (ne refl)
seen_other flags flags_zap wide n lo up ne = absurd (ne refl)

-- What a getter sees of the halves after a setter's stores.
get-put :
    (k : Field) (j : Setter) (fs : Filsys) (group other n : ℕ)
    → IsInTable fs other
    → read k (write j fs group n) other ≡ (
        if group == other
        then seen
            (has_incompat fs.super incompat_64bit)
            (onto_lower j n (lower fs other))
            (onto_upper j n (upper fs other))
            k
        else read k fs other)
get-put k j fs group other n h =
    ap (λ f. read k f other) (write-eq-stored j fs group n)
    ∙ read-eq-seen k (stored l u fs group) other
    ∙ ap
        (λ (sb : Super).
          seen (has_incompat sb incompat_64bit) (lower (stored l u fs group) other)
            (upper (stored l u fs group) other) k)
        (super-stored l u fs group)
    ∙ halves
    ∙ split (group == other)
  where
    l : Cell → Cell
    l = onto_lower j n

    u : Cell → Cell
    u = onto_upper j n

    wide : Bool
    wide = has_incompat fs.super incompat_64bit

    halves :
        seen wide (lower (stored l u fs group) other) (upper (stored l u fs group) other) k
        ≡ seen wide
            (if group == other then l (lower fs other) else lower fs other)
            (if group == other then u (upper fs other) else upper fs other)
            k
    halves =
        seen-congr k wide _ _ _ _ (lower-stored l u fs group other h)
          (upper-stored l u fs group other h)

    split :
        (same : Bool)
        → seen wide
            (if same then l (lower fs other) else lower fs other)
            (if same then u (upper fs other) else upper fs other)
            k
          ≡ (if same
              then seen wide (l (lower fs other)) (u (upper fs other)) k
              else read k fs other)
    split true = refl
    split false = sym (read-eq-seen k fs other)

-- In a table that has room for a group's descriptor, and with the 64BIT feature for descriptors of at
-- least 64 bytes, each number of the descriptor reads back what was stored there, cut to the width that
-- its two halves have together, or its lower half alone without the 64BIT feature; the checksum, which
-- is given as 16 bits, is not cut.
pub get-put_self :
    (k : Slot) (fs : Filsys) (group n : ℕ)
    → IsInTable fs group
    → get k (put k fs group n) group ≡ kept k (has_incompat fs.super incompat_64bit) n
get-put_self k fs group n h = ground (
  arith,
  get-put (number k) (store k) fs group group n h,
  view_self k (has_incompat fs.super incompat_64bit) n (lower fs group) (upper fs group),
)

-- In a table that has room for a group's descriptor, and with the 64BIT feature for descriptors of at
-- least 64 bytes, a store into one field of a descriptor, a number or the flags, changes no other field
-- of that group's descriptor, and no field of the descriptor if the store is for another group.
pub get-put_other :
    (k : Field) (j : Setter) (fs : Filsys) (group other n : ℕ)
    → IsInTable fs other
    → (k ≢ target j) ⊎ (group ≢ other)
    → read k (write j fs group n) other ≡ read k fs other
get-put_other k j fs group other n h (inl ne) = ground (
  arith,
  get-put k j fs group other n h,
  read-eq-seen k fs other,
  seen_other k j (has_incompat fs.super incompat_64bit) n (lower fs other) (upper fs other) ne,
)
get-put_other k j fs group other n h (inr ne) = ground (arith, get-put k j fs group other n h)
