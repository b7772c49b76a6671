-- ===== src/Backups/Layout.antt =====
-- source/closefs.c: the blocks at the start of a group that the superblock and descriptors take.
use libext2fs.Prelude.{
  ℕ, ◌+◌, ◌*◌, ◌/◌, ◌%◌, ◌^◌, ◌≤◌, ◌<◌, ◌≡◌, ◌≢◌, ◌⊎◌, ◌↔◌, inl, inr, refl, Bool, true, false, not,
  ◌||◌, ltb, ◌==◌, sub32, if◌then◌else◌, arith, Bool-cases,
}
use native.Mathlib.Nat.{mod-add-div, mod-lt, mul_comm}
use libext2fs.Bits.Fields.{mod_unique}
use libext2fs.Fs.{Filsys, has_incompat, has_ro_compat, sparse_super, meta_bg, desc_per_block}
use libext2fs.BlockCount.{group_first_block2}
use libext2fs.Backups.{Locations, super_and_bgd_loc2, bg_has_super}
use libext2fs.Backups.Powers.{IsPower, bg_has_super_iff}

-- The blocks of descriptors that follow a copy of the superblock.
abbrev pub old_desc_blocks : Filsys → ℕ
old_desc_blocks fs =
    if has_incompat fs.super meta_bg
    then fs.super.s_first_meta_bg
    else fs.desc_blocks + fs.super.s_reserved_gdt_blocks

-- The groups with a copy of the superblock.
abbrev pub HasCopy : Filsys → ℕ → Type 0
HasCopy fs group =
    (has_ro_compat fs.super sparse_super ≡ false)
    ⊎ ((group ≡ 0) ⊎ (IsPower 3 group ⊎ (IsPower 5 group ⊎ IsPower 7 group)))

-- The groups of a meta group with descriptors of the new kind.
abbrev pub InMetaGroup : Filsys → ℕ → Type 0
InMetaGroup fs group =
    (has_incompat fs.super meta_bg ≡ true)
    × (fs.super.s_first_meta_bg ≤ group / desc_per_block fs.super)

-- The first, second or last group of a meta group.
abbrev pub AtEdge : Filsys → ℕ → Type 0
AtEdge fs group =
    (q r : ℕ) × (group ≡ q * desc_per_block fs.super + r)
    × (r < desc_per_block fs.super)
    × ((r ≡ 0) ⊎ ((r ≡ 1) ⊎ (r + 1 ≡ desc_per_block fs.super)))

-- The block is taken by a superblock or by descriptors.
abbrev pub Taken : Filsys → Locations → ℕ → Type 0
Taken fs l m =
    ((l.super_blk ≢ 0) × (m ≡ l.super_blk))
    ⊎ (((l.old_desc_blk ≢ 0) × (l.old_desc_blk ≤ m) × (m < l.old_desc_blk + old_desc_blocks fs))
        ⊎ ((l.new_desc_blk ≢ 0) × (m ≡ l.new_desc_blk)))

-- The three ways in which the function ends, `x` with descriptors of the old kind and `y` with one of
-- the new kind, from the first block `b` of a group.
module _ (fs : Filsys) (b : ℕ) (first : 1 ≤ b) (fits : b + 1 < 2 ^ 64)
    (few : old_desc_blocks fs + 1 < 2 ^ 32) where
  arranged : Bool → Bool → Bool → Locations
  arranged s x y =
      if x
      then record {
        super_blk = if s then b else 0;
        old_desc_blk = if s then (b + 1) % 2 ^ 64 else 0;
        new_desc_blk = 0;
        used_blks =
            if s then ((if s then 1 else 0) + old_desc_blocks fs) % 2 ^ 32 else if s then 1 else 0;
      }
      else (if y
          then record {
            super_blk = if s then b else 0;
            old_desc_blk = 0;
            new_desc_blk = (b + (if s then 1 else 0)) % 2 ^ 64;
            used_blks = (if s then 1 else 0) + 1;
          }
          else record {
            super_blk = if s then b else 0;
            old_desc_blk = 0;
            new_desc_blk = 0;
            used_blks = if s then 1 else 0;
          })

  -- The taken blocks are the first of the group.
  Taken-iff :
      (s x y : Bool) (m : ℕ)
      → Taken fs (arranged s x y) m ↔ ((b ≤ m) × (m < b + (arranged s x y).used_blks))
  unfolding arranged
  Taken-iff true true y m = (
    λ t. ground (arith, t, few),
    λ (lo, hi). elim (Bool-cases (m == b)) [
      | inl e ↦ inl (omega arith, ground (arith, e))
      | inr e ↦ inr (inl (omega arith, ground (arith, e), ground (arith, hi, few)))
    ],
  )
  Taken-iff true false true m = (
    λ t. ground (arith, t),
    λ (lo, hi). elim (Bool-cases (m == b)) [
      | inl e ↦ inl (omega arith, ground (arith, e))
      | inr e ↦ inr (inr (omega arith, ground (arith, e, hi)))
    ],
  )
  Taken-iff true false false m =
      (λ t. ground (arith, t), λ (lo, hi). inl (omega arith, omega (arith, hi)))
  Taken-iff false true y m = (λ t. ground (arith, t), λ (lo, hi). absurd (omega (arith, lo, hi)))
  Taken-iff false false true m =
      (λ t. ground (arith, t), λ (lo, hi). inr (inr (omega arith, omega (arith, lo, hi))))
  Taken-iff false false false m =
      (λ t. ground (arith, t), λ (lo, hi). absurd (omega (arith, lo, hi)))

  super_arranged : (s x y : Bool) → (arranged s x y).super_blk ≡ (if s then b else 0)
  unfolding arranged
  super_arranged s true y = refl
  super_arranged s false true = refl
  super_arranged s false false = refl

  old_arranged : (s x y : Bool) → ((arranged s x y).old_desc_blk ≢ 0) ↔ ((s ≡ true) × (x ≡ true))
  unfolding arranged
  old_arranged true true y = (λ _. (refl, refl), λ _. omega arith)
  old_arranged false true y = (λ n. absurd (n refl), λ (e, _). ground (arith, e))
  old_arranged s false true = (λ n. absurd (n refl), λ (_, e). ground (arith, e))
  old_arranged s false false = (λ n. absurd (n refl), λ (_, e). ground (arith, e))

  new_arranged : (s x y : Bool) → ((arranged s x y).new_desc_blk ≢ 0) ↔ ((x ≡ false) × (y ≡ true))
  unfolding arranged
  new_arranged s true y = (λ n. absurd (n refl), λ (e, _). ground (arith, e))
  new_arranged true false true = (λ _. (refl, refl), λ _. omega arith)
  new_arranged false false true = (λ _. (refl, refl), λ _. omega arith)
  new_arranged s false false = (λ n. absurd (n refl), λ (_, e). ground (arith, e))

loc2-eq-arranged :
    (fs : Filsys) (group : ℕ) (first : 1 ≤ group_first_block2 fs group)
    (fits : group_first_block2 fs group + 1 < 2 ^ 64) (few : old_desc_blocks fs + 1 < 2 ^ 32)
    → super_and_bgd_loc2 fs group
      ≡ arranged fs
          (group_first_block2 fs group)
          first
          fits
          few
          (bg_has_super fs group)
          (not (has_incompat fs.super meta_bg)
            || ltb (group / desc_per_block fs.super) fs.super.s_first_meta_bg)
          (let at = group % desc_per_block fs.super in
            (at == 0) || ((at == 1) || (at == sub32 (desc_per_block fs.super) 1)))
unfolding super_and_bgd_loc2 arranged
loc2-eq-arranged fs group first fits few =
    let z : (group_first_block2 fs group == 0) ≡ false = ground arith in rw z refl

edge_iff :
    (fs : Filsys) (group : ℕ)
    → 1 ≤ desc_per_block fs.super
    → desc_per_block fs.super < 2 ^ 32
    → let at = group % desc_per_block fs.super in
      (((at == 0) || ((at == 1) || (at == sub32 (desc_per_block fs.super) 1))) ≡ true)
      ↔ AtEdge fs group
edge_iff fs group some_descs few = (
  λ e. (
    group / size,
    group % size,
    omega (arith, mod-add-div group size, mul_comm size (group / size)),
    mod-lt group some_descs,
    by_rest e,
  ),
  λ (q, r, e, less, edge).
      let rest : group % size ≡ r = mod_unique group size q r e less in
      elim edge [
        | inl z ↦ ground (arith, rest, z)
        | inr (inl o) ↦ ground (arith, rest, o)
        | inr (inr l) ↦ ground (arith, rest, l)
      ],
)
  where
    size : ℕ
    size = desc_per_block fs.super

    by_rest :
        ((group % size == 0) || ((group % size == 1) || (group % size == sub32 size 1))) ≡ true
        → (group % size ≡ 0) ⊎ ((group % size ≡ 1) ⊎ (group % size + 1 ≡ size))
    by_rest e = elim (Bool-cases (group % size == 0)) [
      | inl z ↦ inl (ground (arith, z))
      | inr n ↦ inr (elim (Bool-cases (group % size == 1)) [
        | inl o ↦ inl (ground (arith, o))
        | inr k ↦ inr (ground (arith, e, n, k))
      ])
    ]

-- For a group whose first block is not 0, with counts and numbers that fit their words and at least one
-- descriptor in a block: the superblock is at the group's first block if the group has a copy, that is
-- without SPARSE_SUPER in any group and else in group 0 and the powers of 3, 5 and 7, and is 0
-- otherwise; descriptors of the old kind are given exactly if there is a copy and the group is not in a
-- meta group of the new kind; one of the new kind is given exactly if the group is the first, second
-- or last of such a meta group; and the blocks of these are exactly the first `used_blks` blocks of the
-- group.
pub loc2_lem :
    (fs : Filsys) (group : ℕ)
    → 1 ≤ group_first_block2 fs group
    → group_first_block2 fs group + 1 < 2 ^ 64
    → old_desc_blocks fs + 1 < 2 ^ 32
    → 1 ≤ desc_per_block fs.super
    → desc_per_block fs.super < 2 ^ 32
    → let l = super_and_bgd_loc2 fs group in
      (((l.super_blk ≡ group_first_block2 fs group) × HasCopy fs group)
        ⊎ ((l.super_blk ≡ 0) × (¬ HasCopy fs group)))
      × ((l.old_desc_blk ≢ 0) ↔ (HasCopy fs group × (¬ InMetaGroup fs group)))
      × ((l.new_desc_blk ≢ 0) ↔ (InMetaGroup fs group × AtEdge fs group))
      × ((m : ℕ)
          → Taken fs l m
            ↔ ((group_first_block2 fs group ≤ m) × (m < group_first_block2 fs group + l.used_blks)))
loc2_lem fs group first fits few some_descs few_descs =
    rw (loc2-eq-arranged fs group first fits few) (
      by_copy,
      (
        λ n. let (a, c) = (old_arranged fs b first fits few s x y).0 n in (copy.0 a, old_kind.0 c),
        λ (c, out). (old_arranged fs b first fits few s x y).1 (copy.1 c, old_kind.1 out),
      ),
      (
        λ n. let (c, e) = (new_arranged fs b first fits few s x y).0 n in (meta.0 c, edge.0 e),
        λ (i, e). (new_arranged fs b first fits few s x y).1 (meta.1 i, edge.1 e),
      ),
      Taken-iff fs b first fits few s x y,
    )
  where
    b : ℕ
    b = group_first_block2 fs group

    size : ℕ
    size = desc_per_block fs.super

    s : Bool
    s = bg_has_super fs group

    x : Bool
    x = not (has_incompat fs.super meta_bg) || ltb (group / size) fs.super.s_first_meta_bg

    y : Bool
    y = (group % size == 0) || ((group % size == 1) || (group % size == sub32 size 1))

    copy : (s ≡ true) ↔ HasCopy fs group
    copy = bg_has_super_iff fs group

    edge : (y ≡ true) ↔ AtEdge fs group
    edge = edge_iff fs group some_descs few_descs

    meta : (x ≡ false) ↔ InMetaGroup fs group
    meta = (λ e. (ground (arith, e), ground (arith, e)), λ (on, big). ground (arith, on, big))

    old_kind : (x ≡ true) ↔ (¬ InMetaGroup fs group)
    old_kind = (
      λ e i. ground (arith, e, meta.1 i),
      λ out. elim (Bool-cases x) [ inl e ↦ e | inr e ↦ absurd (out (meta.0 e)) ],
    )

    by_copy :
        (((arranged fs b first fits few s x y).super_blk ≡ b) × HasCopy fs group)
        ⊎ (((arranged fs b first fits few s x y).super_blk ≡ 0) × (¬ HasCopy fs group))
    by_copy = elim (Bool-cases s) [
      | inl e ↦ inl (rw (super_arranged fs b first fits few s x y, e) refl, copy.0 e)
      | inr e ↦
          inr (
            rw (super_arranged fs b first fits few s x y, e) refl,
            λ c. ground (arith, copy.1 c, e),
          )
    ]

pub old_desc_blk-le :
    (fs : Filsys) (group : ℕ)
    → 1 ≤ group_first_block2 fs group
    → group_first_block2 fs group + 1 < 2 ^ 64
    → (super_and_bgd_loc2 fs group).old_desc_blk ≤ group_first_block2 fs group + 1
unfolding super_and_bgd_loc2
old_desc_blk-le fs group first fits = ground arith
