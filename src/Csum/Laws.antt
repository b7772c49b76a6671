-- ===== src/Csum/Laws.antt =====
-- source/csum.c: a checksum that was set verifies.
use libext2fs.Prelude.{
  ℕ, ◌<◌, ◌≡◌, ◌≢◌, refl, ap, arith, length, Bool-cases, inl, inr, ◌⊎◌, true, false,
}
use libext2fs.Fs.{Filsys, Cell, has_ro_compat, gdt_csum}
use libext2fs.GroupDesc.{group_desc, upper_half, lower, upper, bg_checksum, bg_checksum_set}
use libext2fs.GroupDesc.Table.{cell_at-poke, cell_at-poke_ne}
use libext2fs.GroupDesc.Slots.{checksum, IsInTable}
use libext2fs.GroupDesc.Laws.{Field, number, store, read, get-put_other}
use libext2fs.Swap.{swap_lower, swap_group_desc2}
use libext2fs.Csum.{group_desc_csum, group_desc_csum_verify, group_desc_csum_set}

module _ (fs : Filsys) (group n : ℕ) (inside : group_desc fs group < length fs.group_desc) where
  lower-set : lower (bg_checksum_set fs group n) group ≡ record (lower fs group) { bg_checksum = n }
  unfolding bg_checksum_set
  lower-set = ground (
    arith,
    cell_at-poke fs.group_desc (group_desc fs group) (group_desc fs group)
        (λ c. record c { bg_checksum = n }) inside,
  )

  upper-set : upper (bg_checksum_set fs group n) group ≡ upper fs group
  unfolding bg_checksum_set
  upper-set =
      cell_at-poke_ne fs.group_desc (group_desc fs group) (upper_half fs group)
        (λ c. record c { bg_checksum = n }) (λ e. omega (arith, e))

  super-set : (bg_checksum_set fs group n).super ≡ fs.super
  unfolding bg_checksum_set
  super-set = refl

  bg_checksum-set : bg_checksum (bg_checksum_set fs group n) group ≡ n
  unfolding bg_checksum
  bg_checksum-set = ap (λ (c : Cell). c.bg_checksum) lower-set

  -- The checksum leaves out the field that it is stored in.
  pub group_desc_csum-set :
      group_desc_csum (bg_checksum_set fs group n) group ≡ group_desc_csum fs group
  unfolding group_desc_csum swap_group_desc2 swap_lower
  group_desc_csum-set = rw (lower-set, upper-set, super-set) refl

-- Setting the checksum of a group in the descriptor table makes it verify. It changes no other
-- field of a descriptor, of those that the table has room for, with the 64BIT feature as
-- descriptors of at least 64 bytes.
pub group_desc_csum_set_lem :
    (fs : Filsys) (group : ℕ)
    → group_desc fs group < length fs.group_desc
    → (group_desc_csum_verify (group_desc_csum_set fs group) group ≡ 1)
      × ((k : Field) (other : ℕ)
          → IsInTable fs other
          → (k ≢ number checksum) ⊎ (group ≢ other)
          → read k (group_desc_csum_set fs group) other ≡ read k fs other)
unfolding group_desc_csum_set
group_desc_csum_set_lem fs group inside = elim (Bool-cases (has_ro_compat fs.super gdt_csum)) [
  | inr e ↦ rw e (unverified e, λ k other h d. refl)
  | inl e ↦ rw e (
    verified e,
    λ k other h d. get-put_other k (store checksum) fs group other (group_desc_csum fs group) h d,
  )
]
  where
    verified :
        has_ro_compat fs.super gdt_csum ≡ true
        → group_desc_csum_verify (bg_checksum_set fs group (group_desc_csum fs group)) group ≡ 1
    verified e =
        unfold group_desc_csum_verify in
        ground (
          arith,
          bg_checksum-set fs group (group_desc_csum fs group) inside,
          group_desc_csum-set fs group (group_desc_csum fs group) inside,
        )

    unverified : has_ro_compat fs.super gdt_csum ≡ false → group_desc_csum_verify fs group ≡ 1
    unverified e = unfold group_desc_csum_verify in rw e refl
