-- ===== src/Csum/Tests.antt =====
-- The checksum of a group of a concrete file system.
use libext2fs.Prelude.{ℕ, ◌≡◌, ◌≢◌, ◌⊎◌, arith, [], ◌∷◌}
use libext2fs.Fs.{Filsys}
use libext2fs.Fs.Samples.{small, plain_cell}
use libext2fs.GroupDesc.Slots.{checksum, IsInTable}
use libext2fs.GroupDesc.Laws.{Field, number, read}
use libext2fs.Csum.{group_desc_csum_set, group_desc_csum_verify}
use libext2fs.Csum.Laws.{group_desc_csum_set_lem}

abbrev summed : Filsys
summed = record small {
  super = record small.super { s_feature_ro_compat = 0x0010 };
  group_desc = plain_cell ∷ plain_cell ∷ plain_cell ∷ [];
}

group_desc_csum_set_lem_example :
    (group_desc_csum_verify (group_desc_csum_set summed 1) 1 ≡ 1)
    × ((k : Field) (other : ℕ)
        → IsInTable summed other
        → (k ≢ number checksum) ⊎ (1 ≢ other)
        → read k (group_desc_csum_set summed 1) other ≡ read k summed other)
group_desc_csum_set_lem_example = group_desc_csum_set_lem summed 1 (omega arith)
