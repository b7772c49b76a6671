-- ===== src/Backups/Tests.antt =====
-- Tests and witnesses for Backups.
use libext2fs.Prelude.{
  ℕ, zero, suc, List, [], ◌∷◌, ◌≡◌, ◌≢◌, ◌≤◌, ◌<◌, ◌+◌, ◌↔◌, ◌⊎◌, refl, arith, true, false,
}
use libext2fs.Fs.{has_ro_compat, sparse_super}
use libext2fs.Fs.Samples.{small}
use libext2fs.BlockCount.{group_first_block2}
use libext2fs.Backups.{Counters, list_backups, bg_has_super, super_and_bgd_loc2}
use libext2fs.Backups.Powers.{IsPower, bg_has_super_iff}
use libext2fs.Backups.Walk.{IsStep, starts-IsAt, list_backups-IsStep}
use libext2fs.Backups.Layout.{HasCopy, InMetaGroup, AtEdge, Taken, loc2_lem}

abbrev start : Counters
start = record { three = 1; five = 5; seven = 7 }

walk : ℕ → Counters → List ℕ
walk zero c = []
walk (suc n) c = let (group, c') = list_backups small c in group ∷ walk n c'

walked : walk 9 start ≡ 1 ∷ 3 ∷ 5 ∷ 7 ∷ 9 ∷ 25 ∷ 27 ∷ 49 ∷ 81 ∷ []
unfolding walk list_backups
walked = refl

bg_has_super_iff_example : (bg_has_super small 25 ≡ true) ↔ (
    (has_ro_compat small.super sparse_super ≡ false)
    ⊎ (◌≡◌ {A = ℕ} 25 0 ⊎ (IsPower 3 25 ⊎ (IsPower 5 25 ⊎ IsPower 7 25))))
bg_has_super_iff_example = bg_has_super_iff small 25

list_backups-IsStep_example : IsStep 0 start starts-IsAt small (list_backups small start)
unfolding list_backups
list_backups-IsStep_example = list_backups-IsStep 0 start starts-IsAt small refl (omega arith)

first_1 : group_first_block2 small 1 ≡ 8193
unfolding group_first_block2
first_1 = refl

loc2_lem_example :
    let l = super_and_bgd_loc2 small 1 in
    (((l.super_blk ≡ group_first_block2 small 1) × HasCopy small 1)
      ⊎ ((l.super_blk ≡ 0) × (¬ HasCopy small 1)))
    × ((l.old_desc_blk ≢ 0) ↔ (HasCopy small 1 × (¬ InMetaGroup small 1)))
    × ((l.new_desc_blk ≢ 0) ↔ (InMetaGroup small 1 × AtEdge small 1))
    × ((m : ℕ)
        → Taken small l m
          ↔ ((group_first_block2 small 1 ≤ m) × (m < group_first_block2 small 1 + l.used_blks)))
loc2_lem_example =
    loc2_lem small 1 (omega (arith, first_1)) (omega (arith, first_1)) (omega arith) (omega arith)
      (omega arith)
