-- ===== src/Backups/Walk.antt =====
-- source/sparse.c: the walk over the groups with a copy of the superblock, in ascending order.
use native.Mathlib.Nat.{pow-zero, pow-succ'}
use libext2fs.Prelude.{
  ℕ, zero, suc, ◌*◌, ◌^◌, ◌≤◌, ◌<◌, ◌≡◌, ◌≢◌, ◌⊎◌, inl, inr, refl, ap, ◌∙◌, true, false, ltb, arith,
  Bool-cases, u32,
}
use libext2fs.Fs.{Filsys, has_ro_compat, sparse_super}
use libext2fs.Backups.{Counters, list_backups, bg_has_super}
use libext2fs.Backups.Powers.{IsPower, bg_has_super_iff}
use libext2fs.Backups.Sequences.{
  IsNext, moved_on, later, first_after, threes, fives, sevens, threes-climbs, fives-climbs,
  sevens-climbs, threes-mod5, threes-mod7, fives-mod7,
}

-- The counters after group `n` has been returned.
pub record IsAt (n : ℕ) (c : Counters) : Type 0 where
  on_threes : IsNext threes n c.three
  on_fives : IsNext fives n c.five
  on_sevens : IsNext sevens n c.seven

pub starts-IsAt : IsAt 0 (record { three = 1; five = 5; seven = 7 })
starts-IsAt = record {
  on_threes = record {
    index = 0;
    value = refl;
    after = omega arith;
    passed = λ j l. absurd (omega arith);
  };
  on_fives = record {
    index = 0;
    value = refl;
    after = omega arith;
    passed = λ j l. absurd (omega arith);
  };
  on_sevens = record {
    index = 0;
    value = refl;
    after = omega arith;
    passed = λ j l. absurd (omega arith);
  };
}

module _ (n : ℕ) (c : Counters) (h : IsAt n c) where
  three-ne-five : c.three ≢ c.five
  three-ne-five e = omega (
    arith,
    h.on_threes.value,
    threes-mod5 h.on_threes.index,
    h.on_fives.value,
    pow-succ' 5 h.on_fives.index,
    e,
  )

  three-ne-seven : c.three ≢ c.seven
  three-ne-seven e = omega (
    arith,
    h.on_threes.value,
    threes-mod7 h.on_threes.index,
    h.on_sevens.value,
    pow-succ' 7 h.on_sevens.index,
    e,
  )

  five-ne-seven : c.five ≢ c.seven
  five-ne-seven e = omega (
    arith,
    h.on_fives.value,
    fives-mod7 h.on_fives.index,
    h.on_sevens.value,
    pow-succ' 7 h.on_sevens.index,
    e,
  )

  -- A group after `n` and before all counters has no superblock.
  none_between :
      (fs : Filsys) (g : ℕ)
      → has_ro_compat fs.super sparse_super ≡ true
      → n < g
      → g < c.three
      → g < c.five
      → g < c.seven
      → bg_has_super fs g ≡ false
  none_between fs g on l a b d = elim (Bool-cases (bg_has_super fs g)) [
    | inr e ↦ e
    | inl e ↦
        let f : suc zero ≤ zero = refute ((bg_has_super_iff fs g).0 e) in absurd (omega (arith, f))
  ]
    where
      one_is_three : (j : ℕ) (b : ℕ) → j ≡ 0 → g ≡ b ^ j → c.three ≤ g
      one_is_three j b z e =
          first_after threes threes-climbs n c.three g 0 h.on_threes
            (e ∙ ap {A = ℕ} (λ t. b ^ t) z ∙ pow-zero b) l

      refute :
          (has_ro_compat fs.super sparse_super ≡ false)
            ⊎ ((g ≡ 0) ⊎ (IsPower 3 g ⊎ (IsPower 5 g ⊎ IsPower 7 g)))
          → suc zero ≤ zero
      refute (inl e) = ground (arith, e, on)
      refute (inr (inl e)) = omega arith
      refute (inr (inr (inl (k, e)))) =
          omega (arith, first_after threes threes-climbs n c.three g k h.on_threes e l)
      refute (inr (inr (inr (inl (zero, e))))) = omega (arith, one_is_three 0 5 refl e)
      refute (inr (inr (inr (inl (suc k, e))))) =
          omega (arith, first_after fives fives-climbs n c.five g k h.on_fives e l)
      refute (inr (inr (inr (inr (zero, e))))) = omega (arith, one_is_three 0 7 refl e)
      refute (inr (inr (inr (inr (suc k, e))))) =
          omega (arith, first_after sevens sevens-climbs n c.seven g k h.on_sevens e l)

  -- A group and counters that may follow group `n`.
  pub record IsStep (fs : Filsys) (r : ℕ × Counters) : Type 0 where
    ascends : n < r.0
    has_super : bg_has_super fs r.0 ≡ true
    none_skipped : (g : ℕ) → n < g → g < r.0 → bg_has_super fs g ≡ false
    continues : IsAt r.0 r.1

  module _ (fs : Filsys) (on : has_ro_compat fs.super sparse_super ≡ true) where
    three-IsStep :
        c.three < c.five
        → c.three < c.seven
        → c.three * 7 < 2 ^ 32
        → IsStep fs (c.three, record c { three = u32 (c.three * 3) })
    three-IsStep a b f = record {
      ascends = h.on_threes.after;
      has_super =
          (bg_has_super_iff fs c.three).1 (inr (inr (inl (h.on_threes.index, h.on_threes.value))));
      none_skipped = λ g l m. none_between fs g on l m (omega arith) (omega arith);
      continues = record {
        on_threes =
            moved_on threes threes-climbs n c.three _ h.on_threes
              (omega (arith, pow-succ' 3 h.on_threes.index, h.on_threes.value));
        on_fives =
            later fives fives-climbs n c.three c.five h.on_fives (omega (arith, h.on_threes.after))
              a;
        on_sevens =
            later sevens sevens-climbs n c.three c.seven h.on_sevens
              (omega (arith, h.on_threes.after)) b;
      };
    }

    five-IsStep :
        c.five < c.three
        → c.five < c.seven
        → c.five * 7 < 2 ^ 32
        → IsStep fs (c.five, record c { five = u32 (c.five * 5) })
    five-IsStep a b f = record {
      ascends = h.on_fives.after;
      has_super =
          (bg_has_super_iff fs c.five).1
            (inr (inr (inr (inl (suc h.on_fives.index, h.on_fives.value)))));
      none_skipped = λ g l m. none_between fs g on l (omega arith) m (omega arith);
      continues = record {
        on_threes =
            later threes threes-climbs n c.five c.three h.on_threes
              (omega (arith, h.on_fives.after)) a;
        on_fives =
            moved_on fives fives-climbs n c.five _ h.on_fives
              (omega (arith, pow-succ' 5 (suc h.on_fives.index), h.on_fives.value));
        on_sevens =
            later sevens sevens-climbs n c.five c.seven h.on_sevens
              (omega (arith, h.on_fives.after)) b;
      };
    }

    seven-IsStep :
        c.seven < c.three
        → c.seven < c.five
        → c.seven * 7 < 2 ^ 32
        → IsStep fs (c.seven, record c { seven = u32 (c.seven * 7) })
    seven-IsStep a b f = record {
      ascends = h.on_sevens.after;
      has_super =
          (bg_has_super_iff fs c.seven).1
            (inr (inr (inr (inr (suc h.on_sevens.index, h.on_sevens.value)))));
      none_skipped = λ g l m. none_between fs g on l (omega arith) (omega arith) m;
      continues = record {
        on_threes =
            later threes threes-climbs n c.seven c.three h.on_threes
              (omega (arith, h.on_sevens.after)) a;
        on_fives =
            later fives fives-climbs n c.seven c.five h.on_fives (omega (arith, h.on_sevens.after))
              b;
        on_sevens =
            moved_on sevens sevens-climbs n c.seven _ h.on_sevens
              (omega (arith, pow-succ' 7 (suc h.on_sevens.index), h.on_sevens.value));
      };
    }

    -- With the SPARSE_SUPER feature, each call of a walk that starts at the counters 1, 5 and 7
    -- gives the next group with a copy of the superblock: it comes after the last one, it has a
    -- copy, and no group between has one; the counters are again those of a walk. Seven times the
    -- group must fit 32 bits.
    pub list_backups-IsStep : (list_backups fs c).0 * 7 < 2 ^ 32 → IsStep fs (list_backups fs c)
    unfolding list_backups
    list_backups-IsStep f = elim (Bool-cases (ltb c.five c.three)) [
      | inl x ↦ elim (Bool-cases (ltb c.seven c.five)) [
        | inl y ↦
            let e : list_backups fs c ≡ (c.seven, record c { seven = u32 (c.seven * 7) }) =
              rw on (rw x (rw y refl)) in
            rw e (seven-IsStep (ground arith) (ground arith) (omega (arith, f, ap (λ p. p.0) e)))
        | inr y ↦
            let e : list_backups fs c ≡ (c.five, record c { five = u32 (c.five * 5) }) =
              rw on (rw x (rw y refl)) in
            rw e (
              five-IsStep (ground arith) (ground (arith, five-ne-seven))
                (omega (arith, f, ap (λ p. p.0) e)))
      ]
      | inr x ↦ elim (Bool-cases (ltb c.seven c.three)) [
        | inl y ↦
            let e : list_backups fs c ≡ (c.seven, record c { seven = u32 (c.seven * 7) }) =
              rw on (rw x (rw y refl)) in
            rw e (seven-IsStep (ground arith) (ground arith) (omega (arith, f, ap (λ p. p.0) e)))
        | inr y ↦
            let e : list_backups fs c ≡ (c.three, record c { three = u32 (c.three * 3) }) =
              rw on (rw x (rw y refl)) in
            rw e (
              three-IsStep (ground (arith, three-ne-five)) (ground (arith, three-ne-seven))
                (omega (arith, f, ap (λ p. p.0) e)))
      ]
    ]
