-- ===== src/Backups/Sequences.antt =====
-- source/sparse.c: the powers of 3, 5 and 7 that a walk over the backups goes through.
use native.Mathlib.Nat.{pow-zero, pow-succ', one-le-pow}
use libext2fs.Prelude.{
  ℕ, zero, suc, ◌+◌, ◌-◌, ◌%◌, ◌^◌, ◌≤◌, ◌<◌, ◌≡◌, inl, inr, ltb, ◌==◌, arith, Bool-cases,
}

-- `v` is the first member after `n` of an ascending sequence.
pub record IsNext (p : ℕ → ℕ) (n v : ℕ) : Type 0 where
  pub index : ℕ
  pub value : v ≡ p index
  pub after : n < v
  pub passed : (j : ℕ) → j < index → p j ≤ n

module _ (p : ℕ → ℕ) (climbs : (k : ℕ) → p k < p (suc k)) where
  climbs_by : (k d : ℕ) → p k ≤ p (k + d)
  climbs_by k zero = let e : k + 0 ≡ k = omega arith in rw e (omega arith)
  climbs_by k (suc d) =
      let e : k + suc d ≡ suc (k + d) = omega arith in
      rw e (omega (arith, climbs_by k d, climbs (k + d)))

  pub moved_on : (n v w : ℕ) (h : IsNext p n v) → w ≡ p (suc h.index) → IsNext p v w
  moved_on n v w h e = record {
    index = suc h.index;
    value = e;
    after = omega (arith, e, climbs h.index, h.value);
    passed = λ j l. elim (Bool-cases (j == h.index)) [
      | inl q ↦ let f : j ≡ h.index = ground arith in rw f (omega (arith, h.value))
      | inr q ↦ omega (arith, h.passed j (ground arith), h.after)
    ];
  }

  pub later : (n r v : ℕ) → IsNext p n v → n ≤ r → r < v → IsNext p r v
  later n r v h a b = record {
    index = h.index;
    value = h.value;
    after = b;
    passed = λ j l. omega (arith, h.passed j l);
  }

  pub first_after : (n v g j : ℕ) → IsNext p n v → g ≡ p j → n < g → v ≤ g
  first_after n v g j h e l = elim (Bool-cases (ltb j h.index)) [
    | inl q ↦ absurd (omega (arith, h.passed j (ground arith), e))
    | inr q ↦
        let f : j ≡ h.index + (j - h.index) = ground arith in
        let m : p h.index ≤ p j = rw f (climbs_by h.index (j - h.index)) in
        omega (arith, h.value, m, e)
  ]

abbrev pub threes : ℕ → ℕ
threes k = 3 ^ k

abbrev pub fives : ℕ → ℕ
fives k = 5 ^ suc k

abbrev pub sevens : ℕ → ℕ
sevens k = 7 ^ suc k

pub threes-climbs : (k : ℕ) → threes k < threes (suc k)
threes-climbs k = omega (arith, pow-succ' 3 k, one-le-pow k 3 (omega arith))

pub fives-climbs : (k : ℕ) → fives k < fives (suc k)
fives-climbs k = omega (arith, pow-succ' 5 (suc k), one-le-pow (suc k) 5 (omega arith))

pub sevens-climbs : (k : ℕ) → sevens k < sevens (suc k)
sevens-climbs k = omega (arith, pow-succ' 7 (suc k), one-le-pow (suc k) 7 (omega arith))

-- No number is in two of the sequences: their remainders by 5 and 7 tell them apart.
pub threes-mod5 : (k : ℕ) → 1 ≤ threes k % 5
threes-mod5 zero = omega (arith, pow-zero 3)
threes-mod5 (suc k) = omega (arith, pow-succ' 3 k, threes-mod5 k)

pub threes-mod7 : (k : ℕ) → 1 ≤ threes k % 7
threes-mod7 zero = omega (arith, pow-zero 3)
threes-mod7 (suc k) = omega (arith, pow-succ' 3 k, threes-mod7 k)

pub fives-mod7 : (k : ℕ) → 1 ≤ fives k % 7
fives-mod7 zero = omega arith
fives-mod7 (suc k) = omega (arith, pow-succ' 5 (suc k), fives-mod7 k)
