-- ===== src/Badblocks/Order.antt =====
-- What every operation of the bad block list keeps: the entries ascend strictly, so no block is
-- listed twice.
use native.Mathlib.Decide.{dec_lt, ℕ_discrete}
use libext2fs.Prelude.{ℕ, ◌-◌, ◌≤◌, ◌<◌, List, ◌≡◌, arith, length, ap}
use libext2fs.Errors.{magic_badblocks_list}
use libext2fs.Badblocks.{U32List, at}

abbrev pub IsAscending : List ℕ → ℕ → Type 0
IsAscending list num = (i j : ℕ) → i < j → j < num → at list i < at list j

pub record IsValid (bb : U32List) : Type 0 where
  pub magic_ok : bb.magic ≡ magic_badblocks_list
  pub fits : bb.num ≤ bb.size
  pub sized : length bb.list ≡ bb.size
  pub ascending : IsAscending bb.list bb.num

-- The block is one of the entries.
abbrev pub Holds : U32List → ℕ → Type 0
Holds bb blk = (i : ℕ) × (i < bb.num) × (at bb.list i ≡ blk)

-- An entry below another has a smaller index.
pub index_lt :
    (list : List ℕ) (num i j : ℕ) → IsAscending list num → i < num → at list i < at list j → i < j
index_lt list num i j asc hi h = elim (dec_lt i j) [
  | yes p ↦ p
  | no p ↦ elim (ℕ_discrete i j) [
    | yes e ↦ absurd (omega (arith, ap (λ (k : ℕ). at list k) e))
    | no ne ↦ absurd (omega (arith, asc j i (omega arith) hi))
  ]
]

-- Every entry is at most the last one.
pub le_last :
    (list : List ℕ) (num i : ℕ) → IsAscending list num → i < num → at list i ≤ at list (num - 1)
le_last list num i asc hi = elim (ℕ_discrete i (num - 1)) [
  | yes e ↦ omega (arith, ap (λ (k : ℕ). at list k) e)
  | no ne ↦ omega (arith, asc i (num - 1) (omega arith) (omega arith))
]

-- Every entry is at least the first one.
pub first_le : (list : List ℕ) (num i : ℕ) → IsAscending list num → i < num → at list 0 ≤ at list i
first_le list num i asc hi = elim (ℕ_discrete 0 i) [
  | yes e ↦ omega (arith, ap (λ (k : ℕ). at list k) e)
  | no ne ↦ omega (arith, asc 0 i (omega arith) hi)
]
