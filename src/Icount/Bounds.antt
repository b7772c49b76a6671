-- ===== src/Icount/Bounds.antt =====
-- source/icount.c: the order and the size of the list.
use native.Mathlib.Decide.{ℕ_discrete}
use libext2fs.Prelude.{
  ℕ, zero, suc, ◌+◌, ◌-◌, ◌≤◌, ◌<◌, ◌≡◌, ◌↔◌, refl, List, length, false, leb, ◌||◌, arith, ap,
}
use libext2fs.Errors.{magic_icount}
use libext2fs.Icount.{IcountEl, Icount, ino_at}
use libext2fs.Icount.Entries.{IsAscending}
use libext2fs.Icount.Operations.{misplaced, icount_validate}

-- Each entry is above the one before it.
abbrev IsStepwise : List IcountEl → ℕ → ℕ → Type 0
IsStepwise list left i = (k : ℕ) → i ≤ k → k < i + left → ino_at list (k - 1) < ino_at list k

one_more :
    (list : List IcountEl) (left i : ℕ)
    → (misplaced list left (i + 1) ≡ false) ↔ IsStepwise list left (i + 1)
    → ((leb (ino_at list i) (ino_at list (i - 1)) || misplaced list left (i + 1)) ≡ false)
      ↔ IsStepwise list (suc left) i
one_more list left i rest = (
  λ e k lo hi. elim (ℕ_discrete k i) [
    | yes same ↦
        ground
          (arith, e, ap (λ (m : ℕ). ino_at list m) same, ap (λ (m : ℕ). ino_at list (m - 1)) same)
    | no ne ↦ rest.0 (ground (arith, e)) k (omega arith) (omega arith)
  ],
  λ s.
      ground (
        arith,
        s i (omega arith) (omega arith),
        rest.1 (λ k lo hi. s k (omega arith) (omega arith)),
      ),
)

misplaced_iff :
    (list : List IcountEl) (left i : ℕ) → (misplaced list left i ≡ false) ↔ IsStepwise list left i
unfolding misplaced
misplaced_iff list zero i = (λ e k lo hi. absurd (omega arith), λ s. refl)
misplaced_iff list (suc left) i = one_more list left i (misplaced_iff list left (i + 1))

stepwise_ascends : (list : List IcountEl) → IsStepwise list (length list - 1) 1 → IsAscending list
stepwise_ascends list s i j ij hj = climb (j - i) i j (omega arith) ij hj
  where
    climb : (d i j : ℕ) → j - i ≡ d → i < j → j < length list → ino_at list i < ino_at list j
    climb zero i j e ij hj = absurd (omega arith)
    climb (suc d) i j e ij hj = elim (ℕ_discrete (i + 1) j) [
      | yes same ↦ omega (
        arith,
        s j (omega arith) (omega arith),
        ap (λ (m : ℕ). ino_at list m) (let f : j - 1 ≡ i = omega arith in f),
      )
      | no ne ↦ omega (
        arith,
        s j (omega arith) (omega arith),
        climb d i (j - 1) (omega arith) (omega arith) (omega arith),
      )
    ]

-- `ext2fs_icount_validate` accepts an icount with its magic number exactly if its list has at most
-- as many entries as the array has room for, and ascends strictly.
pub icount_validate_iff :
    (ic : Icount)
    → ic.magic ≡ magic_icount
    → (icount_validate ic ≡ 0) ↔ ((length ic.list ≤ ic.size) × IsAscending ic.list)
unfolding icount_validate
icount_validate_iff ic e = (
  λ ok. (
    ground (arith, e, ok),
    stepwise_ascends ic.list ((misplaced_iff ic.list _ 1).0 (ground (arith, e, ok))),
  ),
  λ (fits, asc). ground (
    arith,
    e,
    (misplaced_iff ic.list (length ic.list - 1) 1).1
        (λ k lo hi. asc (k - 1) k (omega arith) (omega arith)),
  ),
)
