-- ===== src/Icount/Seek.antt =====
-- source/icount.c: the binary search of `get_icount_el`.
use native.Mathlib.Decide.{dec_lt, ℕ_discrete}
use libext2fs.Prelude.{
  ℕ, zero, suc, ◌+◌, ◌-◌, ◌/◌, ◌≤◌, ◌<◌, ◌≡◌, List, length, arith, ==_iff, ne→==, lt→ltb, le→ltb,
  ap,
}
use libext2fs.Icount.{IcountEl, ino_at, Ending, hit, gap, unfinished, seek_loop}
use libext2fs.Icount.Entries.{IsAscending}

-- Whether the entries up to an index are of lower inodes, and those from an index on of higher.
abbrev pub IsAbove : List IcountEl → ℕ → ℕ → Type 0
IsAbove list ino low = (i : ℕ) → i < low → ino_at list i < ino

abbrev pub IsBelow : List IcountEl → ℕ → ℕ → Type 0
IsBelow list ino high = (i : ℕ) → high ≤ i → i < length list → ino < ino_at list i

-- What a search may return: the index of the entry, or the place where it would stand.
abbrev pub IsResult : List IcountEl → ℕ → Ending → Type 0
IsResult list ino (hit i) = (i < length list) × (ino_at list i ≡ ino)
IsResult list ino (gap i) = (i ≤ length list) × IsAbove list ino i × IsBelow list ino i
IsResult list ino unfinished = ⊥

module _ (list : List IcountEl) (ino : ℕ) (asc : IsAscending list) where
  lower_half : (mid : ℕ) → mid < length list → ino_at list mid < ino → IsAbove list ino (mid + 1)
  lower_half mid hm lt i hi = elim (ℕ_discrete i mid) [
    | yes e ↦ omega (arith, ap (λ (k : ℕ). ino_at list k) e)
    | no ne ↦ omega (arith, asc i mid (omega arith) hm)
  ]

  upper_half : (mid : ℕ) → ino < ino_at list mid → IsBelow list ino mid
  upper_half mid lt i lo hi = elim (ℕ_discrete mid i) [
    | yes e ↦ omega (arith, ap (λ (k : ℕ). ino_at list k) e)
    | no ne ↦ omega (arith, asc mid i (omega arith) hi)
  ]

  pub seek_loop-IsResult :
      (fuel low high : ℕ)
      → low ≤ high
      → high ≤ length list
      → high - low < fuel
      → IsAbove list ino low
      → IsBelow list ino high
      → IsResult list ino (seek_loop fuel list ino low high)
  unfolding seek_loop
  seek_loop-IsResult zero low high lh hn h above below = absurd (omega arith)
  seek_loop-IsResult (suc fuel) low high lh hn h above below = elim (dec_lt low high) [
    | no p ↦
        rw (le→ltb low high (omega arith)) (omega arith, above, λ i lo hi. below i (omega arith) hi)
    | yes p ↦ rw (lt→ltb low high p) (elim (ℕ_discrete ino (ino_at list mid)) [
      | yes e ↦ rw ((==_iff ino (ino_at list mid)).1 e) (omega arith, omega arith)
      | no ne ↦ rw (ne→== ino (ino_at list mid) ne) (elim (dec_lt ino (ino_at list mid)) [
        | yes lt ↦ rw (lt→ltb ino (ino_at list mid) lt) (
            seek_loop-IsResult fuel low mid (omega arith) (omega arith) (omega arith) above
              (upper_half mid lt))
        | no ge ↦ rw (le→ltb ino (ino_at list mid) (omega arith)) (
            seek_loop-IsResult fuel (mid + 1) high (omega arith) hn (omega arith)
              (lower_half mid (omega arith) (omega arith)) below)
      ])
    ])
  ]
    where
      mid : ℕ
      mid = (low + (high - 1)) / 2
