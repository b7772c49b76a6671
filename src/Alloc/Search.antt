-- ===== src/Alloc/Search.antt =====
-- A search in a circle of numbers, against which the loops of source/alloc.c are measured.
use native.Mathlib.Decide.{ℕ_discrete}
use libext2fs.Prelude.{
  ℕ, zero, suc, ◌+◌, ◌-◌, ◌≤◌, ◌<◌, ◌≡◌, ◌≢◌, refl, Bool, true, false, not, ltb, leb, ◌==◌, ◌||◌,
  ◌&&◌, if◌then◌else◌, arith, Bool-cases, inl, inr, ==_iff, ne→==, ap,
}
use libext2fs.Alloc.{Outcome, found, failed, unfinished, advance}

-- The first number that is not used, from `i` on and up to `goal`, between `low` and `high - 1`.
unfoldable pub circle : (ℕ → Bool) → ℕ → ℕ → ℕ → ℕ → ℕ → ℕ → Outcome
circle used error low high zero goal i = unfinished
circle used error low high (suc fuel) goal i =
    let next = advance low high i in
    let rest = circle used error low high fuel goal next in
    if not (used i) then found i else if next == goal then failed error else rest

-- Whether a number comes before `i` on the way from `goal` around.
abbrev pub before : ℕ → ℕ → ℕ → Bool
before goal i k = if leb goal i then leb goal k && ltb k i else leb goal k || ltb k i

-- The rounds from `i` to `goal`.
abbrev pub to_go : ℕ → ℕ → ℕ → ℕ → ℕ
to_go low high goal i = if leb goal i then high - i + (goal - low) else goal - i

-- The first number that is not used in cyclic order from the goal, or an error if all are used.
abbrev pub IsFirst : (ℕ → Bool) → ℕ → ℕ → ℕ → ℕ → Outcome → Type 0
IsFirst used error low high goal (found b) =
    (low ≤ b)
    × (b < high)
    × (used b ≡ false)
    × ((k : ℕ) → low ≤ k → k < high → before goal b k ≡ true → used k ≡ true)
IsFirst used error low high goal (failed e) =
    (e ≡ error) × ((k : ℕ) → low ≤ k → k < high → used k ≡ true)
IsFirst used error low high goal unfinished = ⊥

module _ (used : ℕ → Bool) (error low high goal : ℕ) (lo : low ≤ goal) (hi : goal < high) where
  pub circle-IsFirst :
      (fuel i : ℕ)
      → low ≤ i
      → i < high
      → to_go low high goal i ≤ fuel
      → ((k : ℕ) → low ≤ k → k < high → before goal i k ≡ true → used k ≡ true)
      → IsFirst used error low high goal (circle used error low high fuel goal i)
  unfolding circle
  circle-IsFirst zero i il ih d passed = absurd (ground arith)
  circle-IsFirst (suc fuel) i il ih d passed = elim (Bool-cases (used i)) [
    | inr free ↦ rw free (il, ih, free, passed)
    | inl busy ↦ rw busy (elim (ℕ_discrete (advance low high i) goal) [
      | yes e ↦ rw ((==_iff (advance low high i) goal).1 e) (refl, λ k a b. all_passed busy e k a b)
      | no ne ↦ rw (ne→== (advance low high i) goal ne) (
          circle-IsFirst fuel (advance low high i) (ground arith) (ground arith)
            (ground (arith, ne)) (λ k a b c. one_more busy ne k a b c))
    ])
  ]
    where
      all_passed :
          used i ≡ true → advance low high i ≡ goal → (k : ℕ) → low ≤ k → k < high → used k ≡ true
      all_passed busy e k a b = ground (arith, busy, e, passed k a b, ap used {x = i} {y = k})

      one_more :
          used i ≡ true
          → advance low high i ≢ goal
          → (k : ℕ) → low ≤ k
          → k < high
          → before goal (advance low high i) k ≡ true
          → used k ≡ true
      one_more busy ne k a b c = ground (arith, busy, ne, c, passed k a b, ap used {x = i} {y = k})
