-- ===== src/Badblocks/Insert.antt =====
-- The loops of `ext2fs_u32_list_add`: the scan for the place and the shift that makes room there.
use native.Mathlib.Decide.{dec_lt, ℕ_discrete}
use libext2fs.Prelude.{
  ℕ, zero, suc, ◌+◌, ◌-◌, ◌≤◌, ◌<◌, List, ◌≡◌, ◌≢◌, ◌⊎◌, ◌↔◌, inl, inr, arith, refl, ap, ◌∙◌,
  length, set, length-set, ltb, leb, ◌==◌, ◌&&◌, if◌then◌else◌, get_or-set, lt→ltb, le→ltb, ==_iff,
  ne→==,
}
use libext2fs.Badblocks.{at, Slot, present, before, scan, shift_up}
use libext2fs.Badblocks.Order.{IsAscending}

-- Where the scan stops: at an entry that is the block, or at the first that is larger.
abbrev pub IsPlace : List ℕ → ℕ → ℕ → Slot → Type 0
IsPlace list num blk present = (i : ℕ) × (i < num) × (at list i ≡ blk)
IsPlace list num blk (before j) =
    (j ≤ num) × ((i : ℕ) → i < j → at list i < blk) × ((i : ℕ) → j ≤ i → i < num → blk < at list i)

module _ (list : List ℕ) (num blk : ℕ) (asc : IsAscending list num) where
  pub scan-IsPlace :
      (left i : ℕ)
      → i + left ≡ num
      → ((k : ℕ) → k < i → at list k < blk)
      → IsPlace list num blk (scan list blk left i)
  unfolding scan
  scan-IsPlace zero i e below = (omega arith, below, λ k lo hi. absurd (omega arith))
  scan-IsPlace (suc left) i e below = elim (ℕ_discrete (at list i) blk) [
    | yes hit ↦ rw ((==_iff (at list i) blk).1 hit) (i, omega arith, hit)
    | no ne ↦ rw (ne→== (at list i) blk ne) (elim (dec_lt blk (at list i)) [
      | yes lt ↦ rw (lt→ltb blk (at list i) lt) (omega arith, below, λ k lo hi. larger k lo hi lt)
      | no ge ↦
          rw (le→ltb blk (at list i) (omega arith))
            (scan-IsPlace left (i + 1) (omega arith) (λ k hk. smaller k hk ne ge))
    ])
  ]
    where
      larger : (k : ℕ) → i ≤ k → k < num → blk < at list i → blk < at list k
      larger k lo hi lt = elim (ℕ_discrete i k) [
        | yes same ↦ omega (arith, ap (λ (m : ℕ). at list m) same)
        | no ne ↦ omega (arith, asc i k (omega arith) hi)
      ]

      smaller : (k : ℕ) → k < i + 1 → at list i ≢ blk → ¬ (blk < at list i) → at list k < blk
      smaller k hk ne ge = elim (dec_lt k i) [
        | yes lt ↦ below k lt
        | no p ↦ omega (arith, ap (λ (m : ℕ). at list m) (let same : k ≡ i = omega arith in same))
      ]

pub length-shift_up : (list : List ℕ) (left i : ℕ) → length (shift_up list left i) ≡ length list
unfolding shift_up
length-shift_up list zero i = refl
length-shift_up list (suc left) i =
    length-shift_up (set list i (at list (i - 1))) left (i - 1)
    ∙ length-set list i (at list (i - 1))

-- One round of the loop, as an update at index `k` of what the other rounds leave.
pub shift_up_round :
    (list : List ℕ) (left i k out : ℕ)
    → suc left ≤ i
    → i < length list
    → out ≡ (
        if ltb (i - 1 - left) k && leb k (i - 1)
        then at (set list i (at list (i - 1))) (k - 1)
        else at (set list i (at list (i - 1))) k)
    → out ≡ (if ltb (i - suc left) k && leb k i then at list (k - 1) else at list k)
shift_up_round list left i k out h hi e = ground (
  arith,
  get_or-set list i k (at list (i - 1)) 0 hi,
  get_or-set list i (k - 1) (at list (i - 1)) 0 hi,
)

pub shift_up-suc :
    (list : List ℕ) (left i : ℕ)
    → shift_up list (suc left) i ≡ shift_up (set list i (at list (i - 1))) left (i - 1)
unfolding shift_up
shift_up-suc list left i = refl

pub shift_up-zero : (list : List ℕ) (i : ℕ) → shift_up list 0 i ≡ list
unfolding shift_up
shift_up-zero list i = refl

-- The loop moves the entries of `(i - left, i]` one up, and leaves the others.
pub at-shift_up :
    (list : List ℕ) (left i k : ℕ)
    → left ≤ i
    → i < length list
    → at (shift_up list left i) k
      ≡ (if ltb (i - left) k && leb k i then at list (k - 1) else at list k)
at-shift_up list zero i k h hi = rw shift_up-zero (ground arith)
at-shift_up list (suc left) i k h hi =
    shift_up_round list left i k (at (shift_up list (suc left) i) k) h hi (
      ap (λ l. at l k) (shift_up-suc list left i)
      ∙ at-shift_up (set list i (at list (i - 1))) left (i - 1) k (omega arith)
          (omega (arith, length-set list i (at list (i - 1)))))

-- The list with the block put in at index `j`.
abbrev pub inserted : List ℕ → ℕ → ℕ → ℕ → List ℕ
inserted list num j blk = set (shift_up list (num - j) num) j blk

module _ (list : List ℕ) (num j blk : ℕ) (inside : num < length list) (hj : j ≤ num) where
  pub at-inserted :
      (k : ℕ)
      → at (inserted list num j blk) k
        ≡ (if j == k then blk else if ltb j k && leb k num then at list (k - 1) else at list k)
  at-inserted k = ground (
    arith,
    get_or-set (shift_up list (num - j) num) j k blk 0,
    length-shift_up list (num - j) num,
    at-shift_up list (num - j) num k,
  )

  pub inserted-IsAscending :
      IsAscending list num
      → ((i : ℕ) → i < j → at list i < blk)
      → ((i : ℕ) → j ≤ i → i < num → blk < at list i)
      → IsAscending (inserted list num j blk) (num + 1)
  inserted-IsAscending asc below above a b ab hb = ground (
    arith,
    at-inserted a,
    at-inserted b,
    below a,
    below b,
    above a,
    above (b - 1),
    asc a b,
    asc (a - 1) (b - 1),
    asc a (b - 1),
  )

  pub inserted-Holds :
      (x : ℕ)
      → ((i : ℕ) × (i < num + 1) × (at (inserted list num j blk) i ≡ x))
        ↔ (((i : ℕ) × (i < num) × (at list i ≡ x)) ⊎ (x ≡ blk))
  inserted-Holds x = (to, from)
    where
      to :
          ((i : ℕ) × (i < num + 1) × (at (inserted list num j blk) i ≡ x))
          → ((i : ℕ) × (i < num) × (at list i ≡ x)) ⊎ (x ≡ blk)
      to (i, hi, e) = elim (ℕ_discrete j i) [
        | yes same ↦ inr (ground (arith, at-inserted i))
        | no ne ↦ elim (dec_lt i j) [
          | yes lt ↦ inl (i, omega arith, ground (arith, at-inserted i))
          | no ge ↦ inl (i - 1, omega arith, ground (arith, at-inserted i))
        ]
      ]

      back : (i : ℕ) → i + 1 - 1 ≡ i
      back i = omega arith

      from :
          ((i : ℕ) × (i < num) × (at list i ≡ x)) ⊎ (x ≡ blk)
          → (i : ℕ) × (i < num + 1) × (at (inserted list num j blk) i ≡ x)
      from (inr e) = (j, omega arith, ground (arith, at-inserted j))
      from (inl (i, hi, e)) = elim (dec_lt i j) [
        | yes lt ↦ (i, omega arith, ground (arith, at-inserted i))
        | no ge ↦ (
          i + 1,
          omega arith,
          ground (arith, at-inserted (i + 1), ap (λ (k : ℕ). at list k) (back i)),
        )
      ]
