-- ===== src/Badblocks/Del.antt =====
-- `ext2fs_u32_list_del` closes the gap that the removed entry leaves.
use native.Mathlib.Decide.{dec_lt, ℕ_discrete}
use libext2fs.Prelude.{
  ℕ, zero, suc, ◌+◌, ◌-◌, ◌≤◌, ◌<◌, List, ◌≡◌, ◌≢◌, ◌↔◌, inl, inr, arith, refl, ap, sym, ◌∙◌,
  length, set, length-set, get_or-set, ltb, leb, ◌&&◌, if◌then◌else◌, true, false,
}
use mathlib.Core.Path.{subst}
use libext2fs.Badblocks.{U32List, at, found, absent, shift_down, u32_list_find, u32_list_del}
use libext2fs.Badblocks.Order.{IsAscending, IsValid, Holds}
use libext2fs.Badblocks.Find.{find_lem}

shift_down-zero : (list : List ℕ) (i : ℕ) → shift_down list 0 i ≡ list
unfolding shift_down
shift_down-zero list i = refl

shift_down-suc :
    (list : List ℕ) (left i : ℕ)
    → shift_down list (suc left) i ≡ shift_down (set list i (at list (i + 1))) left (i + 1)
unfolding shift_down
shift_down-suc list left i = refl

length-shift_down : (list : List ℕ) (left i : ℕ) → length (shift_down list left i) ≡ length list
unfolding shift_down
length-shift_down list zero i = refl
length-shift_down list (suc left) i =
    length-shift_down (set list i (at list (i + 1))) left (i + 1)
    ∙ length-set list i (at list (i + 1))

-- One round of the loop, as an update at index `k` of what the other rounds leave.
shift_down_round :
    (list : List ℕ) (left i k out : ℕ)
    → i + suc left < length list
    → out ≡ (
        if leb (i + 1) k && ltb k (i + 1 + left)
        then at (set list i (at list (i + 1))) (k + 1)
        else at (set list i (at list (i + 1))) k)
    → out ≡ (if leb i k && ltb k (i + suc left) then at list (k + 1) else at list k)
shift_down_round list left i k out h e =
    ground (
      arith,
      get_or-set list i k (at list (i + 1)) 0,
      get_or-set list i (k + 1) (at list (i + 1)) 0,
    )

-- The loop moves the entries of `(i, i + left]` one down, and leaves the others.
at-shift_down :
    (list : List ℕ) (left i k : ℕ)
    → i + left < length list
    → at (shift_down list left i) k
      ≡ (if leb i k && ltb k (i + left) then at list (k + 1) else at list k)
at-shift_down list zero i k h = rw shift_down-zero (ground arith)
at-shift_down list (suc left) i k h =
    shift_down_round list left i k (at (shift_down list (suc left) i) k) h (
      ap (λ l. at l k) (shift_down-suc list left i)
      ∙ at-shift_down (set list i (at list (i + 1))) left (i + 1) k
          (omega (arith, length-set list i (at list (i + 1)))))

-- The list with the entry at index `r` taken out.
abbrev removed : List ℕ → ℕ → ℕ → List ℕ
removed list num r = shift_down list (num - 1 - r) r

module _ (list : List ℕ) (num r : ℕ) (inside : num ≤ length list) (hr : r < num) where
  at-removed :
      (k : ℕ)
      → k < num - 1
      → at (removed list num r) k ≡ (if ltb k r then at list k else at list (k + 1))
  at-removed k hk = ground (arith, at-shift_down list (num - 1 - r) r k)

  removed-IsAscending : IsAscending list num → IsAscending (removed list num r) (num - 1)
  removed-IsAscending asc a b ab hb =
      ground (arith, at-removed a, at-removed b, asc a b, asc a (b + 1), asc (a + 1) (b + 1))

  removed-Holds :
      (x : ℕ)
      → IsAscending list num
      → ((i : ℕ) × (i < num - 1) × (at (removed list num r) i ≡ x))
        ↔ (((i : ℕ) × (i < num) × (at list i ≡ x)) × (x ≢ at list r))
  removed-Holds x asc = (to, from)
    where
      apart : (i : ℕ) → i < num → i ≢ r → at list i ≢ at list r
      apart i hi ne e = elim (dec_lt i r) [
        | yes lt ↦ omega (arith, asc i r lt hr)
        | no ge ↦ omega (arith, asc r i (omega arith) hi)
      ]

      to :
          ((i : ℕ) × (i < num - 1) × (at (removed list num r) i ≡ x))
          → ((i : ℕ) × (i < num) × (at list i ≡ x)) × (x ≢ at list r)
      to (i, hi, e) = elim (dec_lt i r) [
        | yes lt ↦ (
          (i, omega arith, ground (arith, at-removed i)),
          λ same. apart i (omega arith) (omega arith) (ground (arith, at-removed i)),
        )
        | no ge ↦ (
          (i + 1, omega arith, ground (arith, at-removed i)),
          λ same. apart (i + 1) (omega arith) (omega arith) (ground (arith, at-removed i)),
        )
      ]

      shifted : (i : ℕ) → r < i → at list (i - 1 + 1) ≡ at list i
      shifted i h = ap (λ (k : ℕ). at list k) (let e : i - 1 + 1 ≡ i = omega arith in e)

      from :
          ((i : ℕ) × (i < num) × (at list i ≡ x)) × (x ≢ at list r)
          → (i : ℕ) × (i < num - 1) × (at (removed list num r) i ≡ x)
      from ((i, hi, e), ne) = elim (ℕ_discrete i r) [
        | yes same ↦ absurd (ne (sym e ∙ ap (λ (k : ℕ). at list k) same))
        | no other ↦ elim (dec_lt i r) [
          | yes lt ↦ (i, omega arith, ground (arith, at-removed i))
          | no ge ↦ (i - 1, omega arith, ground (arith, at-removed (i - 1), shifted i))
        ]
      ]

false_ne_true : ¬ (false ≡ true)
false_ne_true h = cc

-- Removing a block from a valid list reports whether the block was there; the list stays valid, and
-- holds exactly what it held but for the block.
pub del_lem :
    (bb : U32List) (blk : ℕ)
    → IsValid bb
    → ((u32_list_del bb blk).0 ≡ true ↔ Holds bb blk)
      × IsValid (u32_list_del bb blk).1
      × ((x : ℕ) → Holds (u32_list_del bb blk).1 x ↔ (Holds bb x × (x ≢ blk)))
del_lem bb blk v = elim (find_lem bb blk v) [
  | inl (r, e, hr, hit) ↦ rw (hits r e hr) (
    (λ _. (r, hr, hit), λ _. refl),
    record {
      magic_ok = v.magic_ok;
      fits = omega arith;
      sized = length-shift_down bb.list (bb.num - 1 - r) r ∙ v.sized;
      ascending = removed-IsAscending bb.list bb.num r inside hr v.ascending;
    },
    λ x. rw (← hit) (removed-Holds bb.list bb.num r inside hr x v.ascending),
  )
  | inr (e, not_held) ↦ rw (misses e) (
    (λ h. absurd (false_ne_true h), λ held. absurd (not_held held)),
    v,
    λ x. (λ held. (held, λ same. not_held (subst (Holds bb) same held)), λ h. h.0),
  )
]
  where
    inside : bb.num ≤ length bb.list
    inside = omega (arith, v.sized)

    hits :
        (r : ℕ)
        → u32_list_find bb blk ≡ found r
        → r < bb.num
        → u32_list_del bb blk
          ≡ (true, record bb { list = removed bb.list bb.num r; num = bb.num - 1 })
    hits r e hr = unfold u32_list_del in ground (arith, e)

    misses : u32_list_find bb blk ≡ absent → u32_list_del bb blk ≡ (false, bb)
    misses e = unfold u32_list_del in ground (arith, e)
