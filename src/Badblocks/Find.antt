-- ===== src/Badblocks/Find.antt =====
-- The binary search of `ext2fs_u32_list_find`.
use native.Mathlib.Decide.{dec_lt, ℕ_discrete}
use libext2fs.Prelude.{ℕ, zero, suc, ◌+◌, ◌-◌, ◌/◌, ◌<◌, List, ◌≡◌, ◌≢◌, ◌⊎◌, ◌↔◌, arith, refl}
use libext2fs.Prelude.{
  ltb, ◌==◌, lt→ltb, le→ltb, ==_iff, ne→==, ap, sym, ◌∙◌, inl, inr, if◌then◌else◌,
}
use libext2fs.Badblocks.{U32List, at, Search, found, absent, unfinished, search_loop, u32_list_find}
use libext2fs.Badblocks.{u32_list_test}
use libext2fs.Badblocks.Order.{IsAscending, IsValid, Holds}

zero_ne_one : ¬ (◌≡◌ {A = ℕ} 0 1)
zero_ne_one h = omega arith

-- What a search of the entries strictly between two indices may return.
abbrev pub IsAnswer : List ℕ → ℕ → ℕ → ℕ → Search → Type 0
IsAnswer list blk low high (found i) = (low < i) × (i < high) × (at list i ≡ blk)
IsAnswer list blk low high absent = (i : ℕ) → low < i → i < high → at list i ≢ blk
IsAnswer list blk low high unfinished = ⊥

module _ (list : List ℕ) (num blk : ℕ) (asc : IsAscending list num) where
  -- The half that the test leaves out holds nothing equal to the block.
  keep_left :
      (low mid high : ℕ) (r : Search)
      → mid < high
      → high < num
      → blk < at list mid
      → IsAnswer list blk low mid r
      → IsAnswer list blk low high r
  keep_left low mid high (found i) hm hn lt (a, b, c) = (a, omega arith, c)
  keep_left low mid high absent hm hn lt none_below = λ i lo hi. elim (dec_lt i mid) [
    | yes p ↦ none_below i lo p
    | no p ↦ elim (ℕ_discrete mid i) [
      | yes e ↦ omega (arith, ap (λ (k : ℕ). at list k) e)
      | no ne ↦ omega (arith, asc mid i (omega arith) (omega arith))
    ]
  ]
  keep_left low mid high unfinished hm hn lt impossible = elim impossible [ ]

  keep_right :
      (low mid high : ℕ) (r : Search)
      → low < mid
      → high < num
      → mid < high
      → at list mid < blk
      → IsAnswer list blk mid high r
      → IsAnswer list blk low high r
  keep_right low mid high (found i) hm hn hh lt (a, b, c) = (omega arith, b, c)
  keep_right low mid high absent hm hn hh lt none_above = λ i lo hi. elim (dec_lt mid i) [
    | yes p ↦ none_above i p hi
    | no p ↦ elim (ℕ_discrete i mid) [
      | yes e ↦ omega (arith, ap (λ (k : ℕ). at list k) e)
      | no ne ↦ omega (arith, asc i mid (omega arith) (omega arith))
    ]
  ]
  keep_right low mid high unfinished hm hn hh lt impossible = elim impossible [ ]

  search_loop-IsAnswer :
      (fuel low high : ℕ)
      → high < num
      → high - low < fuel
      → IsAnswer list blk low high (search_loop fuel list blk low high)
  unfolding search_loop
  search_loop-IsAnswer zero low high hn h = absurd (omega arith)
  search_loop-IsAnswer (suc fuel) low high hn h = elim (dec_lt low high) [
    | no p ↦ rw (le→ltb low high (omega arith)) (λ i lo hi. absurd (omega arith))
    | yes p ↦ rw (lt→ltb low high p) (elim (ℕ_discrete ((low + high) / 2) low) [
      | yes e ↦ rw ((==_iff ((low + high) / 2) low).1 e) (λ i lo hi. absurd (omega arith))
      | no ne ↦
          rw (ne→== ((low + high) / 2) low ne, ne→== ((low + high) / 2) high (omega arith))
            (middle (omega arith) (omega arith)
              (search_loop-IsAnswer fuel low ((low + high) / 2) (omega arith) (omega arith))
              (search_loop-IsAnswer fuel ((low + high) / 2) high hn (omega arith)))
    ])
  ]
    where
      mid : ℕ
      mid = (low + high) / 2

      middle :
          low < mid
          → mid < high
          → IsAnswer list blk low mid (search_loop fuel list blk low mid)
          → IsAnswer list blk mid high (search_loop fuel list blk mid high)
          → IsAnswer list blk low high (
              if at list mid == blk
              then found mid
              else (if ltb blk (at list mid)
                  then search_loop fuel list blk low mid
                  else search_loop fuel list blk mid high))
      middle lo hi below above = elim (ℕ_discrete (at list mid) blk) [
        | yes e ↦ rw ((==_iff (at list mid) blk).1 e) (lo, hi, e)
        | no ne ↦ rw (ne→== (at list mid) blk ne) (elim (dec_lt blk (at list mid)) [
          | yes lt ↦ rw (lt→ltb blk (at list mid) lt) (keep_left low mid high _ hi hn lt below)
          | no ge ↦
              rw (le→ltb blk (at list mid) (omega arith))
                (keep_right low mid high _ lo hn hi (omega arith) above)
        ])
      ]

-- `ext2fs_u32_list_find` on a valid list answers: an index in range that holds the block, or that no
-- entry is the block. The loop ends within as many rounds as there are entries.
pub find_lem :
    (bb : U32List) (blk : ℕ)
    → IsValid bb
    → ((i : ℕ) × (u32_list_find bb blk ≡ found i) × (i < bb.num) × (at bb.list i ≡ blk))
      ⊎ ((u32_list_find bb blk ≡ absent) × ¬ Holds bb blk)
unfolding u32_list_find
find_lem bb blk v = elim (ℕ_discrete bb.num 0) [
  | yes e ↦ inr (ground (arith, v.magic_ok), λ (i, hi, _). absurd (omega arith))
  | no some_entries ↦ elim (ℕ_discrete (at bb.list 0) blk) [
    | yes e ↦ inl (0, ground (arith, v.magic_ok), omega arith, e)
    | no not_first ↦ elim (ℕ_discrete (at bb.list (bb.num - 1)) blk) [
      | yes e ↦ inl (bb.num - 1, ground (arith, v.magic_ok), omega arith, e)
      | no not_last ↦
          between some_entries not_first not_last (search_loop bb.num bb.list blk 0 (bb.num - 1))
            refl
            (search_loop-IsAnswer bb.list bb.num blk v.ascending bb.num 0 (bb.num - 1) (omega arith)
              (omega arith))
    ]
  ]
]
  where
    between :
        bb.num ≢ 0
        → at bb.list 0 ≢ blk
        → at bb.list (bb.num - 1) ≢ blk
        → (r : Search) → search_loop bb.num bb.list blk 0 (bb.num - 1) ≡ r
        → IsAnswer bb.list blk 0 (bb.num - 1) r
        → ((i : ℕ) × (u32_list_find bb blk ≡ found i) × (i < bb.num) × (at bb.list i ≡ blk))
          ⊎ ((u32_list_find bb blk ≡ absent) × ¬ Holds bb blk)
    between ne first last (found i) e (a, b, c) =
        inl (i, ground (arith, v.magic_ok), omega arith, c)
    between ne first last absent e none_between = inr (
      ground (arith, v.magic_ok),
      λ (i, hi, hit). elim (ℕ_discrete i 0) [
        | yes z ↦ first (ap (λ (k : ℕ). at bb.list k) (sym z) ∙ hit)
        | no nz ↦ elim (ℕ_discrete i (bb.num - 1)) [
          | yes z ↦ last (ap (λ (k : ℕ). at bb.list k) (sym z) ∙ hit)
          | no nl ↦ none_between i (omega arith) (omega arith) hit
        ]
      ],
    )
    between ne first last unfinished e impossible = elim impossible [ ]

-- The test of membership is exact.
pub test_iff : (bb : U32List) (blk : ℕ) → IsValid bb → (u32_list_test bb blk ≡ 1) ↔ Holds bb blk
unfolding u32_list_test
test_iff bb blk v = elim (find_lem bb blk v) [
  | inl (i, e, hi, hit) ↦ (λ _. (i, hi, hit), λ _. ground (arith, e))
  | inr (e, not_held) ↦
      (λ one. absurd (zero_ne_one (ground (arith, e, one))), λ held. absurd (not_held held))
]
