-- ===== src/Badblocks/Iterate.antt =====
-- The iterator hands out the entries in order, and copies and comparisons read every entry.
use native.Mathlib.Decide.{ℕ_discrete}
use native.Mathlib.Numerals.{add-one}
use libext2fs.Prelude.{
  ℕ, zero, suc, ◌+◌, ◌<◌, List, [], ◌∷◌, ◌≡◌, ◌↔◌, arith, refl, ap, Option, none, some, length,
  if◌then◌else◌, take, Bool, true, ◌&&◌,
}
use libext2fs.Errors.{magic_badblocks_list, magic_badblocks_iterate, no_memory}
use libext2fs.Badblocks.{
  U32List, U32Iterate, at, u32_list_iterate, u32_list_iterate_begin, same_words, u32_list_equal,
  u32_copy, make_u32_list, made, failed,
}
use libext2fs.Badblocks.Order.{IsValid}

-- A client's `while (ext2fs_u32_list_iterate(iter, &blk)) …`, with the blocks that it is given;
-- `none` if the calls have not come to an end within the fuel.
pub drain : ℕ → U32List → U32Iterate → Option (List ℕ)
drain zero bb iter = none
drain (suc fuel) bb iter =
    let (iter', blk) = u32_list_iterate bb iter in
    let rest = drain fuel bb iter' in
    elim blk [ none ↦ some [] | some b ↦ elim rest [ none ↦ none | some bs ↦ some (b ∷ bs) ] ]

-- The entries from index `i`, `n` of them.
abbrev pub entries : List ℕ → ℕ → ℕ → List ℕ
entries list i zero = []
entries list i (suc n) = at list i ∷ entries list (i + 1) n

drain_from :
    (bb : U32List) (left ptr : ℕ)
    → bb.magic ≡ magic_badblocks_list
    → ptr + left ≡ bb.num
    → drain (suc left) bb (record { magic = magic_badblocks_iterate; ptr = ptr })
      ≡ some (entries bb.list ptr left)
unfolding drain u32_list_iterate
drain_from bb zero ptr m e = ground arith
drain_from bb (suc left) ptr m e = ground (arith, drain_from bb left (ptr + 1))

-- An iterator that was begun on a valid list gives every entry once, in order, and then ends.
pub drain-begin :
    (bb : U32List) (iter : U32Iterate)
    → IsValid bb
    → u32_list_iterate_begin true bb ≡ (0, some iter)
    → drain (bb.num + 1) bb iter ≡ some (entries bb.list 0 bb.num)
unfolding u32_list_iterate_begin
drain-begin bb iter v e = rw started (rw add-one (drain_from bb bb.num 0 v.magic_ok (omega arith)))
  where
    started : iter ≡ record { magic = magic_badblocks_iterate; ptr = 0 }
    started = ground (arith, v.magic_ok)

same_words_iff :
    (l1 l2 : List ℕ) (n : ℕ) → (same_words l1 l2 n ≡ true) ↔ ((i : ℕ) → i < n → at l1 i ≡ at l2 i)
unfolding same_words
same_words_iff l1 l2 zero = (λ _ i hi. absurd (omega arith), λ _. refl)
same_words_iff l1 l2 (suc n) = (
  λ h i hi. elim (ℕ_discrete i n) [
    | yes e ↦ rw e (ground arith)
    | no ne ↦ (same_words_iff l1 l2 n).0 (ground arith) i (omega arith)
  ],
  λ h. ground (arith, h n (omega arith), (same_words_iff l1 l2 n).1 (λ i hi. h i (omega arith))),
)

-- Two valid lists compare equal exactly when they have the same entries.
pub equal_iff :
    (bb1 bb2 : U32List)
    → IsValid bb1
    → IsValid bb2
    → (u32_list_equal bb1 bb2 ≡ 1)
      ↔ ((bb1.num ≡ bb2.num) × ((i : ℕ) → i < bb1.num → at bb1.list i ≡ at bb2.list i))
unfolding u32_list_equal
equal_iff bb1 bb2 v w = (
  λ h. (
    ground (arith, v.magic_ok, w.magic_ok, h),
    (same_words_iff bb1.list bb2.list bb1.num).0 (ground (arith, v.magic_ok, w.magic_ok, h)),
  ),
  λ (e, h).
      ground (arith, v.magic_ok, w.magic_ok, e, (same_words_iff bb1.list bb2.list bb1.num).1 h),
)

take_whole : (n : ℕ) (xs : List ℕ) → length xs ≡ n → take n xs ≡ xs
take_whole zero [] e = refl
take_whole zero (x ∷ xs) e = absurd (omega arith)
take_whole (suc n) [] e = refl
take_whole (suc n) (x ∷ xs) e = ap (λ r. x ∷ r) (take_whole n xs (omega arith))

-- A copy of a valid list that has some capacity is the same list, flags included; without memory
-- for either part there is none.
pub copy_lem :
    (mem array : Bool) (bb : U32List)
    → IsValid bb
    → 0 < bb.size
    → u32_copy mem array bb ≡ (if mem && array then made bb else failed no_memory)
unfolding u32_copy make_u32_list
copy_lem mem array bb v h = ground (arith, v.magic_ok, take_whole bb.size bb.list v.sized)
