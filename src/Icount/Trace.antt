-- ===== src/Icount/Trace.antt =====
-- source/icount.c: a sequence of calls, as a client sees it.
use libext2fs.Prelude.{ℕ, ◌≡◌, refl, List, [], ◌∷◌, Option, none, some, ap₂, ◌∙◌, inl, inr, arith}
use libext2fs.Icount.{Icount}
use libext2fs.Icount.Invariant.{IsValid}
use libext2fs.Icount.Marks.{links}
use libext2fs.Icount.Counts.{Request, specified, IsAnswered}
use libext2fs.Icount.Refine.{call, call-IsOutcome}

-- What the caller of an operation sees: its status and the count that it gives.
abbrev pub Reply : Type 0
Reply = ℕ × Option ℕ

-- A request, and the size that is estimated for the list if the call has to grow it, which succeeds.
abbrev pub Call : Type 0
Call = Request × ℕ

-- The replies of the code.
unfoldable pub replies : Icount → List Call → List Reply
replies ic [] = []
replies ic ((r, estimate) ∷ rest) =
    let (status, value, ic') = call (some estimate) ic r in (status, value) ∷ replies ic' rest

-- The replies of a map from inodes to counts.
unfoldable pub map_replies : ℕ → (ℕ → ℕ) → List Call → List Reply
map_replies num counts [] = []
map_replies num counts ((r, estimate) ∷ rest) =
    let a = specified num counts r in (a.status, a.value) ∷ map_replies num a.counts rest

call-IsAnswered :
    (estimate : ℕ) (ic : Icount) (r : Request)
    → IsValid ic
    → IsAnswered ic (specified ic.num_inodes (links ic) r) (call (some estimate) ic r)
call-IsAnswered estimate ic r v = elim (call-IsOutcome (some estimate) ic r v) [
  | inl a ↦ a
  | inr (no_room, _) ↦ absurd (some_ne no_room)
]
  where
    some_ne : some estimate ≡ none → ⊥
    some_ne e = ground (arith, e)

-- Any sequence of calls on a valid icount, each with memory to grow the list, gets the replies that a
-- map from inodes to counts of links gives: the bitmaps, the list, the cursor and the binary search do
-- not show.
pub replies-map_replies :
    (calls : List Call) (ic : Icount)
    → IsValid ic
    → replies ic calls ≡ map_replies ic.num_inodes (links ic) calls
unfolding replies map_replies
replies-map_replies [] ic v = refl
replies-map_replies ((r, estimate) ∷ rest) ic v =
    ap₂ (λ (p : Reply) (ps : List Reply). p ∷ ps) (λ i. (a.status_ok i, a.value_ok i))
      (replies-map_replies rest ic' a.valid ∙ λ i.
        map_replies (a.num_same i) (λ n. a.counts_ok n i) rest)
  where
    ic' : Icount
    ic' = (call (some estimate) ic r).2

    a : IsAnswered ic (specified ic.num_inodes (links ic) r) (call (some estimate) ic r)
    a = call-IsAnswered estimate ic r v
