-- ===== src/Link/Unlink.antt =====
-- source/unlink.c: a call of `unlink_proc` on one entry of a block.
use libext2fs.Prelude.{
  ℕ, zero, suc, ◌+◌, List, [], ◌∷◌, Bool, true, not, ◌==◌, ◌&&◌, ◌||◌, if◌then◌else◌, Option, none,
  some, bit_and, u16,
}
use libext2fs.Link.{Slot, Block, put_head, changed, abort}

-- `struct link_struct` of unlink.c; a pointer into the block is an offset. The field `flags`, which
-- nothing reads, is left out.
pub record UnlinkStruct : Type 0 where
  pub name : Option (List ℕ)
  pub namelen : ℕ
  pub inode : ℕ
  pub prev : Option ℕ
  pub done : ℕ

-- Whether `strncmp` returns 0; a string ends with its list.
unfoldable pub strncmp_equal : List ℕ → List ℕ → ℕ → Bool
strncmp_equal xs ys zero = true
strncmp_equal [] [] (suc n) = true
strncmp_equal [] (y ∷ ys) (suc n) = y == 0
strncmp_equal (x ∷ xs) [] (suc n) = x == 0
strncmp_equal (x ∷ xs) (y ∷ ys) (suc n) =
    let rest = strncmp_equal xs ys n in (x == y) && ((x == 0) || rest)

-- The tests of `unlink_proc` for the entry that is looked for.
unfoldable pub wanted : UnlinkStruct → Slot → Bool
wanted ls s =
    let len = bit_and s.head.name_len 0xFF in
    let named_so : Bool = elim ls.name [
      | none ↦ true
      | some name ↦ (len == ls.namelen) && strncmp_equal name s.name len
    ] in
    let is_inode =
      if not (ls.inode == 0) then s.head.inode == ls.inode else not (s.head.inode == 0) in
    named_so && is_inode

-- The block without the entry; a null pointer is not followed.
unfoldable pub taken_out : Option ℕ → Block → ℕ → Block
taken_out prev b offset =
    let d = (b offset).head in
    if not (offset == 0)
    then elim prev [
      | none ↦ b
      | some at ↦
          put_head b at (record (b at).head { rec_len = u16 ((b at).head.rec_len + d.rec_len) })
    ]
    else put_head b offset (record d { inode = 0 })

-- The result, and what `unlink_proc` changes.
unfoldable pub unlink_proc : UnlinkStruct → Block → ℕ → ℕ × UnlinkStruct × Block
unlink_proc ls b offset =
    let ls' = record ls { prev = some offset } in
    if not (wanted ls (b offset))
    then (0, ls', b)
    else (abort + changed, record ls' { done = ls'.done + 1 }, taken_out ls.prev b offset)
