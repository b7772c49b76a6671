-- ===== src/GroupDesc/Table.antt =====
-- The memory of the descriptor table: reads and writes of one cell.
use libext2fs.Prelude.{ℕ, zero, suc, ◌<◌, List, [], ◌∷◌, ◌≡◌, ◌≢◌, refl, ap, arith, length}
use libext2fs.Prelude.{◌==◌, if◌then◌else◌}
use libext2fs.Fs.{Cell}

abbrev pub blank : Cell
blank = record {
  bg_block_bitmap = 0;
  bg_inode_bitmap = 0;
  bg_inode_table = 0;
  bg_free_blocks_count = 0;
  bg_free_inodes_count = 0;
  bg_used_dirs_count = 0;
  bg_flags = 0;
  bg_exclude_bitmap_lo = 0;
  bg_block_bitmap_csum_lo = 0;
  bg_inode_bitmap_csum_lo = 0;
  bg_itable_unused = 0;
  bg_checksum = 0;
}

-- An access outside the table is undefined in C: here a read gives a blank cell, and a write does
-- nothing. The theorems suppose that the accesses lie inside.
unfoldable pub cell_at : List Cell → ℕ → Cell
cell_at [] i = blank
cell_at (c ∷ cs) zero = c
cell_at (c ∷ cs) (suc i) = cell_at cs i

unfoldable pub poke : List Cell → ℕ → (Cell → Cell) → List Cell
poke [] i f = []
poke (c ∷ cs) zero f = f c ∷ cs
poke (c ∷ cs) (suc i) f = c ∷ poke cs i f

pub cell_at-poke :
    (cs : List Cell) (i j : ℕ) (f : Cell → Cell)
    → j < length cs
    → cell_at (poke cs i f) j ≡ (if i == j then f (cell_at cs j) else cell_at cs j)
unfolding cell_at poke
cell_at-poke [] i j f h = absurd (omega arith)
cell_at-poke (c ∷ cs) zero zero f h = refl
cell_at-poke (c ∷ cs) zero (suc j) f h = ground arith
cell_at-poke (c ∷ cs) (suc i) zero f h = ground arith
cell_at-poke (c ∷ cs) (suc i) (suc j) f h = ground (arith, cell_at-poke cs i j f)

pub length-poke : (cs : List Cell) (i : ℕ) (f : Cell → Cell) → length (poke cs i f) ≡ length cs
unfolding poke
length-poke [] i f = refl
length-poke (c ∷ cs) zero f = refl
length-poke (c ∷ cs) (suc i) f = ap suc (length-poke cs i f)

pub poke_same : (cs : List Cell) (i : ℕ) → poke cs i (λ c. c) ≡ cs
unfolding poke
poke_same [] i = refl
poke_same (c ∷ cs) zero = refl
poke_same (c ∷ cs) (suc i) = ap (λ r. c ∷ r) (poke_same cs i)

-- A write does not show in another cell, inside the table or not.
pub cell_at-poke_ne :
    (cs : List Cell) (i j : ℕ) (f : Cell → Cell) → i ≢ j → cell_at (poke cs i f) j ≡ cell_at cs j
unfolding cell_at poke
cell_at-poke_ne [] i j f h = refl
cell_at-poke_ne (c ∷ cs) zero zero f h = absurd (h refl)
cell_at-poke_ne (c ∷ cs) zero (suc j) f h = refl
cell_at-poke_ne (c ∷ cs) (suc i) zero f h = refl
cell_at-poke_ne (c ∷ cs) (suc i) (suc j) f h = cell_at-poke_ne cs i j f (λ e. h (ap suc e))
