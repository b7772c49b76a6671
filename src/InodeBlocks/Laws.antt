-- ===== src/InodeBlocks/Laws.antt =====
-- Laws of an inode's block count.
use libext2fs.Prelude.{
  ℕ, ◌+◌, ◌-◌, ◌*◌, ◌^◌, ◌%◌, ◌≤◌, ◌<◌, ◌>>>◌, u16, u32, refl, ap, ◌∙◌, if◌then◌else◌, ◌≡◌, arith,
  false, Bool-cases, inl, inr,
}
use libext2fs.Bits.Fields.{bit_and_low, bit_or_fields, bit_or-zero_right}
use libext2fs.Errors.{eoverflow}
use libext2fs.Fs.{Filsys, has_incompat, incompat_64bit}
use libext2fs.InodeBlocks.{
  Inode, is_huge, scaled, iblk_add_blocks, iblk_sub_blocks, iblk_set, inode_i_blocks,
  file_acl_block, file_acl_block_set,
}

-- The fields are words of their width.
pub record IsWords (inode : Inode) : Type 0 where
  pub blocks : inode.i_blocks < 2 ^ 32
  pub blocks_hi : inode.l_i_blocks_hi < 2 ^ 16
  pub acl : inode.i_file_acl < 2 ^ 32
  pub acl_high : inode.l_i_file_acl_high < 2 ^ 16

-- The largest count that fits: 48 bits with HUGE_FILE, else 32.
abbrev pub capacity : Filsys → ℕ
capacity fs = if is_huge fs then 2 ^ 48 else 2 ^ 32

inode_i_blocks_lem :
    (fs : Filsys) (inode : Inode)
    → IsWords inode
    → inode_i_blocks fs inode
      ≡ (if is_huge fs then inode.i_blocks + inode.l_i_blocks_hi * 2 ^ 32 else inode.i_blocks)
unfolding inode_i_blocks
inode_i_blocks_lem fs inode w = ground (
  arith,
  w.blocks,
  bit_or_fields 32 inode.i_blocks inode.l_i_blocks_hi,
  bit_or-zero_right inode.i_blocks,
)

-- The inode that keeps the number `b`.
abbrev keeping : Filsys → Inode → ℕ → Inode
keeping fs inode b =
    if is_huge fs
    then record inode { l_i_blocks_hi = u16 (b >>> 32); i_blocks = b % 2 ^ 32 }
    else record inode { i_blocks = b % 2 ^ 32 }

keeping_lem :
    (fs : Filsys) (inode : Inode) (b : ℕ)
    → IsWords inode
    → b < capacity fs
    → IsWords (keeping fs inode b) × (inode_i_blocks fs (keeping fs inode b) ≡ b)
keeping_lem fs inode b w h = elim (Bool-cases (is_huge fs)) [
  | inl e ↦
      let words : IsWords (keeping fs inode b) =
        ground (arith, e, w.blocks, w.blocks_hi, w.acl, w.acl_high) in
      (words, ground (arith, e, h, inode_i_blocks_lem fs (keeping fs inode b) words))
  | inr e ↦
      let words : IsWords (keeping fs inode b) =
        ground (arith, e, w.blocks, w.blocks_hi, w.acl, w.acl_high) in
      (words, ground (arith, e, h, inode_i_blocks_lem fs (keeping fs inode b) words))
]

module _ (fs : Filsys) (inode : Inode) (n : ℕ) (w : IsWords inode) where
  add_fits :
      inode_i_blocks fs inode + scaled fs inode n < capacity fs
      → iblk_add_blocks fs inode n
        ≡ (0, keeping fs inode (inode_i_blocks fs inode + scaled fs inode n))
  unfolding iblk_add_blocks
  add_fits h = ground (
    arith,
    inode_i_blocks_lem fs inode w,
    w.blocks,
    w.blocks_hi,
    bit_and_low 32 (inode_i_blocks fs inode + scaled fs inode n),
  )

  sub_fits :
      scaled fs inode n ≤ inode_i_blocks fs inode
      → iblk_sub_blocks fs inode n
        ≡ (0, keeping fs inode (inode_i_blocks fs inode - scaled fs inode n))
  unfolding iblk_sub_blocks
  sub_fits h = ground (
    arith,
    inode_i_blocks_lem fs inode w,
    w.blocks,
    w.blocks_hi,
    bit_and_low 32 (inode_i_blocks fs inode - scaled fs inode n),
  )

  set_fits :
      scaled fs inode n < capacity fs
      → iblk_set fs inode n ≡ (0, keeping fs inode (scaled fs inode n))
  unfolding iblk_set
  set_fits h = ground (arith, bit_and_low 32 (scaled fs inode n))

-- An addition whose sum fits is exact. One that does not fit is reported, with the inode unchanged,
-- where the count has 32 bits.
pub add_blocks_lem :
    (fs : Filsys) (inode : Inode) (n : ℕ)
    → IsWords inode
    → (inode_i_blocks fs inode + scaled fs inode n < capacity fs
        → ((iblk_add_blocks fs inode n).0 ≡ 0)
          × IsWords (iblk_add_blocks fs inode n).1
          × (inode_i_blocks fs (iblk_add_blocks fs inode n).1
              ≡ inode_i_blocks fs inode + scaled fs inode n))
      × (is_huge fs ≡ false
          → 2 ^ 32 ≤ inode_i_blocks fs inode + scaled fs inode n
          → inode_i_blocks fs inode + scaled fs inode n < 2 ^ 64
          → iblk_add_blocks fs inode n ≡ (eoverflow, inode))
add_blocks_lem fs inode n w = (
  λ fits.
      rw (add_fits fs inode n w fits)
        (let (words, value) = keeping_lem fs inode _ w fits in (refl, words, value)),
  λ e big small.
      unfold iblk_add_blocks in ground (arith, e, inode_i_blocks_lem fs inode w, w.blocks),
)

-- A subtraction is exact, or is reported with the inode unchanged where there are fewer blocks.
pub sub_blocks_lem :
    (fs : Filsys) (inode : Inode) (n : ℕ)
    → IsWords inode
    → (scaled fs inode n ≤ inode_i_blocks fs inode
        → ((iblk_sub_blocks fs inode n).0 ≡ 0)
          × IsWords (iblk_sub_blocks fs inode n).1
          × (inode_i_blocks fs (iblk_sub_blocks fs inode n).1
              ≡ inode_i_blocks fs inode - scaled fs inode n))
      × (inode_i_blocks fs inode < scaled fs inode n
          → iblk_sub_blocks fs inode n ≡ (eoverflow, inode))
sub_blocks_lem fs inode n w = (
  λ enough.
      rw (sub_fits fs inode n w enough)
        (let (words, value) = keeping_lem fs inode _ w (below enough) in (refl, words, value)),
  λ short.
      unfold iblk_sub_blocks in
      ground (arith, inode_i_blocks_lem fs inode w, w.blocks, w.blocks_hi),
)
  where
    below :
        scaled fs inode n ≤ inode_i_blocks fs inode
        → inode_i_blocks fs inode - scaled fs inode n < capacity fs
    below h = ground (arith, inode_i_blocks_lem fs inode w, w.blocks, w.blocks_hi)

-- What `ext2fs_iblk_set` stores reads back, if it fits.
pub iblk_set_lem :
    (fs : Filsys) (inode : Inode) (n : ℕ)
    → IsWords inode
    → scaled fs inode n < capacity fs
    → ((iblk_set fs inode n).0 ≡ 0)
      × (inode_i_blocks fs (iblk_set fs inode n).1 ≡ scaled fs inode n)
iblk_set_lem fs inode n w h = rw (set_fits fs inode n w h) (refl, (keeping_lem fs inode _ w h).1)

scaled-keeping :
    (fs : Filsys) (inode : Inode) (b n : ℕ) → scaled fs (keeping fs inode b) n ≡ scaled fs inode n
unfolding scaled
scaled-keeping fs inode b n = ground arith

keeping_own :
    (fs : Filsys) (inode : Inode) (b : ℕ)
    → IsWords inode
    → keeping fs (keeping fs inode b) (inode_i_blocks fs inode) ≡ inode
keeping_own fs inode b w = ground (arith, inode_i_blocks_lem fs inode w, w.blocks, w.blocks_hi)

-- For an inode whose fields are words of their width, if the count after the addition is below 2^48 with
-- the HUGE_FILE feature, or below 2^32 without it, adding blocks and taking them away again gives the
-- inode back, without an error.
pub sub-add_blocks :
    (fs : Filsys) (inode : Inode) (n : ℕ)
    → IsWords inode
    → inode_i_blocks fs inode + scaled fs inode n < capacity fs
    → iblk_sub_blocks fs (iblk_add_blocks fs inode n).1 n ≡ (0, inode)
sub-add_blocks fs inode n w h =
    ap (λ i. iblk_sub_blocks fs i n) (ap (λ p. p.1) (add_fits fs inode n w h))
    ∙ sub_fits fs kept n words (omega (arith, value, same_scale))
    ∙ ap {A = ℕ} {B = ℕ × Inode} (λ b. (0, keeping fs kept b)) back
    ∙ ap {A = Inode} {B = ℕ × Inode} (λ i. (0, i)) (keeping_own fs inode sum w)
  where
    sum : ℕ
    sum = inode_i_blocks fs inode + scaled fs inode n

    kept : Inode
    kept = keeping fs inode sum

    words : IsWords kept
    words = (keeping_lem fs inode sum w h).0

    value : inode_i_blocks fs kept ≡ sum
    value = (keeping_lem fs inode sum w h).1

    same_scale : scaled fs kept n ≡ scaled fs inode n
    same_scale = scaled-keeping fs inode sum n

    back : inode_i_blocks fs kept - scaled fs kept n ≡ inode_i_blocks fs inode
    back = omega (arith, value, same_scale)

-- The block of extended attributes reads back, in 48 bits with the 64BIT feature, else in 32; the
-- count of blocks is not touched.
pub file_acl_block_roundtrip :
    (fs : Filsys) (inode : Inode) (blk : ℕ)
    → (file_acl_block fs (file_acl_block_set fs inode blk)
        ≡ (if has_incompat fs.super incompat_64bit then blk % 2 ^ 48 else u32 blk))
      × (inode_i_blocks fs (file_acl_block_set fs inode blk) ≡ inode_i_blocks fs inode)
unfolding file_acl_block file_acl_block_set inode_i_blocks
file_acl_block_roundtrip fs inode blk =
    ground (arith, bit_or_fields 32 (u32 blk) (u16 (blk >>> 32)))
